-- ===== src/Close.antt =====
-- MMDB_close, free_mmdb_struct, free_languages_metadata and free_descriptions_metadata of
-- libmaxminddb/src/maxminddb.c, and MMDB_open with the cleanup of its failures.
--
-- Memory that is given back has no bytes any more. free_languages_metadata and
-- free_descriptions_metadata leave the counts as they are over arrays that are gone; here nothing
-- is left of the two lists.
use node_geoip2c.Base.{ℕ, Bool, none, some, List, []}
use node_geoip2c.Types.{Outcome, success, failure, fault, stuck, Value, EntryData, Mmdb}
use node_geoip2c.Metadata.{Opening}
use node_geoip2c.Open.{Mapping, mmdb_open}

-- `if (NULL != mmdb->file_content) munmap(mmdb->file_content, mmdb->file_size);`
abbrev pub munmap_file : Mmdb → Mmdb
munmap_file m = elim m.file_content [ none ↦ m | some p ↦ record m { mapping = [] } ]

unfoldable pub free_languages_metadata : Mmdb → Mmdb
free_languages_metadata m = record m { metadata = record m.metadata { languages = [] } }

unfoldable pub free_descriptions_metadata : Mmdb → Mmdb
free_descriptions_metadata m = record m { metadata = record m.metadata { description = [] } }

unfoldable pub free_mmdb_struct : Mmdb → Mmdb
free_mmdb_struct m =
    let unmapped = munmap_file (record m { filename = none }) in
    free_descriptions_metadata (
      free_languages_metadata
        (record unmapped { metadata = record unmapped.metadata { database_type = none } }))

unfoldable pub close : Mmdb → Mmdb
close m = free_mmdb_struct m

-- The label `cleanup` of MMDB_open: the database that is left, with or without a failure.
abbrev pub cleanup : Outcome Opening → Outcome Mmdb
cleanup (success s) = success s.mmdb
cleanup (failure e s) = failure e (free_mmdb_struct s.mmdb)
cleanup fault = fault
cleanup stuck = stuck

-- MMDB_open as its caller sees it.
unfoldable pub open_database :
    (List ℕ → Mapping) → (Value → ℕ) → (ℕ → Bool) → EntryData → ℕ → List ℕ → ℕ → Mmdb → Outcome Mmdb
open_database os word granted stale fuel filename flags m =
    cleanup (mmdb_open os word granted stale fuel filename flags m)
