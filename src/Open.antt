-- ===== src/Open.antt =====
-- MMDB_open and map_file of libmaxminddb/src/maxminddb.c.
pub mod Keeps
pub mod Steps
pub mod WellFormed
use node_geoip2c.Base.{
  ℕ, ◌+◌, ◌-◌, ◌*◌, ◌%◌, Bool, true, not, Option, none, some, List, [], ◌==◌, if◌then◌else◌, length,
  u32, sub32,
}
use node_geoip2c.Types.{
  Error, Outcome, success, failure, fault, ◌>>=◌, reading, Value, EntryData, Mmdb,
}
use mathlib.Core.Option
use node_geoip2c.Metadata.{Opening, find_metadata, with_metadata}
use node_geoip2c.Metadata.Read.{read_metadata}

-- What open, fstat and mmap make of a file name: no file, no mapping (with errno ENOMEM or not), or
-- the bytes of the file.
pub data Mapping : Type 0 where
  no_file : Mapping
  not_mapped : Bool → Mapping
  mapped : List ℕ → Mapping

abbrev pub with_mmdb : Opening → Mmdb → Opening
with_mmdb s m = record s { mmdb = m }

unfoldable pub map_file : (List ℕ → Mapping) → List ℕ → Opening → Outcome Opening
map_file os filename s = elim (os filename) [
  | no_file ↦ failure Error.file_open s
  | not_mapped enomem ↦ failure (if enomem then Error.out_of_memory else Error.io) s
  | mapped file ↦ success (
      with_mmdb s
        (record s.mmdb { mapping = file; file_size = length file; file_content = some 0 }))
]

-- The assignments before the first call.
abbrev pub cleared : Mmdb → Mmdb
cleared m = record m {
  file_content = none;
  data_section = none;
  metadata = record m.metadata { database_type = none; languages = []; description = [] };
}

-- `if ((flags & MMDB_MODE_MASK) == 0) flags |= MMDB_MODE_MMAP;`
abbrev pub with_mode : ℕ → ℕ
with_mode flags = if flags % 8 == 0 then flags + 1 else flags

-- From the check of the version on.
unfoldable pub locate_sections : Opening → Outcome Opening
locate_sections s =
    let m = s.mmdb in
    let search_tree_size = u32 (m.metadata.node_count * m.full_record_byte_size) in
    if not (m.metadata.binary_format_major_version == 2)
    then failure Error.unknown_database_format s
    else success (
        with_mmdb s (record m {
          data_section = Option.map (λ base. base + search_tree_size) m.file_content;
          data_section_size = sub32 (u32 m.file_size) search_tree_size;
          ipv4_start_node = record { netmask = 0; node_value = 0 };
        }))

module _ (os : List ℕ → Mapping) (word : Value → ℕ) (granted : ℕ → Bool) (stale : EntryData) where
  unfoldable pub open_metadata : ℕ → Opening → Outcome Opening
  open_metadata fuel s = reading (find_metadata s.mmdb.mapping s.mmdb.file_size) λ located.
      let found =
        with_mmdb s (record s.mmdb {
          metadata_section = some located.0;
          metadata_section_size = located.1;
        }) in
      read_metadata word granted stale fuel found >>= λ s'. locate_sections s'

  -- What MMDB_open returns, with the MMDB_s before the cleanup of a failure frees what it holds.
  unfoldable pub mmdb_open : ℕ → List ℕ → ℕ → Mmdb → Outcome Opening
  mmdb_open fuel filename flags m =
      let s : Opening = record { mmdb = cleared m; allocations = 1 } in
      if granted 0
      then (map_file os filename
            (with_mmdb s (record s.mmdb { filename = some filename; flags = with_mode flags }))
          >>= λ s'. open_metadata fuel s')
      else failure Error.out_of_memory (with_mmdb s (record s.mmdb { filename = none }))
