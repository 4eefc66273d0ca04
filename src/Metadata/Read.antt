-- ===== src/Metadata/Read.antt =====
-- populate_description_metadata and read_metadata of libmaxminddb/src/maxminddb.c.
use node_geoip2c.Base.{ℕ, zero, suc, ◌+◌, ◌*◌, ◌/◌, Bool, ◌||◌, not, Option, none, some}
use node_geoip2c.Base.{List, [], ◌∷◌, ◌++◌, ◌==◌, if◌then◌else◌, u16}
use node_geoip2c.Types.DataType
use node_geoip2c.Types.{
  Error, Outcome, success, failure, fault, ◌>>=◌, into, Value, EntryData, Mmdb,
}
use node_geoip2c.Types.{Description}
use node_geoip2c.Path.{aget_value}
use node_geoip2c.EntryList.{make_fake_metadata_db}
use node_geoip2c.Metadata.Keys
use node_geoip2c.Metadata.{
  Opening, ignoring_status, with_metadata, checked, copy_string, metadata_members,
}
use node_geoip2c.Metadata.{
  value_for_key_as_uint16, value_for_key_as_uint32, value_for_key_as_uint64,
}
use node_geoip2c.Metadata.{value_for_key_as_string, populate_languages_metadata}

abbrev pub update_last : (Description → Description) → List Description → List Description
update_last f [] = []
update_last f (d ∷ []) = f d ∷ []
update_last f (d ∷ d' ∷ ds) = d ∷ update_last f (d' ∷ ds)

abbrev pub with_descriptions : Opening → List Description → Opening
with_descriptions s ds = with_metadata s (record s.mmdb.metadata { description = ds })

abbrev pub store_language : Opening → Option (List ℕ) → Opening
store_language s text =
    with_descriptions s
      (update_last (λ d. record d { language = text }) s.mmdb.metadata.description)

abbrev pub store_description : Opening → Option (List ℕ) → Opening
store_description s text =
    with_descriptions s
      (update_last (λ d. record d { description = text }) s.mmdb.metadata.description)

-- The last two assignments of read_metadata.
abbrev pub set_sizes : Opening → Opening
set_sizes s = record s {
  mmdb = record s.mmdb {
    full_record_byte_size = u16 (s.mmdb.metadata.record_size * 2 / 8);
    depth = if s.mmdb.metadata.ip_version == 4 then 32 else 128;
  };
}

module _ (word : Value → ℕ) (granted : ℕ → Bool) (stale : EntryData) where
  -- A MMDB_description_s is allocated, counted, and its strings are set to NULL.
  unfoldable pub new_description : Opening → Outcome Opening
  new_description s =
      let counted = record s { allocations = s.allocations + 1 } in
      if granted s.allocations
      then success (
          with_descriptions counted
            (s.mmdb.metadata.description ++ (record { language = none; description = none } ∷ [])))
      else failure Error.out_of_memory counted

  -- The `for` loop of populate_description_metadata.
  unfoldable pub descriptions : ℕ → List EntryData → Opening → Outcome Opening
  descriptions zero members s = success s
  descriptions (suc left) [] s = new_description s >>= λ s'. fault
  descriptions (suc left) (key ∷ []) s = new_description s >>= λ s'.
      copy_string word granted stale key store_language s' >>= λ s''. fault
  descriptions (suc left) (key ∷ value ∷ members) s = do
    allocated ← new_description s
    named ← copy_string word granted stale key store_language allocated
    described ← copy_string word granted stale value store_description named
    descriptions left members described

  unfoldable pub populate_description_metadata : ℕ → Mmdb → Opening → Outcome Opening
  populate_description_metadata fuel db s =
      into s (ignoring_status (aget_value stale db 0 (Keys.description ∷ []))) λ e.
        if not (e.type == DataType.map)
        then failure Error.invalid_metadata s
        else metadata_members word granted stale fuel db e.offset (with_descriptions s [])
            (λ l s'. descriptions l.entry_data.data_size l.next s')

  -- The assignments of read_metadata in their order, each with its checks; `db` is the fake MMDB_s.
  unfoldable pub read_node_count : Mmdb → Opening → Outcome Opening
  read_node_count db s =
      into s (value_for_key_as_uint32 word granted stale db Keys.node_count)
        λ v. checked (v == 0) (with_metadata s (record s.mmdb.metadata { node_count = v }))

  unfoldable pub read_record_size : Mmdb → Opening → Outcome Opening
  read_record_size db s =
      into s (value_for_key_as_uint16 word granted stale db Keys.record_size) λ v.
        let s' = with_metadata s (record s.mmdb.metadata { record_size = v }) in
        if v == 0
        then failure Error.invalid_metadata s'
        else if (v == 24) || ((v == 28) || (v == 32))
        then success s'
        else failure Error.unknown_database_format s'

  unfoldable pub read_ip_version : Mmdb → Opening → Outcome Opening
  read_ip_version db s = into s (value_for_key_as_uint16 word granted stale db Keys.ip_version) λ v.
      checked ((v == 0) || not ((v == 4) || (v == 6)))
        (with_metadata s (record s.mmdb.metadata { ip_version = v }))

  unfoldable pub read_database_type : Mmdb → Opening → Outcome Opening
  read_database_type db s =
      into s (value_for_key_as_string word granted stale db Keys.database_type s.allocations)
        λ text.
          let s' =
            with_metadata (record s { allocations = s.allocations + 1 })
              (record s.mmdb.metadata { database_type = text }) in
          elim text [ none ↦ failure Error.invalid_metadata s' | some t ↦ success s' ]

  unfoldable pub read_major_version : Mmdb → Opening → Outcome Opening
  read_major_version db s =
      into s (value_for_key_as_uint16 word granted stale db Keys.binary_format_major_version) λ v.
        checked (v == 0)
          (with_metadata s (record s.mmdb.metadata { binary_format_major_version = v }))

  unfoldable pub read_minor_version : Mmdb → Opening → Outcome Opening
  read_minor_version db s =
      into s (value_for_key_as_uint16 word granted stale db Keys.binary_format_minor_version)
        λ v. success (with_metadata s (record s.mmdb.metadata { binary_format_minor_version = v }))

  unfoldable pub read_build_epoch : Mmdb → Opening → Outcome Opening
  read_build_epoch db s =
      into s (value_for_key_as_uint64 word granted stale db Keys.build_epoch)
        λ v. checked (v == 0) (with_metadata s (record s.mmdb.metadata { build_epoch = v }))

  -- The fuel is that of the two lists of entries.
  unfoldable pub read_metadata : ℕ → Opening → Outcome Opening
  read_metadata fuel s = do
    let db = make_fake_metadata_db s.mmdb
    s1 ← read_node_count db s
    s2 ← read_record_size db s1
    s3 ← read_ip_version db s2
    s4 ← read_database_type db s3
    s5 ← populate_languages_metadata word granted stale fuel db s4
    s6 ← read_major_version db s5
    s7 ← read_minor_version db s6
    s8 ← read_build_epoch db s7
    s9 ← populate_description_metadata fuel db s8
    success (set_sizes s9)
