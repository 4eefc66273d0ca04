-- ===== src/EntryList.antt =====
-- Whole values as lists of entries: get_entry_data_list, MMDB_get_entry_data_list,
-- new_entry_data_list, MMDB_get_metadata_as_entry_data_list and make_fake_metadata_db of
-- libmaxminddb/src/maxminddb.c.
--
-- A linked list is its head entry and the entries behind it. `granted` says of every allocation,
-- counted from 0, whether calloc grants it.
pub mod Cycle
pub mod Listed
pub mod Loops
pub mod Switch
pub mod Flatten
use node_geoip2c.Base.{
  ℕ, zero, suc, ◌+◌, Bool, true, false, Option, none, some, List, [], ◌∷◌, ◌++◌,
}
use node_geoip2c.Base.{◌==◌, if◌then◌else◌}
use node_geoip2c.Types.DataType
use node_geoip2c.Types.{
  Error, Outcome, success, failure, fault, stuck, ◌>>=◌, reading, Value, EntryData,
}
use node_geoip2c.Types.{Mmdb, Metadata, Ipv4StartNode, zeroed_entry}
use node_geoip2c.Decode.{decode_one, pointer_of, is_compound}

-- MMDB_entry_data_list_s, and the allocations made so far.
pub record EntryDataList : Type 0 where
  pub entry_data : EntryData
  pub next : List EntryData
  pub allocations : ℕ

-- A list in the loops over members: the members so far, where the next one is, the allocations.
pub record Members : Type 0 where
  pub members : List EntryData
  pub offset : ℕ
  pub allocations : ℕ

-- decode_one into the head of a list.
abbrev pub into_head : EntryDataList → Outcome EntryData → Outcome EntryDataList
into_head l (success e) = success (record l { entry_data = e })
into_head l (failure x e) = failure x (record l { entry_data = e })
into_head l fault = fault
into_head l stuck = stuck

unfoldable pub decode_head : Mmdb → ℕ → EntryDataList → Outcome EntryDataList
decode_head m offset l = into_head l (decode_one m offset l.entry_data)

-- The `while` over pointers; with the list goes `last_offset`.
unfoldable pub follow_pointers :
    ℕ
    → Mmdb
    → (ℕ → EntryDataList → Outcome EntryDataList)
    → EntryDataList
    → ℕ
    → Outcome EntryDataList
follow_pointers zero m behind l last_offset = stuck
follow_pointers (suc fuel) m behind l last_offset =
    if l.entry_data.type == DataType.pointer
    then (reading (pointer_of l.entry_data.value)
        λ target. decode_head m target l >>= λ l'. follow_pointers fuel m behind l' target)
    else behind last_offset l

abbrev pub with_next_offset : ℕ → EntryDataList → EntryDataList
with_next_offset next l = record l { entry_data = record l.entry_data { offset_to_next = next } }

-- The `entry_data_list_to` of one member is behind those so far.
abbrev pub add_member : Members → Outcome EntryDataList → Outcome Members
add_member ms (success l) = success (record {
  members = ms.members ++ (l.entry_data ∷ l.next);
  offset = l.entry_data.offset_to_next;
  allocations = l.allocations;
})
add_member ms (failure x l) = failure x (record {
  members = ms.members ++ (l.entry_data ∷ l.next);
  offset = ms.offset;
  allocations = l.allocations;
})
add_member ms fault = fault
add_member ms stuck = stuck

-- The head again, behind the loop over its members.
abbrev pub add_head : EntryDataList → Outcome Members → Outcome EntryDataList
add_head l (success ms) = success (record {
  entry_data = record l.entry_data { offset_to_next = ms.offset };
  next = ms.members;
  allocations = ms.allocations;
})
add_head l (failure x ms) =
    failure x
      (record { entry_data = l.entry_data; next = ms.members; allocations = ms.allocations })
add_head l fault = fault
add_head l stuck = stuck

module _ (granted : ℕ → Bool) where
  -- new_entry_data_list and the recursive call `get` on what it gives.
  unfoldable pub new_member :
      (ℕ → EntryDataList → Outcome EntryDataList) → Members → Outcome Members
  new_member get ms =
      if granted ms.allocations
      then add_member ms (
          get ms.offset
            (record { entry_data = zeroed_entry; next = []; allocations = ms.allocations + 1 }))
      else failure Error.out_of_memory (record ms { allocations = ms.allocations + 1 })

  unfoldable pub array_members :
      (ℕ → EntryDataList → Outcome EntryDataList) → ℕ → Members → Outcome Members
  array_members get zero ms = success ms
  array_members get (suc array_size) ms = do
    member ← new_member get ms
    array_members get array_size member

  unfoldable pub map_members :
      (ℕ → EntryDataList → Outcome EntryDataList) → ℕ → Members → Outcome Members
  map_members get zero ms = success ms
  map_members get (suc size) ms = do
    key ← new_member get ms
    value ← new_member get key
    map_members get size value

  -- The `switch`; `get` is the recursive call, and `fuel` bounds a chain of pointers.
  unfoldable pub list_type :
      ℕ → Mmdb → (ℕ → EntryDataList → Outcome EntryDataList) → EntryDataList → Outcome EntryDataList
  list_type fuel m get l =
      let e = l.entry_data in
      let start : Members = record {
        members = [];
        offset = e.offset_to_next;
        allocations = l.allocations;
      } in
      if e.type == DataType.pointer
      then (follow_pointers fuel m
            (λ last_offset l'.
              if is_compound l'.entry_data.type then get last_offset l' else success l')
            l 0
          >>= λ l'. success (with_next_offset e.offset_to_next l'))
      else if e.type == DataType.array
      then add_head l (array_members get e.data_size start)
      else if e.type == DataType.map
      then add_head l (map_members get e.data_size start)
      else success l

  unfoldable pub list_nested : ℕ → Mmdb → ℕ → EntryDataList → Outcome EntryDataList
  list_nested zero m offset l = stuck
  list_nested (suc fuel) m offset l = do
    decoded ← decode_head m offset l
    list_type fuel m (λ o l'. list_nested fuel m o l') decoded

  -- MMDB_get_entry_data_list with fuel for the nesting and the chains of pointers.
  unfoldable pub get_entry_data_list : ℕ → Mmdb → ℕ → ℕ → Outcome EntryDataList
  get_entry_data_list fuel m offset allocations =
      let l : EntryDataList = record {
        entry_data = zeroed_entry;
        next = [];
        allocations = allocations + 1;
      } in
      if granted allocations then list_nested fuel m offset l else failure Error.out_of_memory l

-- make_fake_metadata_db
unfoldable pub make_fake_metadata_db : Mmdb → Mmdb
make_fake_metadata_db m = record {
  mapping = m.mapping;
  flags = 0;
  filename = none;
  file_size = 0;
  file_content = none;
  data_section = m.metadata_section;
  data_section_size = m.metadata_section_size;
  metadata_section = none;
  metadata_section_size = 0;
  full_record_byte_size = 0;
  depth = 0;
  ipv4_start_node = record { netmask = 0; node_value = 0 };
  metadata = record {
    node_count = 0;
    record_size = 0;
    ip_version = 0;
    database_type = none;
    languages = [];
    binary_format_major_version = 0;
    binary_format_minor_version = 0;
    build_epoch = 0;
    description = [];
  };
}

unfoldable pub get_metadata_as_entry_data_list : (ℕ → Bool) → ℕ → Mmdb → ℕ → Outcome EntryDataList
get_metadata_as_entry_data_list granted fuel m allocations =
    get_entry_data_list granted fuel (make_fake_metadata_db m) 0 allocations
