-- ===== src/Tests/Openings.antt =====
-- A whole file, opened and looked up in, and the smaller parts of opening.
use node_geoip2c.Base.{
  ℕ, ◌*◌, ◌^◌, ◌≤◌, ◌<◌, ◌≡◌, refl, arith, none, some, List, [], ◌∷◌, ◌++◌, length, take,
}
use node_geoip2c.Types.{Outcome, success, stuck, Value, Mmdb, zeroed_entry}
use node_geoip2c.Decode.{decode_pointer, get_ptr_from, pointer_offset}
use node_geoip2c.Open.{mmdb_open, map_file, open_metadata, locate_sections}
use node_geoip2c.Metadata.{
  find_metadata, find_loop, value_for_key_as_uint16, value_for_key_as_uint32,
  value_for_key_as_uint64, value_for_key_as_string, populate_languages_metadata, copy_string,
  language_names, metadata_members,
}
use node_geoip2c.Compat.{memmem, memmem_loop, starts_with, strn, strndup}
use node_geoip2c.Metadata.Read.{
  read_metadata, read_node_count, read_record_size, read_ip_version, read_database_type,
  read_major_version, read_minor_version, read_build_epoch, populate_description_metadata,
  new_description, descriptions,
}
use node_geoip2c.EntryList.{
  make_fake_metadata_db, get_entry_data_list, list_nested, list_type, array_members, map_members,
  new_member, follow_pointers, decode_head,
}
use node_geoip2c.Path.{
  aget_value, walk_path, path_step, lookup_path_in_map, find_key, key_matches, text_of, bytes_at,
  skip_map_or_array, skip_nested, skip_pairs, skip_items,
}
use node_geoip2c.Decode.{
  decode_one, decode_one_follow, follow, decode_control, decode_typed, decode_payload,
  decode_scalar, decode_wide, decode_real, decode_sized, number, read_size, get_ext_type,
}
use node_geoip2c.Types.{data_byte}
use node_geoip2c.Bytes.{get_uint_x, uint_loop}
use node_geoip2c.EntryList.Cycle.{PointsToItself, get_entry_data_list-PointsToItself}
use node_geoip2c.Metadata.{Opening}
use node_geoip2c.Metadata.Keys.{metadata_marker}
use node_geoip2c.Metadata.Marker.{Located, find_metadata-Located}
use node_geoip2c.Compat.First.{IsFirst, memmem-IsFirst}
use node_geoip2c.Open.{Mapping}
use node_geoip2c.Open.WellFormed.{IsOpened, mmdb_open-IsOpened, mmdb_open-lookup_string-Ends}
use node_geoip2c.Tree.Safety.{Ends}
use node_geoip2c.Lookup.{lookup_string}
use node_geoip2c.Tests.{always, ipv4_db, one_host, one_host-GivesAddress}

-- The metadata map of a database with one node of 24-bit records.
abbrev metadata_map : List ℕ
metadata_map =
    233 ∷ 74 ∷ 110 ∷ 111 ∷ 100 ∷ 101 ∷ 95 ∷ 99 ∷ 111 ∷ 117 ∷ 110 ∷ 116 ∷ 193 ∷ 1 ∷ 75 ∷ 114 ∷ 101
    ∷ 99 ∷ 111 ∷ 114 ∷ 100 ∷ 95 ∷ 115 ∷ 105 ∷ 122 ∷ 101 ∷ 161 ∷ 24 ∷ 74 ∷ 105 ∷ 112 ∷ 95 ∷ 118 ∷ 101
    ∷ 114 ∷ 115 ∷ 105 ∷ 111 ∷ 110 ∷ 161 ∷ 4 ∷ 77 ∷ 100 ∷ 97 ∷ 116 ∷ 97 ∷ 98 ∷ 97 ∷ 115 ∷ 101 ∷ 95
    ∷ 116 ∷ 121 ∷ 112 ∷ 101 ∷ 65 ∷ 84 ∷ 73 ∷ 108 ∷ 97 ∷ 110 ∷ 103 ∷ 117 ∷ 97 ∷ 103 ∷ 101 ∷ 115 ∷ 1
    ∷ 4 ∷ 66 ∷ 101 ∷ 110 ∷ 91 ∷ 98 ∷ 105 ∷ 110 ∷ 97 ∷ 114 ∷ 121 ∷ 95 ∷ 102 ∷ 111 ∷ 114 ∷ 109 ∷ 97
    ∷ 116 ∷ 95 ∷ 109 ∷ 97 ∷ 106 ∷ 111 ∷ 114 ∷ 95 ∷ 118 ∷ 101 ∷ 114 ∷ 115 ∷ 105 ∷ 111 ∷ 110 ∷ 161 ∷ 2
    ∷ 91 ∷ 98 ∷ 105 ∷ 110 ∷ 97 ∷ 114 ∷ 121 ∷ 95 ∷ 102 ∷ 111 ∷ 114 ∷ 109 ∷ 97 ∷ 116 ∷ 95 ∷ 109 ∷ 105
    ∷ 110 ∷ 111 ∷ 114 ∷ 95 ∷ 118 ∷ 101 ∷ 114 ∷ 115 ∷ 105 ∷ 111 ∷ 110 ∷ 160 ∷ 75 ∷ 98 ∷ 117 ∷ 105
    ∷ 108 ∷ 100 ∷ 95 ∷ 101 ∷ 112 ∷ 111 ∷ 99 ∷ 104 ∷ 1 ∷ 2 ∷ 1 ∷ 75 ∷ 100 ∷ 101 ∷ 115 ∷ 99 ∷ 114
    ∷ 105 ∷ 112 ∷ 116 ∷ 105 ∷ 111 ∷ 110 ∷ 225 ∷ 66 ∷ 101 ∷ 110 ∷ 65 ∷ 100 ∷ []

abbrev pub ipv4_file : List ℕ
ipv4_file = ipv4_db.mapping ++ (metadata_marker ++ metadata_map)

abbrev pub one_file : List ℕ → Mapping
one_file filename = Mapping.mapped ipv4_file

-- A number that was written is read back; no other member is read in this file.
abbrev little_endian : Value → ℕ
little_endian (Value.uint16 v) = v
little_endian (Value.uint32 v) = v
little_endian (Value.uint64 v) = v
little_endian _ = 0

abbrev opened_file : Outcome Opening
opened_file = mmdb_open one_file little_endian always zeroed_entry 9 (102 ∷ []) 0 ipv4_db

abbrev opening_of : Outcome Opening → Opening
opening_of (success s) = s
opening_of _ = record { mmdb = ipv4_db; allocations = 0 }

opens : opened_file ≡ success (opening_of opened_file)
unfolding mmdb_open map_file open_metadata locate_sections find_metadata find_loop
    value_for_key_as_uint16 value_for_key_as_uint32 value_for_key_as_uint64 value_for_key_as_string
    populate_languages_metadata copy_string language_names metadata_members memmem memmem_loop
    starts_with strn strndup read_metadata read_node_count read_record_size read_ip_version
    read_database_type read_major_version read_minor_version read_build_epoch
    populate_description_metadata new_description descriptions make_fake_metadata_db
    get_entry_data_list list_nested list_type array_members map_members new_member follow_pointers
    decode_head aget_value walk_path path_step lookup_path_in_map find_key key_matches text_of
    bytes_at skip_map_or_array skip_nested skip_pairs skip_items decode_one decode_one_follow follow
    decode_control decode_typed decode_payload decode_scalar decode_wide decode_real decode_sized
    number read_size get_ext_type data_byte get_uint_x uint_loop
opens = refl

mmdb_open-IsOpened_example : IsOpened (opening_of opened_file).mmdb
mmdb_open-IsOpened_example =
    mmdb_open-IsOpened little_endian always zeroed_entry 9 one_file (102 ∷ []) 0 ipv4_db
      (opening_of opened_file) opens

opened_fits :
    (opening_of opened_file).mmdb.metadata.node_count
      * (opening_of opened_file).mmdb.full_record_byte_size
    < 2 ^ 32
unfolding mmdb_open map_file open_metadata locate_sections find_metadata find_loop
    value_for_key_as_uint16 value_for_key_as_uint32 value_for_key_as_uint64 value_for_key_as_string
    populate_languages_metadata copy_string language_names metadata_members memmem memmem_loop
    starts_with strn strndup read_metadata read_node_count read_record_size read_ip_version
    read_database_type read_major_version read_minor_version read_build_epoch
    populate_description_metadata new_description descriptions make_fake_metadata_db
    get_entry_data_list list_nested list_type array_members map_members new_member follow_pointers
    decode_head aget_value walk_path path_step lookup_path_in_map find_key key_matches text_of
    bytes_at skip_map_or_array skip_nested skip_pairs skip_items decode_one decode_one_follow follow
    decode_control decode_typed decode_payload decode_scalar decode_wide decode_real decode_sized
    number read_size get_ext_type data_byte get_uint_x uint_loop
opened_fits = omega arith

opened_whole :
    (opening_of opened_file).mmdb.metadata.node_count
      * (opening_of opened_file).mmdb.full_record_byte_size
    ≤ length (opening_of opened_file).mmdb.mapping
unfolding mmdb_open map_file open_metadata locate_sections find_metadata find_loop
    value_for_key_as_uint16 value_for_key_as_uint32 value_for_key_as_uint64 value_for_key_as_string
    populate_languages_metadata copy_string language_names metadata_members memmem memmem_loop
    starts_with strn strndup read_metadata read_node_count read_record_size read_ip_version
    read_database_type read_major_version read_minor_version read_build_epoch
    populate_description_metadata new_description descriptions make_fake_metadata_db
    get_entry_data_list list_nested list_type array_members map_members new_member follow_pointers
    decode_head aget_value walk_path path_step lookup_path_in_map find_key key_matches text_of
    bytes_at skip_map_or_array skip_nested skip_pairs skip_items decode_one decode_one_follow follow
    decode_control decode_typed decode_payload decode_scalar decode_wide decode_real decode_sized
    number read_size get_ext_type data_byte get_uint_x uint_loop
opened_whole = omega arith

mmdb_open-lookup_string-Ends_example :
    Ends (lookup_string one_host (opening_of opened_file).mmdb (49 ∷ []) none)
mmdb_open-lookup_string-Ends_example =
    mmdb_open-lookup_string-Ends little_endian always zeroed_entry 9 one_file (102 ∷ []) 0 ipv4_db
      (opening_of opened_file) one_host (49 ∷ []) none opens opened_fits opened_whole
      one_host-GivesAddress

find_metadata-Located_example :
    (r : ℕ × ℕ) × (find_metadata ipv4_file (length ipv4_file) ≡ some r)
    × Located ipv4_file (length ipv4_file) r
find_metadata-Located_example = find_metadata-Located ipv4_file (length ipv4_file)

memmem-IsFirst_example :
    IsFirst
      (2 ∷ 3 ∷ [])
      (1 ∷ 2 ∷ 3 ∷ 2 ∷ 3 ∷ [])
      10
      (memmem (2 ∷ 3 ∷ []) (1 ∷ 2 ∷ 3 ∷ 2 ∷ 3 ∷ []) 10)
memmem-IsFirst_example = memmem-IsFirst (2 ∷ 3 ∷ []) (1 ∷ 2 ∷ 3 ∷ 2 ∷ 3 ∷ []) 10 (omega arith)

-- The pointer at offset 23 leads to offset 23.
abbrev cycle_db : Mmdb
cycle_db = record ipv4_db { mapping = take 29 ipv4_db.mapping ++ (32 ∷ 7 ∷ []) }

cycle_db-PointsToItself : PointsToItself cycle_db 23
unfolding decode_one decode_control decode_typed decode_pointer get_ptr_from pointer_offset
    data_byte
cycle_db-PointsToItself e = (_, refl, refl, refl)

get_entry_data_list-PointsToItself_example : get_entry_data_list always 1000 cycle_db 23 0 ≡ stuck
get_entry_data_list-PointsToItself_example =
    get_entry_data_list-PointsToItself always 1000 cycle_db 23 0 refl cycle_db-PointsToItself
