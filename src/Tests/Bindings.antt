-- ===== src/Tests/Bindings.antt =====
-- The binding on small databases.
use node_geoip2c.Base.{ℕ, ◌+◌, ◌≡◌, refl, arith, true, some, List, codes, subst, ap}
use node_geoip2c.Types.{Outcome, success, Value, Mmdb, zeroed_entry, data_byte}
use node_geoip2c.Decode.Bounds.{ReadsBytes}
use node_geoip2c.Open.{mmdb_open, map_file, open_metadata, locate_sections}
use node_geoip2c.Close.{open_database}
use node_geoip2c.Metadata.{
  find_metadata, find_loop, value_for_key_as_uint16, value_for_key_as_uint32,
  value_for_key_as_uint64, value_for_key_as_string, populate_languages_metadata, copy_string,
  language_names, metadata_members,
}
use node_geoip2c.Compat.{memmem, memmem_loop, starts_with, strn, strndup}
use node_geoip2c.Metadata.Read.{
  read_metadata, read_node_count, read_record_size, read_ip_version, read_database_type,
  read_major_version, read_minor_version, read_build_epoch, populate_description_metadata,
  new_description, descriptions,
}
use node_geoip2c.EntryList.{
  make_fake_metadata_db, get_entry_data_list, list_nested, list_type, array_members, map_members,
  new_member, follow_pointers, decode_head,
}
use node_geoip2c.Path.{
  aget_value, walk_path, path_step, lookup_path_in_map, find_key, key_matches, text_of, bytes_at,
  skip_map_or_array, skip_nested, skip_pairs, skip_items,
}
use node_geoip2c.Decode.{
  decode_one, decode_one_follow, follow, decode_control, decode_typed, decode_payload,
  decode_scalar, decode_wide, decode_real, decode_sized, number, read_size, get_ext_type,
}
use node_geoip2c.Bytes.{get_uint_x, uint_loop}
use node_geoip2c.Tests.{ipv4_db, one_host, always, all_bytes-get_elem?}
use node_geoip2c.Tests.Openings.{one_file, ipv4_file}
use node_geoip2c.Binding.Lawful.{OpensBounded, IsBounded}
use node_geoip2c.Binding.Libmaxminddb.{System}

-- A union whose bytes hold the member that was written, lowest byte first.
abbrev pub union_word : Value → ℕ
union_word (Value.uint16 v) = v
union_word (Value.uint32 v) = v
union_word (Value.uint64 v) = v
union_word (Value.double_value v) = v
union_word (Value.boolean true) = 1
union_word _ = 0

abbrev pub one_system : System
one_system = record {
  os = one_file;
  granted = always;
  malloc = always;
  getaddrinfo = one_host;
  word = union_word;
  uninitialised = zeroed_entry;
  fuel = 9;
}

abbrev pub opened_from : List ℕ → Mmdb → Outcome Mmdb
opened_from filename m = open_database one_file union_word always zeroed_entry 9 filename 1 m

abbrev pub mmdb_of : Outcome Mmdb → Mmdb
mmdb_of (success m) = m
mmdb_of _ = ipv4_db

opened_from_lem :
    (filename : List ℕ) (m : Mmdb)
    → ((mmdb_of (opened_from filename m)).mapping ≡ ipv4_file)
      × ((mmdb_of (opened_from filename m)).data_section ≡ some 6)
      × ((mmdb_of (opened_from filename m)).data_section_size ≡ 203)
unfolding open_database mmdb_open map_file open_metadata locate_sections find_metadata find_loop
    value_for_key_as_uint16 value_for_key_as_uint32 value_for_key_as_uint64 value_for_key_as_string
    populate_languages_metadata copy_string language_names metadata_members memmem memmem_loop
    starts_with strn strndup read_metadata read_node_count read_record_size read_ip_version
    read_database_type read_major_version read_minor_version read_build_epoch
    populate_description_metadata new_description descriptions make_fake_metadata_db
    get_entry_data_list list_nested list_type array_members map_members new_member follow_pointers
    decode_head aget_value walk_path path_step lookup_path_in_map find_key key_matches text_of
    bytes_at skip_map_or_array skip_nested skip_pairs skip_items decode_one decode_one_follow follow
    decode_control decode_typed decode_payload decode_scalar decode_wide decode_real decode_sized
    number read_size get_ext_type data_byte get_uint_x uint_loop
opened_from_lem filename m = (refl, refl, refl)

one_system-ReadsBytes :
    (m : Mmdb) → m.mapping ≡ ipv4_file → m.data_section ≡ some 6 → ReadsBytes (data_byte m)
unfolding data_byte
one_system-ReadsBytes m file base i b h =
    all_bytes-get_elem? ipv4_file (6 + i) b refl (rw (base, file) at h)

pub one_system-OpensBounded : OpensBounded one_system
one_system-OpensBounded = record {
  opened = λ filename m m' h.
      let (file, base, size) = opened_from_lem filename m in
      subst IsBounded (ap mmdb_of h) (record {
        limit = omega (arith, size);
        bytes = one_system-ReadsBytes (mmdb_of (opened_from filename m)) file base;
      });
}

pub opened_from-success :
    opened_from (codes "f") ipv4_db ≡ success (mmdb_of (opened_from (codes "f") ipv4_db))
unfolding open_database mmdb_open map_file open_metadata locate_sections find_metadata find_loop
    value_for_key_as_uint16 value_for_key_as_uint32 value_for_key_as_uint64 value_for_key_as_string
    populate_languages_metadata copy_string language_names metadata_members memmem memmem_loop
    starts_with strn strndup read_metadata read_node_count read_record_size read_ip_version
    read_database_type read_major_version read_minor_version read_build_epoch
    populate_description_metadata new_description descriptions make_fake_metadata_db
    get_entry_data_list list_nested list_type array_members map_members new_member follow_pointers
    decode_head aget_value walk_path path_step lookup_path_in_map find_key key_matches text_of
    bytes_at skip_map_or_array skip_nested skip_pairs skip_items decode_one decode_one_follow follow
    decode_control decode_typed decode_payload decode_scalar decode_wide decode_real decode_sized
    number read_size get_ext_type data_byte get_uint_x uint_loop
opened_from-success = refl
