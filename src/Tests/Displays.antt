-- ===== src/Tests/Displays.antt =====
-- lookupIp on a database of one text, shown by the theorem on what a property holds.
use node_geoip2c.Base.{
  ℕ, ◌+◌, ◌*◌, ◌≤◌, ◌<◌, ◌≡◌, refl, arith, true, false, some, none, List, [], ◌∷◌, ◌++◌, codes,
}
use node_geoip2c.Types.{Mmdb, data_byte}
use node_geoip2c.Tree.{
  record_info_for_database, left_record, right_record, record_pointer, populate_result, depth_bit,
  address_bit, next_record, search_loop, find_address_in_search_tree,
}
use node_geoip2c.Lookup.{
  resolve_any_address, has_colon, lookup_sockaddr, lookup_string, StringAnswer,
}
use node_geoip2c.Path.{
  aget_value, walk_path, path_step, lookup_path_in_map, find_key, key_matches, text_of, bytes_at,
  skip_map_or_array, skip_nested, skip_pairs, skip_items, path_length, read_path, get_value,
  vget_value,
}
use node_geoip2c.Decode.{
  decode_one, decode_one_follow, follow, decode_control, decode_typed, decode_payload,
  decode_scalar, decode_wide, decode_real, decode_sized, number, read_size, get_ext_type,
}
use node_geoip2c.Bytes.{get_uint_x, uint_loop, get_uint24}
use node_geoip2c.Format.{HasHeader, header, type_bits, type_byte, size_bits, size_bytes}
use node_geoip2c.Format.Datum.{Datum, Pairs, Holds, HoldsPairs}
use node_geoip2c.Format.Datum
use node_geoip2c.Format.Walk.{Selects, Reaches}
use node_geoip2c.Tests.{ipv4_db, separator, all_bytes-get_elem?}
use node_geoip2c.Tests.Bindings.{one_system}
use node_geoip2c.Tests.Runs.{one_platform, all_closed, union_word-IsLittleEndian}
use node_geoip2c.Binding.Js.{
  JsValue, get_from, is_undefined, Properties, get_property, set_property, property, no_properties,
}
use node_geoip2c.Binding.Constants
use node_geoip2c.Binding.Fields.{Field, Member}
use node_geoip2c.Binding.Collect.{string_value, member_value, entry_value, field_value, collect}
use node_geoip2c.Binding.Asked.{options_of}
use node_geoip2c.Binding.Shared.{IsShared}
use node_geoip2c.Binding.Shown.{Becomes}
use node_geoip2c.Binding.Lawful.{IsBounded}
use node_geoip2c.Binding.Lookup.{
  lookup_ip, collect_ip_data, blocks, country_block, city_block, isp_block, netspeed_block,
  anonymous_block, block, checked_lookup, check_answer, add_data,
}
use node_geoip2c.Binding.Libmaxminddb.{libmaxminddb}
use node_geoip2c.Binding.Completion.{Globals, returns, ignoring_status}
use node_geoip2c.Binding.Displayed.{Has, lookup_ip-Becomes}

-- A map {"country": {"iso_code": "NZ"}} at offset 16, for the addresses of the left half.
abbrev nz_db : Mmdb
nz_db = record ipv4_db {
  mapping =
      (0 ∷ 0 ∷ 17 ∷ 0 ∷ 0 ∷ 1 ∷ [])
      ++ (separator
          ++ ((225 ∷ 71 ∷ codes "country")
              ++ ((225 ∷ 72 ∷ codes "iso_code") ++ (66 ∷ codes "NZ"))));
  filename = some (codes "f");
  file_size = 44;
  data_section_size = 38;
}

nz_db-IsBounded : IsBounded nz_db
unfolding data_byte
nz_db-IsBounded = record {
  limit = omega arith;
  bytes = λ i b h. all_bytes-get_elem? nz_db.mapping (6 + i) b refl h;
}

-- A header of one byte.
short_header :
    {m : Mmdb} (type size offset : ℕ)
    → 2 ≤ type
    → type ≤ 7
    → size < 29
    → offset ≤ m.data_section_size
    → data_byte m offset ≡ some (type * 32 + size)
    → HasHeader m type size offset (offset + 1)
unfolding header type_bits type_byte size_bits size_bytes
short_header type size offset typed scalar short inside is = record {
  typed = typed;
  short = omega arith;
  sized = omega arith;
  inside = inside;
  spells = ground arith;
  body_lem = ground arith;
}

code_at : Holds nz_db (Datum.text (codes "NZ")) 35 38
unfolding data_byte
code_at =
    Holds.text {body = 36}
      (short_header 2 2 35 (omega arith) (omega arith) (omega arith) (omega arith) refl)
      (refl, (refl, tt))

abbrev names : Pairs
names = Pairs.pair (codes "iso_code") (Datum.text (codes "NZ")) Pairs.end

iso_code_at : Holds nz_db (Datum.text (codes "iso_code")) 26 35
unfolding data_byte
iso_code_at =
    Holds.text {body = 27}
      (short_header 2 8 26 (omega arith) (omega arith) (omega arith) (omega arith) refl)
      (refl, (refl, (refl, (refl, (refl, (refl, (refl, (refl, tt))))))))

names_at : Holds nz_db (Datum.map names) 25 38
unfolding data_byte
names_at =
    Holds.map {body = 26}
      (short_header 7 1 25 (omega arith) (omega arith) (omega arith) (omega arith) refl)
      (HoldsPairs.pair (Datum.Field.direct iso_code_at) (Datum.Field.direct code_at) HoldsPairs.end)

country_at : Holds nz_db (Datum.text (codes "country")) 17 25
unfolding data_byte
country_at =
    Holds.text {body = 18}
      (short_header 2 7 17 (omega arith) (omega arith) (omega arith) (omega arith) refl)
      (refl, (refl, (refl, (refl, (refl, (refl, (refl, tt)))))))

abbrev countries : Pairs
countries = Pairs.pair (codes "country") (Datum.map names) Pairs.end

countries_at : Holds nz_db (Datum.map countries) 16 38
unfolding data_byte
countries_at =
    Holds.map {body = 17}
      (short_header 7 1 16 (omega arith) (omega arith) (omega arith) (omega arith) refl)
      (HoldsPairs.pair (Datum.Field.direct country_at) (Datum.Field.direct names_at) HoldsPairs.end)

abbrev code_args : List JsValue
code_args =
    JsValue.string (codes "1.2.3.4")
    ∷ JsValue.object (property Constants.lookup_key_country (JsValue.number 1) no_properties)
    ∷ []

asks_code : is_undefined (get_from (options_of code_args) Constants.lookup_key_country) ≡ false
unfolding get_property
asks_code = refl

abbrev code_field : Field
code_field = record {
  mask = Constants.t_country_code;
  path = codes "country" ∷ codes "iso_code" ∷ [];
  label = Constants.label_country_code;
  member = Member.utf8_string;
}

path_to_code : Reaches (Datum.map countries) code_field.path (some (Datum.text (codes "NZ")))
path_to_code =
    Reaches.step {d' = Datum.map names} Selects.key
      (Reaches.step {d' = Datum.text (codes "NZ")} Selects.key Reaches.here)

abbrev nz_open : Globals
nz_open = record all_closed { mmdb_city = nz_db }

abbrev nz_shown : Properties
nz_shown =
    property Constants.lookup_key_country
      (JsValue.object
        (property Constants.label_country_code (JsValue.string (codes "NZ")) no_properties))
      no_properties

looks_up :
    lookup_ip one_platform (libmaxminddb one_system) code_args nz_open
    ≡ returns (nz_open, JsValue.object nz_shown)
unfolding lookup_ip collect_ip_data blocks country_block city_block isp_block netspeed_block
    anonymous_block block checked_lookup check_answer add_data string_value member_value entry_value
    field_value collect set_property get_property resolve_any_address has_colon lookup_sockaddr
    lookup_string record_info_for_database left_record right_record record_pointer populate_result
    depth_bit address_bit next_record search_loop find_address_in_search_tree aget_value walk_path
    path_step lookup_path_in_map find_key key_matches text_of bytes_at skip_map_or_array skip_nested
    skip_pairs skip_items path_length read_path get_value vget_value decode_one decode_one_follow
    follow decode_control decode_typed decode_payload decode_scalar decode_wide decode_real
    decode_sized number read_size get_ext_type data_byte get_uint_x uint_loop get_uint24
looks_up = refl

abbrev answer : StringAnswer
answer = record {
  gai_error = 0;
  found = record {
    mmdb = nz_db;
    result = record { found_entry = true; offset = 16; netmask = 1 };
    mmdb_error = none;
  };
}

answers :
    ignoring_status (lookup_string one_system.getaddrinfo nz_db (codes "1.2.3.4") none)
    ≡ returns answer
unfolding resolve_any_address has_colon lookup_sockaddr lookup_string record_info_for_database
    left_record right_record record_pointer populate_result depth_bit address_bit next_record
    search_loop find_address_in_search_tree get_uint24
answers = refl

lookup_ip-Becomes_example :
    (filled : Properties) × (get_property Constants.lookup_key_country nz_shown
      ≡ JsValue.object filled)
    × (get_property Constants.label_country_code filled ≡ JsValue.string (codes "NZ"))
unfolding get_property
lookup_ip-Becomes_example =
    lookup_ip-Becomes one_platform union_word-IsLittleEndian one_system (λ n. refl) code_args
      nz_open nz_open nz_shown answer (Datum.map countries) 38 code_field
      (some (Datum.text (codes "NZ"))) (JsValue.string (codes "NZ")) IsShared.country refl asks_code
      looks_up answers refl nz_db-IsBounded (Datum.Field.direct countries_at) Has.here path_to_code
      Becomes.text
