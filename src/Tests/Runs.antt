-- ===== src/Tests/Runs.antt =====
-- Calls of the binding, run on small databases, and the theorems on them.
use node_geoip2c.Base.{ℕ, ◌≡◌, refl, true, false, none, some, List, [], ◌∷◌, codes, u32}
use node_geoip2c.Types.{Value, zeroed_entry, data_byte}
use node_geoip2c.Tree.{
  record_info_for_database, left_record, right_record, record_pointer, populate_result, depth_bit,
  address_bit, next_record, search_loop, find_address_in_search_tree,
}
use node_geoip2c.Lookup.{
  resolve_any_address, has_colon, lookup_sockaddr, lookup_string, StringAnswer,
}
use node_geoip2c.Path.{
  aget_value, walk_path, path_step, lookup_path_in_map, find_key, key_matches, text_of, bytes_at,
  skip_map_or_array, skip_nested, skip_pairs, skip_items, path_length, read_path, get_value,
  vget_value,
}
use node_geoip2c.Decode.{
  decode_one, decode_one_follow, follow, decode_control, decode_typed, decode_payload,
  decode_scalar, decode_wide, decode_real, decode_sized, number, read_size, get_ext_type,
}
use node_geoip2c.Bytes.{get_uint_x, uint_loop, get_uint24}
use node_geoip2c.Format.Datum.{Datum}
use node_geoip2c.Tests.{ipv4_db, one_host, junk}
use node_geoip2c.Tests.Bindings.{one_system, union_word}
use node_geoip2c.Tests.Sections.{
  five, pairs, pointed_map, path_to_five, ipv4_db_limit, ipv4_db_bytes,
}
use node_geoip2c.Base.{if◌then◌else◌}
use node_geoip2c.Binding.Asked.{OnlyAsked, options_of, lookup_ip-OnlyAsked}
use node_geoip2c.Binding.Shared.{IsShared}
use node_geoip2c.Binding.Answered.{Answered, lookup_ip-Answered}
use node_geoip2c.Binding.Shown.{IsLittleEndian, Becomes, field_value-Becomes}
use node_geoip2c.Binding.Collected.{Collects, selected, collect-Collects}
use node_geoip2c.Binding.Lawful.{libmaxminddb-KeepsOpen}
use node_geoip2c.Binding.Completion.{ignoring_status}
use node_geoip2c.Binding.Js.{
  JsValue, Properties, get_from, is_undefined, property, no_properties, set_property, get_property,
}
use node_geoip2c.Binding.Constants
use node_geoip2c.Binding.Fields.{Field, Member, country_fields}
use node_geoip2c.Binding.Collect.{string_value, member_value, entry_value, field_value, collect}
use node_geoip2c.Binding.Lookup.{
  lookup_ip, collect_ip_data, blocks, country_block, city_block, isp_block, netspeed_block,
  anonymous_block, block, checked_lookup, check_answer, add_data,
}
use node_geoip2c.Binding.Libmaxminddb.{libmaxminddb}
use node_geoip2c.Binding.Completion.{Globals, Platform, returns}

abbrev number_value : JsValue → ℕ
number_value (JsValue.number n) = u32 n
number_value _ = 0

abbrev text_value : JsValue → List ℕ
text_value (JsValue.string s) = s
text_value _ = []

abbrev pub one_platform : Platform
one_platform = record {
  uint32_value = number_value;
  to_utf8 = text_value;
  gai_strerror = λ code. none;
  word = union_word;
  stale = zeroed_entry;
  stale_result = junk;
  stale_error = none;
}

abbrev pub all_closed : Globals
all_closed = record {
  mmdb_country = ipv4_db;
  mmdb_city = ipv4_db;
  mmdb_isp = ipv4_db;
  mmdb_netspeed = ipv4_db;
  mmdb_anonymous = ipv4_db;
}

abbrev pub city_open : Globals
city_open = record all_closed { mmdb_city = record ipv4_db { filename = some (codes "f") } }

-- The country's code and name.
abbrev pub country_args : List JsValue
country_args =
    JsValue.string (codes "1.2.3.4")
    ∷ JsValue.object (property Constants.lookup_key_country (JsValue.number 5) no_properties)
    ∷ []

abbrev country_data : Properties
country_data =
    property Constants.label_country_code (JsValue.string (codes "NA"))
      (property Constants.label_country_name (JsValue.string (codes "NA")) no_properties)

looks_up :
    lookup_ip one_platform (libmaxminddb one_system) country_args city_open
    ≡ returns (
      city_open,
      JsValue.object
          (property Constants.lookup_key_country (JsValue.object country_data) no_properties),
    )
unfolding lookup_ip collect_ip_data blocks country_block city_block isp_block netspeed_block
    anonymous_block block checked_lookup check_answer add_data string_value member_value entry_value
    field_value collect set_property get_property resolve_any_address has_colon lookup_sockaddr
    lookup_string record_info_for_database left_record right_record record_pointer populate_result
    depth_bit address_bit next_record search_loop find_address_in_search_tree aget_value walk_path
    path_step lookup_path_in_map find_key key_matches text_of bytes_at skip_map_or_array skip_nested
    skip_pairs skip_items path_length read_path get_value vget_value decode_one decode_one_follow
    follow decode_control decode_typed decode_payload decode_scalar decode_wide decode_real
    decode_sized number read_size get_ext_type data_byte get_uint_x uint_loop get_uint24
looks_up = refl

lookup_ip-OnlyAsked_example :
    OnlyAsked
      (options_of country_args)
      (property Constants.lookup_key_country (JsValue.object country_data) no_properties)
lookup_ip-OnlyAsked_example =
    lookup_ip-OnlyAsked one_platform (libmaxminddb one_system) country_args city_open city_open
      (property Constants.lookup_key_country (JsValue.object country_data) no_properties) looks_up

asks_country :
    is_undefined (get_from (options_of country_args) Constants.lookup_key_country) ≡ false
unfolding get_property
asks_country = refl

lookup_ip-Answered_example :
    (a : StringAnswer) × (ignoring_status
        (lookup_string one_host city_open.mmdb_city (codes "1.2.3.4") none)
      ≡ returns a)
    × Answered one_platform
        (libmaxminddb one_system)
        (libmaxminddb-KeepsOpen one_system)
        (options_of country_args)
        Constants.lookup_key_country
        country_fields
        city_open
        a
        (property Constants.lookup_key_country (JsValue.object country_data) no_properties)
lookup_ip-Answered_example =
    lookup_ip-Answered one_platform (libmaxminddb one_system) (libmaxminddb-KeepsOpen one_system)
      country_args city_open city_open
      (property Constants.lookup_key_country (JsValue.object country_data) no_properties)
      IsShared.country refl asks_country looks_up

-- The first item of the array that the section's map has under "a".
abbrev five_field : Field
five_field = record {
  mask = 1;
  path = (97 ∷ []) ∷ (48 ∷ []) ∷ [];
  label = codes "five";
  member = Member.uint16;
}

pub union_word-IsLittleEndian : IsLittleEndian union_word
union_word-IsLittleEndian = record {
  uint16 = λ v. refl;
  uint32 = λ v. refl;
  double_value = λ v. refl;
  boolean = λ b. elim b as (λ b'. union_word (Value.boolean b') ≡ (if b' then 1 else 0)) [
    | true ↦ refl
    | false ↦ refl
  ];
}

field_value-Becomes_example :
    field_value one_platform (libmaxminddb one_system) all_closed ipv4_db 23 five_field
    ≡ returns (JsValue.number 5)
field_value-Becomes_example =
    field_value-Becomes one_platform union_word-IsLittleEndian all_closed ipv4_db one_system
      five_field (Datum.map pairs) 23 25 (some five) (returns (JsValue.number 5)) ipv4_db_limit
      ipv4_db_bytes refl pointed_map path_to_five Becomes.uint16

collects :
    collect one_platform
      (libmaxminddb one_system)
      city_open
      ipv4_db
      16
      5
      country_fields
      no_properties
    ≡ returns country_data
unfolding string_value member_value entry_value field_value collect set_property aget_value
    walk_path path_step lookup_path_in_map find_key key_matches text_of bytes_at skip_map_or_array
    skip_nested skip_pairs skip_items path_length read_path get_value vget_value decode_one
    decode_one_follow follow decode_control decode_typed decode_payload decode_scalar decode_wide
    decode_real decode_sized number read_size get_ext_type data_byte get_uint_x uint_loop
collects = refl

collect-Collects_example :
    Collects one_platform
      (libmaxminddb one_system)
      city_open
      ipv4_db
      16
      (selected 5 country_fields)
      country_data
collect-Collects_example =
    collect-Collects one_platform (libmaxminddb one_system) city_open ipv4_db 16 5 country_fields
      country_data refl collects
