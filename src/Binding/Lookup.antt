-- ===== src/Binding/Lookup.antt =====
-- lookupIp and defaultLoockupOptions of src/binding.cpp.
use node_geoip2c.Base.{
  ℕ, ◌&&◌, ◌||◌, not, Option, none, some, List, ◌++◌, ◌==◌, if◌then◌else◌, get_elem?, codes,
}
use node_geoip2c.Types.{Error, LookupResult}
use node_geoip2c.Lookup.{StringAnswer}
use node_geoip2c.Strerror.{strerror}
use node_geoip2c.Binding.Js.{JsValue, Properties, set_property, get_from, is_undefined, is_string}
use node_geoip2c.Binding.Constants
use node_geoip2c.Binding.Fields.{
  Field, country_fields, city_fields, isp_fields, netspeed_fields, anonymous_fields,
}
use node_geoip2c.Binding.Collect.{collect}
use node_geoip2c.Binding.Completion.{
  Globals, Slot, get_slot, put_slot, is_open, Library, Platform, Completion, returns, throws, ◌>>=◌,
  ignoring_status, non_null,
}

-- `args[i]`
abbrev pub argument : List JsValue → ℕ → JsValue
argument args i = elim (get_elem? args i) [ none ↦ JsValue.undefined | some value ↦ value ]

unfoldable pub default_lookup_options : JsValue
default_lookup_options = JsValue.object (
    set_property Constants.lookup_key_anonymous (JsValue.number Constants.t_anym_all) (
      set_property Constants.lookup_key_netspeed (JsValue.number Constants.t_netspeed_all) (
        set_property Constants.lookup_key_isp (JsValue.number Constants.t_isp_all) (
          set_property Constants.lookup_key_city (JsValue.number Constants.t_city_all) (
            set_property Constants.lookup_key_country (JsValue.number Constants.t_country_all)
              Properties.no_properties)))))

-- The databases and the local variables that are shared by the blocks of lookupIp; `mmdb_error` is
-- `none` for MMDB_SUCCESS.
pub record Frame : Type 0 where
  pub globals : Globals
  pub mmdb_result : LookupResult
  pub mmdb_error : Option Error
  pub ip_data : Properties

abbrev pub gai_message : List ℕ → Option (List ℕ) → List ℕ
gai_message ip message = codes "Error from getaddrinfo for " ++ (ip ++ non_null message)

abbrev pub lookup_message : Error → List ℕ
lookup_message e = codes "Error looking up ip: " ++ non_null (some (strerror (some e)))

module _ (env : Platform) (lib : Library) where
  -- The checks behind each MMDB_lookup_string.
  unfoldable pub check_answer : Slot → List ℕ → Frame → StringAnswer → Completion Frame
  check_answer slot ip f a =
      let g = put_slot slot a.found.mmdb f.globals in
      if not (a.gai_error == 0)
      then throws (gai_message ip (env.gai_strerror a.gai_error)) g
      else (elim a.found.mmdb_error [
        | some e ↦ throws (lookup_message e) g
        | none ↦ returns (record f { globals = g; mmdb_result = a.found.result; mmdb_error = none })
      ])

  unfoldable pub checked_lookup : Slot → List ℕ → Frame → Completion Frame
  checked_lookup slot ip f = do
    a ← ignoring_status (lib.lookup_string (get_slot slot f.globals) ip f.mmdb_error)
    check_answer slot ip f a

  -- The object of a kind of database, set in the result under `key`.
  unfoldable pub add_data : Slot → List ℕ → List Field → JsValue → Frame → Completion Frame
  add_data slot key fields val f = do
    filled ←
        collect env lib f.globals (get_slot slot f.globals) f.mmdb_result.offset
          (env.uint32_value val) fields Properties.no_properties
    returns (record f { ip_data = set_property key (JsValue.object filled) f.ip_data })

  -- The blocks for the country and the city, which share one lookup.
  unfoldable pub country_block : JsValue → Frame → Completion Frame
  country_block options f =
      let val = get_from options Constants.lookup_key_country in
      if is_open f.globals.mmdb_city && not (is_undefined val)
      then add_data Slot.city Constants.lookup_key_country country_fields val f
      else returns f

  unfoldable pub city_block : JsValue → Frame → Completion Frame
  city_block options f =
      let val = get_from options Constants.lookup_key_city in
      if is_open f.globals.mmdb_city && not (is_undefined val)
      then add_data Slot.city Constants.lookup_key_city city_fields val f
      else returns f

  -- What the other blocks do: a lookup of their own, and an object if there is an entry.
  unfoldable pub block : Slot → List ℕ → List Field → List ℕ → JsValue → Frame → Completion Frame
  block slot key fields ip options f =
      let val = get_from options key in
      if is_open (get_slot slot f.globals) && not (is_undefined val)
      then (checked_lookup slot ip f >>= λ found.
          if found.mmdb_result.found_entry
          then add_data slot key fields val found
          else returns found)
      else returns f

  unfoldable pub isp_block : List ℕ → JsValue → Frame → Completion Frame
  isp_block = block Slot.isp Constants.lookup_key_isp isp_fields

  unfoldable pub netspeed_block : List ℕ → JsValue → Frame → Completion Frame
  netspeed_block = block Slot.netspeed Constants.lookup_key_netspeed netspeed_fields

  unfoldable pub anonymous_block : List ℕ → JsValue → Frame → Completion Frame
  anonymous_block = block Slot.anonymous Constants.lookup_key_anonymous anonymous_fields

  -- From the block for the country on.
  unfoldable pub blocks : List ℕ → JsValue → Frame → Completion Frame
  blocks ip options f =
      country_block options f
      >>= city_block options
      >>= isp_block ip options
      >>= netspeed_block ip options
      >>= anonymous_block ip options

  -- The lookup for the city or the country; where there is no entry, nothing else is looked up.
  unfoldable pub collect_ip_data : List ℕ → JsValue → Frame → Completion Frame
  collect_ip_data ip options f =
      let val_a = get_from options Constants.lookup_key_country in
      let val_b = get_from options Constants.lookup_key_city in
      if is_open f.globals.mmdb_city && (not (is_undefined val_a) || not (is_undefined val_b))
      then (checked_lookup Slot.city ip f >>= λ found.
          if found.mmdb_result.found_entry then blocks ip options found else returns found)
      else blocks ip options f

  abbrev pub first_frame : Globals → Frame
  first_frame g = record {
    globals = g;
    mmdb_result = env.stale_result;
    mmdb_error = env.stale_error;
    ip_data = Properties.no_properties;
  }

  unfoldable pub lookup_ip : List JsValue → Globals → Completion (Globals × JsValue)
  lookup_ip args g =
      if not (is_string (argument args 0))
      then throws (codes "No ip address specified") g
      else (collect_ip_data (env.to_utf8 (argument args 0))
            (if is_undefined (argument args 1) then default_lookup_options else argument args 1)
            (first_frame g)
          >>= λ f. returns (f.globals, JsValue.object f.ip_data))
