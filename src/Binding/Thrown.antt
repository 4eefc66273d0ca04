-- ===== src/Binding/Thrown.antt =====
-- Which exceptions lookupIp throws.
use node_geoip2c.Base.{
  ℕ, ◌≡◌, refl, subst, ◌&&◌, ◌||◌, not, Bool, true, false, List, if◌then◌else◌, Bool-cases, inl,
  inr,
}
use node_geoip2c.Binding.Js.{JsValue, get_from, is_undefined, is_string}
use node_geoip2c.Binding.Constants
use node_geoip2c.Binding.Fields.{
  Field, country_fields, city_fields, isp_fields, netspeed_fields, anonymous_fields,
}
use node_geoip2c.Binding.Asked.{options_of}
use node_geoip2c.Binding.Lookup.{
  argument, lookup_ip, first_frame, collect_ip_data, blocks, country_block, city_block, isp_block,
  netspeed_block, anonymous_block, block, Frame, checked_lookup, add_data,
}
use node_geoip2c.Binding.Completion.{
  Globals, Slot, get_slot, is_open, Library, Platform, returns, throws,
}
use node_geoip2c.Binding.Explained.{
  OnlyThrows, OnlyThrows->>=, OnlyThrows-if, Explains, Explained, add_data-Explained,
  checked_lookup-Explained,
}

first_true : (a b : Bool) → (a && b) ≡ true → a ≡ true
first_true true b h = refl
first_true false b h = cc

module _ (env : Platform) (lib : Library) (args : List JsValue)
    (text : is_string (argument args 0) ≡ true) where
  block-Explained :
      (slot : Slot) (key : List ℕ) (fields : List Field) (options : JsValue) (f : Frame)
      → Explained env lib args text
          (block env lib slot key fields (env.to_utf8 (argument args 0)) options f)
  unfolding block
  block-Explained slot key fields options f =
      OnlyThrows-if _
        (is_open (get_slot slot f.globals) && not (is_undefined (get_from options key))) _ _
        (λ wanted.
          OnlyThrows->>= _ (checked_lookup env lib slot (env.to_utf8 (argument args 0)) f) _
            (checked_lookup-Explained env lib args text slot f (first_true _ _ wanted))
            (λ found looked.
              OnlyThrows-if _ found.mmdb_result.found_entry _ _
                (λ entry.
                  add_data-Explained env lib args text slot key fields (get_from options key) found)
                (λ none_found. _)))
        (λ skipped. _)

  shared_block-Explained :
      (key : List ℕ) (fields : List Field) (options : JsValue) (f : Frame)
      → Explained env lib args text (
          if is_open f.globals.mmdb_city && not (is_undefined (get_from options key))
          then add_data env lib Slot.city key fields (get_from options key) f
          else returns f)
  shared_block-Explained key fields options f =
      OnlyThrows-if _ (is_open f.globals.mmdb_city && not (is_undefined (get_from options key))) _ _
        (λ wanted.
          add_data-Explained env lib args text Slot.city key fields (get_from options key) f)
        (λ skipped. _)

  blocks-Explained :
      (options : JsValue) (f : Frame)
      → Explained env lib args text (blocks env lib (env.to_utf8 (argument args 0)) options f)
  unfolding blocks country_block city_block isp_block netspeed_block anonymous_block
  blocks-Explained options f =
      let ip = env.to_utf8 (argument args 0) in
      OnlyThrows->>= _ _ (anonymous_block env lib ip options)
        (OnlyThrows->>= _ _ (netspeed_block env lib ip options)
          (OnlyThrows->>= _ _ (isp_block env lib ip options)
            (OnlyThrows->>= _ _ (city_block env lib options)
              (shared_block-Explained Constants.lookup_key_country country_fields options f)
              (λ f1 h1. shared_block-Explained Constants.lookup_key_city city_fields options f1))
            (λ f2 h2. block-Explained Slot.isp Constants.lookup_key_isp isp_fields options f2))
          (λ f3 h3.
            block-Explained Slot.netspeed Constants.lookup_key_netspeed netspeed_fields options f3))
        (λ f4 h4.
          block-Explained Slot.anonymous Constants.lookup_key_anonymous anonymous_fields options f4)

  collect_ip_data-Explained :
      (options : JsValue) (f : Frame)
      → Explained env lib args text
          (collect_ip_data env lib (env.to_utf8 (argument args 0)) options f)
  unfolding collect_ip_data
  collect_ip_data-Explained options f =
      let val_a = get_from options Constants.lookup_key_country in
      let val_b = get_from options Constants.lookup_key_city in
      OnlyThrows-if _
        (is_open f.globals.mmdb_city && (not (is_undefined val_a) || not (is_undefined val_b))) _ _
        (λ shared.
          OnlyThrows->>= _ (checked_lookup env lib Slot.city (env.to_utf8 (argument args 0)) f) _
            (checked_lookup-Explained env lib args text Slot.city f (first_true _ _ shared))
            (λ found looked.
              OnlyThrows-if _ found.mmdb_result.found_entry _ _
                (λ entry. blocks-Explained options found) (λ none_found. _)))
        (λ direct. blocks-Explained options f)

module _ (env : Platform) (lib : Library) where
  lookup_ip-Explained :
      (args : List JsValue) (g : Globals)
      → OnlyThrows (Explains env lib args) (lookup_ip env lib args g)
  unfolding lookup_ip
  lookup_ip-Explained args g = elim (Bool-cases (is_string (argument args 0))) [
    | inr missing ↦ rw missing (Explains.no_address missing)
    | inl text ↦ rw text (
        OnlyThrows->>= _
          (collect_ip_data env lib (env.to_utf8 (argument args 0)) (options_of args)
            (first_frame env lib g))
          _ (collect_ip_data-Explained env lib args text (options_of args) (first_frame env lib g))
          (λ f got. _))
  ]

  -- Every exception of lookupIp has one of four reasons, which gives its message: the first argument
  -- is not a string; a loaded database was asked for the address and getaddrinfo failed, or the
  -- lookup gave an error status; or MMDB_get_value gave, for a field that is shown as a text, an
  -- entry with data of another type.
  pub lookup_ip-Explains :
      (args : List JsValue) (g g' : Globals) (message : List ℕ)
      → lookup_ip env lib args g ≡ throws message g'
      → Explains env lib args message
  lookup_ip-Explains args g g' message h =
      subst (OnlyThrows (Explains env lib args)) h (lookup_ip-Explained args g)
