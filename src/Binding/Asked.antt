-- ===== src/Binding/Asked.antt =====
-- Which properties the result of lookupIp has.
use node_geoip2c.Base.{
  ℕ, ◌≡◌, refl, sym, subst, ◌&&◌, ◌||◌, not, Bool, true, false, List, if◌then◌else◌, Bool-cases,
  inl, inr, arith,
}
use node_geoip2c.Binding.Js.{
  JsValue, Properties, no_properties, get_from, keys, is_undefined, is_string,
}
use node_geoip2c.Binding.Constants
use node_geoip2c.Binding.Fields.{
  Field, country_fields, city_fields, isp_fields, netspeed_fields, anonymous_fields,
}
use node_geoip2c.Binding.Collect.{collect}
use node_geoip2c.Binding.Collected.{has_key, >>=-eq-returns}
use node_geoip2c.Binding.Objects.{has_key-set_property}
use node_geoip2c.Binding.Lookup.{
  argument, default_lookup_options, lookup_ip, first_frame, collect_ip_data, blocks, country_block,
  city_block, isp_block, netspeed_block, anonymous_block, block, Frame, checked_lookup,
  check_answer, add_data,
}
use node_geoip2c.Binding.Completion.{
  Globals, Slot, get_slot, is_open, Library, Platform, Completion, returns, ignoring_status,
}

-- Every property of the result stands in the options, with a value.
abbrev pub OnlyAsked : JsValue → Properties → Type 0
OnlyAsked options o =
    (key : List ℕ) → has_key key (keys o) ≡ true → is_undefined (get_from options key) ≡ false

-- The options of a call, which are all of them where none are given.
abbrev pub options_of : List JsValue → JsValue
options_of args = if is_undefined (argument args 1) then default_lookup_options else argument args 1

and_not : (a b : Bool) → (a && not b) ≡ true → b ≡ false
and_not true true h = cc
and_not true false h = refl
and_not false b h = cc

pub same_frame : {a b : Frame} → returns a ≡ returns b → a ≡ b
same_frame h = cc

pub object_of :
    {a b : Globals} {o o' : Properties}
    → ◌≡◌ {A = Completion (Globals × JsValue)}
        (returns (a, JsValue.object o))
        (returns (b, JsValue.object o'))
    → o ≡ o'
object_of h = cc

module _ (env : Platform) (lib : Library) where
  -- A lookup leaves the result as it was.
  pub checked_lookup-ip_data :
      (slot : Slot) (ip : List ℕ) (f f' : Frame)
      → checked_lookup env lib slot ip f ≡ returns f'
      → f'.ip_data ≡ f.ip_data
  unfolding checked_lookup check_answer
  checked_lookup-ip_data slot ip f f' h =
      let looked = lib.lookup_string (get_slot slot f.globals) ip f.mmdb_error in
      let (a, _, r) = >>=-eq-returns (ignoring_status looked) _ h in ground (arith)

  module _ (options : JsValue) where
    add_data-OnlyAsked :
        (slot : Slot) (key : List ℕ) (fields : List Field) (val : JsValue) (f f' : Frame)
        → is_undefined (get_from options key) ≡ false
        → OnlyAsked options f.ip_data
        → add_data env lib slot key fields val f ≡ returns f'
        → OnlyAsked options f'.ip_data
    unfolding add_data
    add_data-OnlyAsked slot key fields val f f' asked only h =
        let (filled, _, r) =
          >>=-eq-returns
            (collect env lib f.globals (get_slot slot f.globals) f.mmdb_result.offset
              (env.uint32_value val) fields no_properties)
            _ h in
        subst (λ (x : Frame). OnlyAsked options x.ip_data) (same_frame r)
          (λ k has. elim (has_key-set_property k key (JsValue.object filled) f.ip_data has) [
            | inl same ↦ subst (λ x. is_undefined (get_from options x) ≡ false) same asked
            | inr had ↦ only k had
          ])

    block-OnlyAsked :
        (slot : Slot) (key : List ℕ) (fields : List Field) (ip : List ℕ) (f f' : Frame)
        → OnlyAsked options f.ip_data
        → block env lib slot key fields ip options f ≡ returns f'
        → OnlyAsked options f'.ip_data
    unfolding block
    block-OnlyAsked slot key fields ip f f' only h =
        elim (Bool-cases
          (is_open (get_slot slot f.globals) && not (is_undefined (get_from options key)))) [
            | inr skipped ↦
                subst (λ (x : Frame). OnlyAsked options x.ip_data) (same_frame (rw skipped at h))
                  only
            | inl wanted ↦
                let (found, looked, r) =
                  >>=-eq-returns (checked_lookup env lib slot ip f) _ (rw wanted at h) in
                let before =
                  subst (OnlyAsked options) (sym (checked_lookup-ip_data slot ip f found looked))
                    only in
                elim (Bool-cases found.mmdb_result.found_entry) [
                  | inl entry ↦
                      add_data-OnlyAsked slot key fields _ found f' (and_not _ _ wanted) before
                        (rw entry at r)
                  | inr none' ↦
                      subst (λ (x : Frame). OnlyAsked options x.ip_data)
                        (same_frame (rw none' at r)) before
                ]
          ]

    shared_block-OnlyAsked :
        (key : List ℕ) (fields : List Field) (f f' : Frame)
        → OnlyAsked options f.ip_data
        → (if is_open f.globals.mmdb_city && not (is_undefined (get_from options key))
            then add_data env lib Slot.city key fields (get_from options key) f
            else returns f)
          ≡ returns f'
        → OnlyAsked options f'.ip_data
    shared_block-OnlyAsked key fields f f' only h =
        elim (Bool-cases
          (is_open f.globals.mmdb_city && not (is_undefined (get_from options key)))) [
            | inr skipped ↦
                subst (λ (x : Frame). OnlyAsked options x.ip_data) (same_frame (rw skipped at h))
                  only
            | inl wanted ↦
                add_data-OnlyAsked Slot.city key fields (get_from options key) f f'
                  (and_not _ _ wanted) only (rw wanted at h)
          ]

    blocks-OnlyAsked :
        (ip : List ℕ) (f f' : Frame)
        → OnlyAsked options f.ip_data
        → blocks env lib ip options f ≡ returns f'
        → OnlyAsked options f'.ip_data
    unfolding blocks country_block city_block isp_block netspeed_block anonymous_block
    blocks-OnlyAsked ip f f5 only h =
        let (f4, r4, h5) = >>=-eq-returns _ (anonymous_block env lib ip options) h in
        let (f3, r3, h4) = >>=-eq-returns _ (netspeed_block env lib ip options) r4 in
        let (f2, r2, h3) = >>=-eq-returns _ (isp_block env lib ip options) r3 in
        let (f1, h1, h2) = >>=-eq-returns _ (city_block env lib options) r2 in
        let o1 = shared_block-OnlyAsked Constants.lookup_key_country country_fields f f1 only h1 in
        let o2 = shared_block-OnlyAsked Constants.lookup_key_city city_fields f1 f2 o1 h2 in
        let o3 = block-OnlyAsked Slot.isp Constants.lookup_key_isp isp_fields ip f2 f3 o2 h3 in
        let o4 =
          block-OnlyAsked Slot.netspeed Constants.lookup_key_netspeed netspeed_fields ip f3 f4 o3
            h4 in
        block-OnlyAsked Slot.anonymous Constants.lookup_key_anonymous anonymous_fields ip f4 f5 o4
          h5

    collect_ip_data-OnlyAsked :
        (ip : List ℕ) (f f' : Frame)
        → OnlyAsked options f.ip_data
        → collect_ip_data env lib ip options f ≡ returns f'
        → OnlyAsked options f'.ip_data
    unfolding collect_ip_data
    collect_ip_data-OnlyAsked ip f f' only h =
        let val_a = get_from options Constants.lookup_key_country in
        let val_b = get_from options Constants.lookup_key_city in
        elim (Bool-cases
          (is_open f.globals.mmdb_city && (not (is_undefined val_a) || not (is_undefined val_b)))) [
            | inr direct ↦ blocks-OnlyAsked ip f f' only (rw direct at h)
            | inl shared ↦
                let (found, looked, r) =
                  >>=-eq-returns (checked_lookup env lib Slot.city ip f) _ (rw shared at h) in
                let before =
                  subst (OnlyAsked options)
                    (sym (checked_lookup-ip_data Slot.city ip f found looked)) only in
                elim (Bool-cases found.mmdb_result.found_entry) [
                  | inl entry ↦ blocks-OnlyAsked ip found f' before (rw entry at r)
                  | inr none' ↦
                      subst (λ (x : Frame). OnlyAsked options x.ip_data)
                        (same_frame (rw none' at r)) before
                ]
          ]

  -- Where lookupIp returns an object, each of its properties was asked for: the options have a value
  -- for its key, or there were no options and it is one of the five keys.
  pub lookup_ip-OnlyAsked :
      (args : List JsValue) (g g' : Globals) (o : Properties)
      → lookup_ip env lib args g ≡ returns (g', JsValue.object o)
      → OnlyAsked (options_of args) o
  unfolding lookup_ip
  lookup_ip-OnlyAsked args g g' o h = elim (Bool-cases (is_string (argument args 0))) [
    | inr refused ↦ let bad = rw refused at h in cc
    | inl text ↦
        let ip = env.to_utf8 (argument args 0) in
        let (f, collected, r) =
          >>=-eq-returns (collect_ip_data env lib ip (options_of args) (first_frame env lib g)) _
            (rw text at h) in
        subst (OnlyAsked (options_of args)) (object_of r) (
          collect_ip_data-OnlyAsked (options_of args) ip (first_frame env lib g) f (λ key has. cc)
            collected)
  ]
