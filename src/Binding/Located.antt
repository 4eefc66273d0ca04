-- ===== src/Binding/Located.antt =====
-- What the blocks of lookupIp leave in the result: the block for the country or the city sets its
-- own property, and no block changes that of another.
use node_geoip2c.Base.{
  ℕ, ◌≡◌, sym, ap, ◌∙◌, subst, ◌&&◌, not, true, false, List, if◌then◌else◌, Bool-cases, inl, inr,
  bytes_eq, bytes_eq_refl,
}
use node_geoip2c.Binding.Js.{
  JsValue, Properties, no_properties, get_from, get_property, set_property, is_undefined,
}
use node_geoip2c.Binding.Fields.{Field}
use node_geoip2c.Binding.Collect.{collect}
use node_geoip2c.Binding.Collected.{
  >>=-eq-returns, Collects, selected, labels, are_distinct, collect-Collects,
}
use node_geoip2c.Binding.Objects.{get_property-set_property}
use node_geoip2c.Binding.Asked.{checked_lookup-ip_data, same_frame}
use node_geoip2c.Binding.Lookup.{block, Frame, checked_lookup, add_data}
use node_geoip2c.Binding.Completion.{
  Globals, Slot, get_slot, is_open, Library, Platform, Completion, returns,
}

module _ (env : Platform) (lib : Library) where
  -- An object with just the selected fields of an entry, each with its value.
  abbrev pub HasFields : JsValue → Globals → ℕ → List Field → JsValue → Type 0
  HasFields val g offset fields shown =
      (filled : Properties) × (shown ≡ JsValue.object filled)
      × Collects env lib g g.mmdb_city offset (selected (env.uint32_value val) fields) filled

  set_same :
      (key : List ℕ) (v : JsValue) (o : Properties) → get_property key (set_property key v o) ≡ v
  set_same key v o =
      let law = get_property-set_property key key v o in rw (bytes_eq_refl key) at law

  set_other :
      (key other : List ℕ) (v : JsValue) (o : Properties)
      → bytes_eq key other ≡ false
      → get_property other (set_property key v o) ≡ get_property other o
  set_other key other v o distinct =
      let law = get_property-set_property other key v o in rw distinct at law

  add_data-sets :
      (slot : Slot) (key : List ℕ) (fields : List Field) (val : JsValue) (f f' : Frame)
      → add_data env lib slot key fields val f ≡ returns f'
      → (filled : Properties) × (collect env lib f.globals
            (get_slot slot f.globals)
            f.mmdb_result.offset
            (env.uint32_value val)
            fields
            no_properties
          ≡ returns filled)
        × (record f { ip_data = set_property key (JsValue.object filled) f.ip_data } ≡ f')
  unfolding add_data
  add_data-sets slot key fields val f f' h =
      let (filled, collected, r) =
        >>=-eq-returns
          (collect env lib f.globals (get_slot slot f.globals) f.mmdb_result.offset
            (env.uint32_value val) fields no_properties)
          _ h in
      (filled, collected, same_frame r)

  add_data-keeps :
      (slot : Slot) (key other : List ℕ) (fields : List Field) (val : JsValue) (f f' : Frame)
      → bytes_eq key other ≡ false
      → add_data env lib slot key fields val f ≡ returns f'
      → get_property other f'.ip_data ≡ get_property other f.ip_data
  add_data-keeps slot key other fields val f f' distinct h =
      let (filled, _, same) = add_data-sets slot key fields val f f' h in
      subst (λ (x : Frame). get_property other x.ip_data ≡ get_property other f.ip_data) same
        (set_other key other (JsValue.object filled) f.ip_data distinct)

  pub block-keeps :
      (slot : Slot) (key other : List ℕ) (fields : List Field) (ip : List ℕ) (options : JsValue)
      (f f' : Frame)
      → bytes_eq key other ≡ false
      → block env lib slot key fields ip options f ≡ returns f'
      → get_property other f'.ip_data ≡ get_property other f.ip_data
  unfolding block
  block-keeps slot key other fields ip options f f' distinct h =
      let val = get_from options key in
      elim (Bool-cases (is_open (get_slot slot f.globals) && not (is_undefined val))) [
        | inr skipped ↦
            ap (λ (x : Frame). get_property other x.ip_data) (sym (same_frame (rw skipped at h)))
        | inl wanted ↦
            let (found, looked, r) =
              >>=-eq-returns (checked_lookup env lib slot ip f) _ (rw wanted at h) in
            let before =
              ap (get_property other) (checked_lookup-ip_data env lib slot ip f found looked) in
            elim (Bool-cases found.mmdb_result.found_entry) [
              | inl entry ↦
                  add_data-keeps slot key other fields val found f' distinct (rw entry at r)
                  ∙ before
              | inr none' ↦
                  ap (λ (x : Frame). get_property other x.ip_data)
                    (sym (same_frame (rw none' at r)))
                  ∙ before
            ]
      ]

  -- What the block for the country or the city does with a frame.
  abbrev pub shared_block : List ℕ → List Field → JsValue → Frame → Completion Frame
  shared_block key fields options f =
      let val = get_from options key in
      if is_open f.globals.mmdb_city && not (is_undefined val)
      then add_data env lib Slot.city key fields val f
      else returns f

  pub shared_block-keeps :
      (key other : List ℕ) (fields : List Field) (options : JsValue) (f f' : Frame)
      → bytes_eq key other ≡ false
      → shared_block key fields options f ≡ returns f'
      → (get_property other f'.ip_data ≡ get_property other f.ip_data)
        × (f'.globals ≡ f.globals)
        × (f'.mmdb_result ≡ f.mmdb_result)
  shared_block-keeps key other fields options f f' distinct h =
      let val = get_from options key in
      elim (Bool-cases (is_open f.globals.mmdb_city && not (is_undefined val))) [
        | inr skipped ↦
            let same = sym (same_frame (rw skipped at h)) in
            (
              ap (λ (x : Frame). get_property other x.ip_data) same,
              ap (λ (x : Frame). x.globals) same,
              ap (λ (x : Frame). x.mmdb_result) same,
            )
        | inl wanted ↦
            let added = rw wanted at h in
            let (filled, _, same) = add_data-sets Slot.city key fields val f f' added in
            (
              add_data-keeps Slot.city key other fields val f f' distinct added,
              ap (λ (x : Frame). x.globals) (sym same),
              ap (λ (x : Frame). x.mmdb_result) (sym same),
            )
      ]

  pub shared_block-HasFields :
      (key : List ℕ) (fields : List Field) (options : JsValue) (f f' : Frame)
      → are_distinct (labels fields) ≡ true
      → is_open f.globals.mmdb_city ≡ true
      → is_undefined (get_from options key) ≡ false
      → shared_block key fields options f ≡ returns f'
      → HasFields
          (get_from options key)
          f.globals
          f.mmdb_result.offset
          fields
          (get_property key f'.ip_data)
  shared_block-HasFields key fields options f f' distinct opened asked h =
      let val = get_from options key in
      let (filled, collected, same) =
        add_data-sets Slot.city key fields val f f' (rw (opened, asked) at h) in
      (
        filled,
        subst (λ (x : Frame). get_property key x.ip_data ≡ JsValue.object filled) same
            (set_same key (JsValue.object filled) f.ip_data),
        collect-Collects env lib f.globals f.globals.mmdb_city f.mmdb_result.offset
            (env.uint32_value val) fields filled distinct collected,
      )
