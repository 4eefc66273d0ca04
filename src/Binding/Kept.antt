-- ===== src/Binding/Kept.antt =====
-- lookupIp, loadDb and unload leave every database closed or ready, and lookupIp does not hang.
use node_geoip2c.Base.{
  ℕ, ◌≡◌, refl, ◌&&◌, ◌||◌, not, Bool, true, false, List, if◌then◌else◌, Bool-cases, inl, inr,
}
use node_geoip2c.Types.{Error, Outcome, success, failure, fault, stuck, Mmdb}
use node_geoip2c.Binding.Js.{JsValue, Properties, no_properties, get_from, is_undefined, is_string}
use node_geoip2c.Binding.Constants
use node_geoip2c.Binding.Fields.{
  Field, country_fields, city_fields, isp_fields, netspeed_fields, anonymous_fields,
}
use node_geoip2c.Binding.Slots.{all_slots-put_slot}
use node_geoip2c.Binding.Asked.{options_of}
use node_geoip2c.Binding.Ready.{
  IsLawful, ClosedOrReady, AllReady, Good, Good->>=, Good-if, ReadyAt, ReadyFrame, add_data-Good,
  checked_lookup-Good,
}
use node_geoip2c.Binding.Lookup.{
  argument, lookup_ip, first_frame, collect_ip_data, blocks, country_block, city_block, isp_block,
  netspeed_block, anonymous_block, block, Frame, checked_lookup, add_data,
}
use node_geoip2c.Binding.Load.{load_mmdb, load_key, load_keys, load_db, close_slot, unload}
use node_geoip2c.Binding.Completion.{
  Globals, Slot, get_slot, is_open, Library, Platform, Completion, returns, throws, crashes, hangs,
}

module _ (Ready : Mmdb → Type 0) where
  ready_if_open : (m : Mmdb) → is_open m ≡ true → ClosedOrReady Ready m → Ready m
  ready_if_open m opened (inl closed) = cc
  ready_if_open m opened (inr ready) = ready

  ready_if_wanted :
      (m : Mmdb) (b : Bool) → (is_open m && b) ≡ true → ClosedOrReady Ready m → Ready m
  ready_if_wanted m b wanted h = elim (Bool-cases (is_open m)) [
    | inl opened ↦ ready_if_open m opened h
    | inr closed ↦ let bad = rw closed at wanted in cc
  ]

module _ (Ready : Mmdb → Type 0) (Hang : Type 0) where
  Good-weaken {ℓ} :
      {A : Type ℓ} (P Q : A → Type 0) (c : Completion A)
      → ((a : A) → P a → Q a)
      → Good Ready Hang P c
      → Good Ready Hang Q c
  Good-weaken P Q (returns a) weaker h = weaker a h
  Good-weaken P Q (throws message g) weaker h = h
  Good-weaken P Q crashes weaker h = h
  Good-weaken P Q hangs weaker h = h

  module _ (env : Platform) (lib : Library) (lawful : IsLawful lib Ready) where
    abbrev GoodFrame : Completion Frame → Type 0
    GoodFrame c = Good Ready Hang (ReadyFrame Ready Hang env lib lawful) c

    add_data-GoodFrame :
        (s : Slot) (key : List ℕ) (fields : List Field) (val : JsValue) (f : Frame)
        → ReadyAt Ready Hang env lib lawful s f
        → GoodFrame (add_data env lib s key fields val f)
    add_data-GoodFrame s key fields val f h =
        Good-weaken (ReadyAt Ready Hang env lib lawful s) _ (add_data env lib s key fields val f)
          (λ f' (all, _). all) (add_data-Good Ready Hang env lib lawful s key fields val f h)

    block-Good :
        (s : Slot) (key : List ℕ) (fields : List Field) (ip : List ℕ) (options : JsValue)
        (f : Frame)
        → AllReady Ready f.globals
        → GoodFrame (block env lib s key fields ip options f)
    unfolding block
    block-Good s key fields ip options f h =
        let val = get_from options key in
        elim (Bool-cases (is_open (get_slot s f.globals) && not (is_undefined val))) [
          | inr skipped ↦ rw skipped h
          | inl wanted ↦ rw wanted (
              Good->>= Ready Hang (ReadyAt Ready Hang env lib lawful s) _
                (checked_lookup env lib s ip f) _
                (checked_lookup-Good Ready Hang env lib lawful s ip f
                  (h, ready_if_wanted Ready (get_slot s f.globals) _ wanted (h s)))
                (λ found h'.
                  Good-if Ready Hang _ found.mmdb_result.found_entry _ _
                    (add_data-GoodFrame s key fields val found h') h'.0))
        ]

    shared_block-Good :
        (key : List ℕ) (fields : List Field) (options : JsValue) (f : Frame)
        → AllReady Ready f.globals
        → GoodFrame (
            if is_open f.globals.mmdb_city && not (is_undefined (get_from options key))
            then add_data env lib Slot.city key fields (get_from options key) f
            else returns f)
    shared_block-Good key fields options f h =
        let val = get_from options key in
        elim (Bool-cases (is_open f.globals.mmdb_city && not (is_undefined val))) [
          | inr skipped ↦ rw skipped h
          | inl wanted ↦ rw wanted (
              add_data-GoodFrame Slot.city key fields val f
                (h, ready_if_wanted Ready f.globals.mmdb_city _ wanted (h Slot.city)))
        ]

    blocks-Good :
        (ip : List ℕ) (options : JsValue) (f : Frame)
        → AllReady Ready f.globals
        → GoodFrame (blocks env lib ip options f)
    unfolding blocks country_block city_block isp_block netspeed_block anonymous_block
    blocks-Good ip options f h =
        Good->>= Ready Hang _ _ _ (anonymous_block env lib ip options)
          (Good->>= Ready Hang _ _ _ (netspeed_block env lib ip options)
            (Good->>= Ready Hang _ _ _ (isp_block env lib ip options)
              (Good->>= Ready Hang _ _ _ (city_block env lib options)
                (shared_block-Good Constants.lookup_key_country country_fields options f h)
                (λ f1 h1. shared_block-Good Constants.lookup_key_city city_fields options f1 h1))
              (λ f2 h2. block-Good Slot.isp Constants.lookup_key_isp isp_fields ip options f2 h2))
            (λ f3 h3.
              block-Good Slot.netspeed Constants.lookup_key_netspeed netspeed_fields ip options f3
                h3))
          (λ f4 h4.
            block-Good Slot.anonymous Constants.lookup_key_anonymous anonymous_fields ip options f4
              h4)

    collect_ip_data-Good :
        (ip : List ℕ) (options : JsValue) (f : Frame)
        → AllReady Ready f.globals
        → GoodFrame (collect_ip_data env lib ip options f)
    unfolding collect_ip_data
    collect_ip_data-Good ip options f h =
        let val_a = get_from options Constants.lookup_key_country in
        let val_b = get_from options Constants.lookup_key_city in
        elim (Bool-cases
          (is_open f.globals.mmdb_city && (not (is_undefined val_a) || not (is_undefined val_b)))) [
            | inr direct ↦ rw direct (blocks-Good ip options f h)
            | inl shared ↦ rw shared (
                Good->>= Ready Hang (ReadyAt Ready Hang env lib lawful Slot.city) _
                  (checked_lookup env lib Slot.city ip f) _
                  (checked_lookup-Good Ready Hang env lib lawful Slot.city ip f
                    (h, ready_if_wanted Ready f.globals.mmdb_city _ shared (h Slot.city)))
                  (λ found h'.
                    Good-if Ready Hang _ found.mmdb_result.found_entry _ _
                      (blocks-Good ip options found h'.0) h'.0))
          ]

    abbrev pub GoodResult : Completion (Globals × JsValue) → Type 0
    GoodResult c = Good Ready Hang (λ s. AllReady Ready s.0) c

    -- lookupIp leaves every database closed or ready.
    pub lookup_ip-Good :
        (args : List JsValue) (g : Globals)
        → AllReady Ready g
        → GoodResult (lookup_ip env lib args g)
    unfolding lookup_ip
    lookup_ip-Good args g h = elim (Bool-cases (is_string (argument args 0))) [
      | inr refused ↦ rw refused h
      | inl text ↦ rw text (
          Good->>= Ready Hang (ReadyFrame Ready Hang env lib lawful)
            (λ (st : Globals × JsValue). AllReady Ready st.0)
            (collect_ip_data env lib (env.to_utf8 (argument args 0)) (options_of args)
              (first_frame env lib g))
            _
            (collect_ip_data-Good (env.to_utf8 (argument args 0)) (options_of args)
              (first_frame env lib g) h)
            (λ f h'. h'))
    ]

    load_key-Good :
        (s : Slot) (key : List ℕ) (options : JsValue) (st : Globals × Properties)
        → Hang
        → AllReady Ready st.0
        → Good Ready Hang (λ st'. AllReady Ready st'.0) (load_key env lib s key options st)
    unfolding load_key
    load_key-Good s key options (g, stats) hang h =
        let filename = env.to_utf8 (get_from options key) in
        Good-if Ready Hang _ (is_undefined (get_from options key)) _ _ h (
          Good->>= Ready Hang (λ loaded. ClosedOrReady Ready loaded.1) _ _ _
            (load_mmdb-Good (lib.open_database filename (get_slot s g))
              (λ m'. lawful.opened filename (get_slot s g) m')
              (λ e m'. lawful.failed filename (get_slot s g) m' e))
            (λ loaded ready. all_slots-put_slot (ClosedOrReady Ready) s loaded.1 g ready h))
      where
        load_mmdb-Good :
            (o : Outcome Mmdb)
            → ((m' : Mmdb) → o ≡ success m' → Ready m')
            → ((e : Error) (m' : Mmdb) → o ≡ failure e m' → is_open m' ≡ false)
            → Good Ready Hang
                (λ (loaded : List ℕ × Mmdb). ClosedOrReady Ready loaded.1)
                (load_mmdb o)
        load_mmdb-Good (success m') ok no' = inr (ok m' refl)
        load_mmdb-Good (failure e m') ok no' = inl (no' e m' refl)
        load_mmdb-Good fault ok no' = _
        load_mmdb-Good stuck ok no' = hang

    load_keys-Good :
        (options : JsValue) (st : Globals × Properties)
        → Hang
        → AllReady Ready st.0
        → Good Ready Hang
            (λ (st' : Globals × Properties). AllReady Ready st'.0)
            (load_keys env lib options st)
    unfolding load_keys
    load_keys-Good options st hang h =
        Good->>= Ready Hang _ _ _
          (load_key env lib Slot.anonymous Constants.lookup_key_anonymous options)
          (Good->>= Ready Hang _ _ _
            (load_key env lib Slot.netspeed Constants.lookup_key_netspeed options)
            (Good->>= Ready Hang _ _ _ (load_key env lib Slot.isp Constants.lookup_key_isp options)
              (Good->>= Ready Hang _ _ _
                (load_key env lib Slot.city Constants.lookup_key_city options)
                (load_key-Good Slot.city Constants.lookup_key_country options st hang h)
                (λ s1 h1. load_key-Good Slot.city Constants.lookup_key_city options s1 hang h1))
              (λ s2 h2. load_key-Good Slot.isp Constants.lookup_key_isp options s2 hang h2))
            (λ s3 h3. load_key-Good Slot.netspeed Constants.lookup_key_netspeed options s3 hang h3))
          (λ s4 h4. load_key-Good Slot.anonymous Constants.lookup_key_anonymous options s4 hang h4)

    -- loadDb leaves every database closed or ready.
    pub load_db-Good :
        (args : List JsValue) (g : Globals)
        → Hang
        → AllReady Ready g
        → GoodResult (load_db env lib args g)
    unfolding load_db
    load_db-Good args g hang h = Good-if Ready Hang _ (is_undefined (argument args 0)) _ _ h (
        Good->>= Ready Hang (λ (st : Globals × Properties). AllReady Ready st.0) _
          (load_keys env lib (argument args 0) (g, no_properties)) _
          (load_keys-Good (argument args 0) (g, no_properties) hang h) (λ st h'. h'))

module _ (Ready : Mmdb → Type 0) (lib : Library) (lawful : IsLawful lib Ready) where
  close_slot-AllReady :
      (s : Slot) (g : Globals) → AllReady Ready g → AllReady Ready (close_slot lib s g)
  close_slot-AllReady s g h = elim (Bool-cases (is_open (get_slot s g))) [
    | inr closed ↦ rw closed h
    | inl opened ↦ rw opened (
        all_slots-put_slot (ClosedOrReady Ready) s (lib.close (get_slot s g)) g
          (inl (lawful.closed (get_slot s g))) h)
  ]

  -- unload leaves every database closed or ready.
  pub unload-AllReady : (g : Globals) → AllReady Ready g → AllReady Ready (unload lib g)
  unfolding unload
  unload-AllReady g h = close_slot-AllReady Slot.anonymous _ (
      close_slot-AllReady Slot.netspeed _ (
        close_slot-AllReady Slot.isp _
          (close_slot-AllReady Slot.city _ (close_slot-AllReady Slot.country g h))))
