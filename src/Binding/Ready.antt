-- ===== src/Binding/Ready.antt =====
-- What holds of the five databases in every state of the process, and that lookupIp comes to an end
-- there.
use node_geoip2c.Base.{
  ℕ, ◌≡◌, ◌≢◌, refl, sym, subst, Bool, true, false, List, [], ◌∷◌, if◌then◌else◌, Bool-cases, inl,
  inr, ◌⊎◌, ◌==◌, Option, Option-cases,
}
use node_geoip2c.Types.DataType
use node_geoip2c.Types.{Error, Outcome, success, failure, EntryData, Mmdb}
use node_geoip2c.Lookup.{StringAnswer}
use node_geoip2c.Path.{VaList, text_of}
use node_geoip2c.Path.Varargs.{varargs}
use node_geoip2c.Binding.Js.{JsValue, Properties, no_properties, set_property}
use node_geoip2c.Binding.Fields.{Field, Member, is_set}
use node_geoip2c.Binding.Collect.{string_value, member_value, entry_value, field_value, collect}
use node_geoip2c.Binding.Slots.{all_slots-put_slot, get_slot-put_slot, same_slot_refl}
use node_geoip2c.Binding.Lookup.{Frame, checked_lookup, check_answer, add_data}
use node_geoip2c.Binding.Completion.{
  Globals, Slot, get_slot, is_open, Library, Platform, Completion, returns, throws, crashes, hangs,
  ◌>>=◌, ignoring_status,
}

-- What the library promises of databases that are `Ready`.
pub record IsLawful (lib : Library) (Ready : Mmdb → Type 0) : Type 0 where
  pub opened :
      (filename : List ℕ) (m m' : Mmdb) → lib.open_database filename m ≡ success m' → Ready m'
  pub failed :
      (filename : List ℕ) (m m' : Mmdb) (e : Error)
      → lib.open_database filename m ≡ failure e m'
      → is_open m' ≡ false
  pub closed : (m : Mmdb) → is_open (lib.close m) ≡ false
  pub looked_up :
      (m : Mmdb) (ip : List ℕ) (mmdb_error : Option Error) (a : StringAnswer)
      → Ready m
      → ignoring_status (lib.lookup_string m ip mmdb_error) ≡ returns a
      → Ready a.found.mmdb
  pub lookup_ends :
      (m : Mmdb) (ip : List ℕ) (mmdb_error : Option Error)
      → ignoring_status (lib.lookup_string m ip mmdb_error) ≢ hangs
  pub value_ends :
      (m : Mmdb) (offset : ℕ) (e : EntryData) (path : VaList)
      → Ready m
      → ignoring_status (lib.get_value m offset e path) ≢ hangs

module _ (Ready : Mmdb → Type 0) where
  abbrev pub ClosedOrReady : Mmdb → Type 0
  ClosedOrReady m = (is_open m ≡ false) ⊎ Ready m

  -- Each of the databases is closed or ready.
  abbrev pub AllReady : Globals → Type 0
  AllReady g = (s : Slot) → ClosedOrReady (get_slot s g)

module _ (Ready : Mmdb → Type 0) (Hang : Type 0) where
  -- The call hangs only if `Hang`, an exception leaves the databases ready, and a value has the property.
  abbrev pub Good {ℓ} : {A : Type ℓ} → (A → Type 0) → Completion A → Type 0
  Good P (returns a) = P a
  Good P (throws message g) = AllReady Ready g
  Good P crashes = Unit {0}
  Good P hangs = Hang

  pub Good->>= {ℓ κ} :
      {A : Type ℓ} {B : Type κ} (P : A → Type 0) (Q : B → Type 0) (r : Completion A)
      (k : A → Completion B)
      → Good P r
      → ((a : A) → P a → Good Q (k a))
      → Good Q (r >>= k)
  Good->>= P Q (returns a) k h next = next a h
  Good->>= P Q (throws message g) k h next = h
  Good->>= P Q crashes k h next = h
  Good->>= P Q hangs k h next = h

  pub Good-if {ℓ} :
      {A : Type ℓ} (P : A → Type 0) (b : Bool) (c c' : Completion A)
      → Good P c
      → Good P c'
      → Good P (if b then c else c')
  Good-if P true c c' h h' = h
  Good-if P false c c' h h' = h'

  -- A call of the library that comes to an end.
  Good-call :
      {A : Type 0} (o : Outcome A)
      → ignoring_status o ≢ hangs
      → Good (λ a. ignoring_status o ≡ returns a) (ignoring_status o)
  Good-call (Outcome.success a) ends = refl
  Good-call (Outcome.failure e a) ends = refl
  Good-call Outcome.fault ends = _
  Good-call Outcome.stuck ends = absurd (ends refl)

  module _ (env : Platform) (lib : Library) (lawful : IsLawful lib Ready) where
    member_value-Good :
        (g : Globals) (m : Mmdb) (member : Member) (e : EntryData)
        → AllReady Ready g
        → Good (λ value. Unit {0}) (member_value env g m member e)
    unfolding member_value string_value
    member_value-Good g m Member.utf8_string e h =
        elim (Bool-cases (e.type == DataType.utf8_string)) [
          | inr other ↦ rw other h
          | inl text ↦ rw text (elim (Option-cases (text_of m e.value e.data_size)) [
            | inl gone ↦ rw gone _
            | inr (bs, read) ↦ rw read _
          ])
        ]
    member_value-Good g m Member.uint16 e h = _
    member_value-Good g m Member.boolean e h = _
    member_value-Good g m Member.double_value e h = _

    field_value-Good :
        (g : Globals) (m : Mmdb) (offset : ℕ) (field : Field)
        → AllReady Ready g
        → Ready m
        → Good (λ value. Unit {0}) (field_value env lib g m offset field)
    unfolding field_value entry_value
    field_value-Good g m offset field h ready =
        let got = lib.get_value m offset env.stale (varargs field.path []) in
        Good->>= _ _ (ignoring_status got) _
          (Good-call got (lawful.value_ends m offset env.stale (varargs field.path []) ready))
          λ e _. Good-if _ e.has_data _ _ (member_value-Good g m field.member e h) _

    collect-Good :
        (g : Globals) (m : Mmdb) (offset t : ℕ) (fields : List Field) (o : Properties)
        → AllReady Ready g
        → Ready m
        → Good (λ filled. Unit {0}) (collect env lib g m offset t fields o)
    unfolding collect
    collect-Good g m offset t [] o h ready = _
    collect-Good g m offset t (field ∷ fields) o h ready = elim (Bool-cases (is_set t field.mask)) [
      | inr clear ↦ rw clear (collect-Good g m offset t fields o h ready)
      | inl set ↦ rw set (
          Good->>= _ _ (field_value env lib g m offset field) _
            (field_value-Good g m offset field h ready)
            (λ value _.
              collect-Good g m offset t fields (set_property field.label value o) h ready))
    ]

    -- The frame's databases are ready, and so is the one in the slot.
    abbrev pub ReadyAt : Slot → Frame → Type 0
    ReadyAt s f = AllReady Ready f.globals × Ready (get_slot s f.globals)

    abbrev pub ReadyFrame : Frame → Type 0
    ReadyFrame f = AllReady Ready f.globals

    pub add_data-Good :
        (s : Slot) (key : List ℕ) (fields : List Field) (val : JsValue) (f : Frame)
        → ReadyAt s f
        → Good (ReadyAt s) (add_data env lib s key fields val f)
    unfolding add_data
    add_data-Good s key fields val f (h, ready) =
        Good->>= _ _
          (collect env lib f.globals (get_slot s f.globals) f.mmdb_result.offset
            (env.uint32_value val) fields no_properties)
          _
          (collect-Good f.globals (get_slot s f.globals) f.mmdb_result.offset (env.uint32_value val)
            fields no_properties h ready)
          (λ filled _. (h, ready))

    check_answer-Good :
        (s : Slot) (ip : List ℕ) (f : Frame) (a : StringAnswer)
        → AllReady Ready f.globals
        → Ready a.found.mmdb
        → Good (ReadyAt s) (check_answer env lib s ip f a)
    unfolding check_answer
    check_answer-Good s ip f a h ready =
        let put = all_slots-put_slot (ClosedOrReady Ready) s a.found.mmdb f.globals (inr ready) h in
        elim (Bool-cases (a.gai_error == 0)) [
          | inr refused ↦ rw refused put
          | inl ok ↦ rw ok (elim (Option-cases a.found.mmdb_error) [
            | inr (e, failed) ↦ rw failed put
            | inl fine ↦
                let law = get_slot-put_slot s s a.found.mmdb f.globals in
                rw fine (put, subst Ready (sym (rw (same_slot_refl s) at law)) ready)
          ])
        ]

    pub checked_lookup-Good :
        (s : Slot) (ip : List ℕ) (f : Frame)
        → ReadyAt s f
        → Good (ReadyAt s) (checked_lookup env lib s ip f)
    unfolding checked_lookup
    checked_lookup-Good s ip f (h, ready) =
        let looked = lib.lookup_string (get_slot s f.globals) ip f.mmdb_error in
        Good->>= _ _ (ignoring_status looked) _
          (Good-call looked (lawful.lookup_ends (get_slot s f.globals) ip f.mmdb_error))
          λ a answered.
            check_answer-Good s ip f a h
              (lawful.looked_up (get_slot s f.globals) ip f.mmdb_error a ready answered)
