-- ===== src/Binding/Explained.antt =====
-- Which exceptions the lookups of lookupIp and the reads of their fields throw.
use node_geoip2c.Base.{
  ℕ, ◌≡◌, refl, Bool, true, false, Option, some, List, [], ◌∷◌, ◌==◌, if◌then◌else◌, Bool-cases,
  Option-cases, inl, inr, codes,
}
use node_geoip2c.Types.{Error, Outcome, success, failure, fault, stuck, EntryData, Mmdb}
use node_geoip2c.Types.DataType
use node_geoip2c.Lookup.{StringAnswer}
use node_geoip2c.Path.{text_of}
use node_geoip2c.Path.Varargs.{varargs}
use node_geoip2c.Binding.Js.{JsValue, Properties, no_properties, set_property, is_string}
use node_geoip2c.Binding.Fields.{Field, Member, is_set}
use node_geoip2c.Binding.Collect.{
  unexpected_type, string_value, member_value, entry_value, field_value, collect,
}
use node_geoip2c.Binding.Lookup.{
  argument, Frame, checked_lookup, check_answer, add_data, gai_message, lookup_message,
}
use node_geoip2c.Binding.Completion.{
  Globals, Slot, get_slot, is_open, Library, Platform, Completion, returns, throws, crashes, hangs,
  ◌>>=◌, ignoring_status,
}

-- Where the completion is an exception, its message is one of those.
abbrev pub OnlyThrows {ℓ} : (List ℕ → Type 0) → {A : Type ℓ} → Completion A → Type 0
OnlyThrows P (returns a) = Unit {0}
OnlyThrows P (throws message g) = P message
OnlyThrows P crashes = Unit {0}
OnlyThrows P hangs = Unit {0}

module _ (P : List ℕ → Type 0) where
  pub OnlyThrows->>= {ℓ κ} :
      {A : Type ℓ} {B : Type κ} (c : Completion A) (k : A → Completion B)
      → OnlyThrows P c
      → ((a : A) → c ≡ returns a → OnlyThrows P (k a))
      → OnlyThrows P (c >>= k)
  OnlyThrows->>= (returns a) k h next = next a refl
  OnlyThrows->>= (throws message g) k h next = h
  OnlyThrows->>= crashes k h next = _
  OnlyThrows->>= hangs k h next = _

  pub OnlyThrows-if {ℓ} :
      {A : Type ℓ} (b : Bool) (c d : Completion A)
      → (b ≡ true → OnlyThrows P c)
      → (b ≡ false → OnlyThrows P d)
      → OnlyThrows P (if b then c else d)
  OnlyThrows-if true c d h h' = h refl
  OnlyThrows-if false c d h h' = h' refl

  OnlyThrows-ignoring_status {ℓ} : {A : Type ℓ} (o : Outcome A) → OnlyThrows P (ignoring_status o)
  OnlyThrows-ignoring_status (success a) = _
  OnlyThrows-ignoring_status (failure e a) = _
  OnlyThrows-ignoring_status fault = _
  OnlyThrows-ignoring_status stuck = _

-- Why lookupIp throws an exception with the message: the first argument is not a string; for a loaded
-- database the address was not resolved, or the lookup had an error; or the entry of a field that
-- is shown as a text has another type.
pub data Explains (env : Platform) (lib : Library) (args : List JsValue) : List ℕ → Type 0 where
  no_address :
      is_string (argument args 0) ≡ false → Explains env lib args (codes "No ip address specified")
  unresolved :
      (m : Mmdb) (before : Option Error) (a : StringAnswer)
      → is_string (argument args 0) ≡ true
      → is_open m ≡ true
      → ignoring_status (lib.lookup_string m (env.to_utf8 (argument args 0)) before) ≡ returns a
      → (a.gai_error == 0) ≡ false
      → Explains env lib args
          (gai_message (env.to_utf8 (argument args 0)) (env.gai_strerror a.gai_error))
  refused :
      (m : Mmdb) (before : Option Error) (a : StringAnswer) (e : Error)
      → is_string (argument args 0) ≡ true
      → is_open m ≡ true
      → ignoring_status (lib.lookup_string m (env.to_utf8 (argument args 0)) before) ≡ returns a
      → (a.gai_error == 0) ≡ true
      → a.found.mmdb_error ≡ some e
      → Explains env lib args (lookup_message e)
  unexpected :
      (m : Mmdb) (offset : ℕ) (field : Field) (e : EntryData)
      → is_string (argument args 0) ≡ true
      → field.member ≡ Member.utf8_string
      → ignoring_status (lib.get_value m offset env.stale (varargs field.path [])) ≡ returns e
      → e.has_data ≡ true
      → (e.type == DataType.utf8_string) ≡ false
      → Explains env lib args unexpected_type

module _ (env : Platform) (lib : Library) (args : List JsValue)
    (text : is_string (argument args 0) ≡ true) where
  abbrev pub Explained {ℓ} : {A : Type ℓ} → Completion A → Type 0
  Explained c = OnlyThrows (Explains env lib args) c

  string_value-Explained :
      (g : Globals) (m : Mmdb) (offset : ℕ) (field : Field) (e : EntryData)
      → field.member ≡ Member.utf8_string
      → ignoring_status (lib.get_value m offset env.stale (varargs field.path [])) ≡ returns e
      → e.has_data ≡ true
      → Explained (string_value g m e)
  unfolding string_value
  string_value-Explained g m offset field e shown got has =
      elim (Bool-cases (e.type == DataType.utf8_string)) [
        | inr other ↦ rw other (Explains.unexpected m offset field e text shown got has other)
        | inl same ↦ rw same (elim (Option-cases (text_of m e.value e.data_size)) [
          | inl missing ↦ rw missing _
          | inr (bs, read) ↦ rw read _
        ])
      ]

  member_value-Explained :
      (g : Globals) (m : Mmdb) (member : Member) (e : EntryData)
      → (member ≡ Member.utf8_string → Explained (string_value g m e))
      → Explained (member_value env g m member e)
  unfolding member_value
  member_value-Explained g m Member.utf8_string e h = h refl
  member_value-Explained g m Member.uint16 e h = _
  member_value-Explained g m Member.boolean e h = _
  member_value-Explained g m Member.double_value e h = _

  field_value-Explained :
      (g : Globals) (m : Mmdb) (offset : ℕ) (field : Field)
      → Explained (field_value env lib g m offset field)
  unfolding field_value entry_value
  field_value-Explained g m offset field =
      let looked = lib.get_value m offset env.stale (varargs field.path []) in
      OnlyThrows->>= _ (ignoring_status looked) _ (OnlyThrows-ignoring_status _ looked) λ e got.
        OnlyThrows-if _ e.has_data _ _
          (λ has.
            member_value-Explained g m field.member e
              (λ shown. string_value-Explained g m offset field e shown got has))
          (λ absent. _)

  collect-Explained :
      (g : Globals) (m : Mmdb) (offset t : ℕ) (fields : List Field) (o : Properties)
      → Explained (collect env lib g m offset t fields o)
  unfolding collect
  collect-Explained g m offset t [] o = _
  collect-Explained g m offset t (field ∷ fields) o =
      OnlyThrows-if _ (is_set t field.mask) _ _
        (λ asked.
          OnlyThrows->>= _ (field_value env lib g m offset field) _
            (field_value-Explained g m offset field)
            (λ value got. collect-Explained g m offset t fields (set_property field.label value o)))
        (λ left. collect-Explained g m offset t fields o)

  pub add_data-Explained :
      (slot : Slot) (key : List ℕ) (fields : List Field) (val : JsValue) (f : Frame)
      → Explained (add_data env lib slot key fields val f)
  unfolding add_data
  add_data-Explained slot key fields val f =
      OnlyThrows->>= _
        (collect env lib f.globals (get_slot slot f.globals) f.mmdb_result.offset
          (env.uint32_value val) fields no_properties)
        _
        (collect-Explained f.globals (get_slot slot f.globals) f.mmdb_result.offset
          (env.uint32_value val) fields no_properties)
        (λ filled got. _)

  pub checked_lookup-Explained :
      (slot : Slot) (f : Frame)
      → is_open (get_slot slot f.globals) ≡ true
      → Explained (checked_lookup env lib slot (env.to_utf8 (argument args 0)) f)
  unfolding checked_lookup check_answer
  checked_lookup-Explained slot f opened =
      let m = get_slot slot f.globals in
      let looked = lib.lookup_string m (env.to_utf8 (argument args 0)) f.mmdb_error in
      OnlyThrows->>= _ (ignoring_status looked) _ (OnlyThrows-ignoring_status _ looked) λ a got.
        elim (Bool-cases (a.gai_error == 0)) [
          | inr failed ↦ rw failed (Explains.unresolved m f.mmdb_error a text opened got failed)
          | inl resolved ↦ rw resolved (elim (Option-cases a.found.mmdb_error) [
            | inl fine ↦ rw fine _
            | inr (e, wrong) ↦
                rw wrong (Explains.refused m f.mmdb_error a e text opened got resolved wrong)
          ])
        ]
