-- ===== src/Binding/Displayed.antt =====
-- From a file to JavaScript: what lookupIp shows of a value in the data section.
use node_geoip2c.Base.{
  ℕ, ◌+◌, ◌*◌, ◌≡◌, sym, ◌∙◌, subst, true, false, Option, List, ◌∷◌, length, bytes_eq,
  bytes_eq_refl, inl, inr,
}
use node_geoip2c.Types.{Mmdb}
use node_geoip2c.Lookup.{StringAnswer, lookup_string}
use node_geoip2c.Format.Datum.{Datum}
use node_geoip2c.Format.Datum
use node_geoip2c.Format.Walk.{Reaches}
use node_geoip2c.Binding.Js.{JsValue, Properties, get_from, get_property, is_undefined}
use node_geoip2c.Binding.Fields.{Field}
use node_geoip2c.Binding.Collect.{field_value}
use node_geoip2c.Binding.Collected.{Collects, selected}
use node_geoip2c.Binding.Asked.{options_of}
use node_geoip2c.Binding.Shared.{IsShared}
use node_geoip2c.Binding.Answered.{Answered, lookup_ip-Answered}
use node_geoip2c.Binding.Shown.{Becomes, IsLittleEndian, field_value-Becomes}
use node_geoip2c.Binding.Lawful.{IsBounded, libmaxminddb-KeepsOpen}
use node_geoip2c.Binding.Libmaxminddb.{System, libmaxminddb}
use node_geoip2c.Binding.Lookup.{argument, lookup_ip}
use node_geoip2c.Binding.Completion.{
  Globals, Slot, put_slot, is_open, Library, Platform, returns, ignoring_status,
}

-- The field is in the list, behind fields with other labels.
pub data Has (field : Field) : List Field → Type 0 where
  here : {fields : List Field} → Has field (field ∷ fields)
  there :
      {other : Field} {fields : List Field}
      → bytes_eq other.label field.label ≡ false
      → Has field fields
      → Has field (other ∷ fields)

returns-injective {ℓ} : {A : Type ℓ} {a b : A} → returns a ≡ returns b → a ≡ b
returns-injective h = cc

module _ (env : Platform) (lib : Library) (g : Globals) (m : Mmdb) (offset : ℕ) where
  -- The value of a field is found under its label.
  get_property-Collects :
      (field : Field) {fields : List Field} {o : Properties} (v : JsValue)
      → Collects env lib g m offset fields o
      → Has field fields
      → field_value env lib g m offset field ≡ returns v
      → get_property field.label o ≡ v
  unfolding get_property
  get_property-Collects field v Collects.nil has is = elim has [ ]
  get_property-Collects field v (Collects.cons shown collects) Has.here is =
      rw (bytes_eq_refl field.label) (returns-injective (sym shown ∙ is))
  get_property-Collects field v (Collects.cons shown collects) (Has.there other has) is =
      rw other (get_property-Collects field v collects has is)

module _ (env : Platform) (order : IsLittleEndian env.word) (system : System)
    (grants : (n : ℕ) → system.malloc n ≡ true) where
  -- Where the city's database is open, lookupIp was asked for the country or the city and returns an
  -- object, and MMDB_lookup_string finds an entry in that database, whose data section of bytes, 32 MiB
  -- short of the range of uint32_t, holds the value d there as the format lays it out: the object
  -- has an object under the key, and in it a field that the mask selects has what the value at the
  -- end of its path in d becomes in JavaScript. Memory is granted and the union is little-endian.
  pub lookup_ip-Becomes :
      {key : List ℕ} {fields : List Field} (args : List JsValue) (g g' : Globals) (o : Properties)
      (a : StringAnswer) (d : Datum) (next : ℕ) (field : Field) (r : Option Datum) (v : JsValue)
      → IsShared key fields
      → is_open g.mmdb_city ≡ true
      → is_undefined (get_from (options_of args) key) ≡ false
      → lookup_ip env (libmaxminddb system) args g ≡ returns (g', JsValue.object o)
      → ignoring_status (
          lookup_string system.getaddrinfo g.mmdb_city
            (env.to_utf8 (argument args 0))
            env.stale_error)
        ≡ returns a
      → a.found.result.found_entry ≡ true
      → IsBounded a.found.mmdb
      → Datum.Field a.found.mmdb d a.found.result.offset next
      → Has field (selected (env.uint32_value (get_from (options_of args) key)) fields)
      → Reaches d field.path r
      → Becomes (put_slot Slot.city a.found.mmdb g) field.member r (returns v)
      → (filled : Properties) × (get_property key o ≡ JsValue.object filled)
        × (get_property field.label filled ≡ v)
  lookup_ip-Becomes {key} {fields} args g g' o a d next field r v shared opened asked h answered
        found bounded lies has reaches becomes =
      let (a', answered', shown) =
        lookup_ip-Answered env (libmaxminddb system) (libmaxminddb-KeepsOpen system) args g g' o
          shared opened asked h in
      let same = returns-injective (sym answered' ∙ answered) in
      elim (subst
        (λ x.
          Answered env (libmaxminddb system) (libmaxminddb-KeepsOpen system) (options_of args) key
            fields g x o)
        same shown) [
          | inl (none_found, _) ↦ cc
          | inr (_, (filled, under, collects)) ↦ (
            filled,
            under,
            get_property-Collects env (libmaxminddb system) (put_slot Slot.city a.found.mmdb g)
                a.found.mmdb a.found.result.offset field v collects has
                (field_value-Becomes env order (put_slot Slot.city a.found.mmdb g) a.found.mmdb
                  system field d a.found.result.offset next r (returns v) bounded.limit
                  bounded.bytes (grants ((length field.path + 1) * 8)) lies reaches becomes),
          )
        ]
