-- ===== src/Binding/Answered.antt =====
-- The country and the city in the result of lookupIp.
use node_geoip2c.Base.{
  ℕ, ◌≡◌, refl, sym, ap, ◌∙◌, subst, ◌||◌, not, Bool, true, false, List, Bool-cases, inl, inr, ◌⊎◌,
  arith, Option,
}
use node_geoip2c.Types.{Mmdb, Error, LookupResult}
use node_geoip2c.Lookup.{StringAnswer}
use node_geoip2c.Binding.Js.{
  JsValue, Properties, no_properties, get_from, get_property, is_undefined, is_string,
}
use node_geoip2c.Binding.Constants
use node_geoip2c.Binding.Fields.{Field}
use node_geoip2c.Binding.Collected.{>>=-eq-returns}
use node_geoip2c.Binding.Asked.{options_of, checked_lookup-ip_data, same_frame, object_of}
use node_geoip2c.Binding.Lookup.{
  argument, lookup_ip, first_frame, collect_ip_data, Frame, checked_lookup, check_answer,
}
use node_geoip2c.Binding.Completion.{
  Globals, Slot, put_slot, is_open, Library, Platform, returns, ignoring_status,
}
use node_geoip2c.Binding.Located.{HasFields}
use node_geoip2c.Binding.Shared.{IsShared, blocks-HasFields}

-- A lookup does not close the database.
pub record KeepsOpen (lib : Library) : Type 0 where
  pub lookup_string :
      (m : Mmdb) (ip : List ℕ) (mmdb_error : Option Error) (a : StringAnswer)
      → ignoring_status (lib.lookup_string m ip mmdb_error) ≡ returns a
      → is_open a.found.mmdb ≡ is_open m

or_true : (b : Bool) → (b || true) ≡ true
or_true true = refl
or_true false = refl

module _ (env : Platform) (lib : Library) (keeps : KeepsOpen lib) where
  -- The databases after a lookup that gives the answer `a`.
  abbrev after : Globals → StringAnswer → Globals
  after g a = put_slot Slot.city a.found.mmdb g

  checked_lookup-answer :
      (ip : List ℕ) (f f' : Frame)
      → checked_lookup env lib Slot.city ip f ≡ returns f'
      → (a : StringAnswer) × (ignoring_status
            (lib.lookup_string f.globals.mmdb_city ip f.mmdb_error)
          ≡ returns a)
        × (f'.globals ≡ after f.globals a)
        × (f'.mmdb_result ≡ a.found.result)
  unfolding checked_lookup check_answer
  checked_lookup-answer ip f f' h =
      let looked = lib.lookup_string f.globals.mmdb_city ip f.mmdb_error in
      let (a, answered, r) = >>=-eq-returns (ignoring_status looked) _ h in
      (a, answered, ground arith, ground arith)

  -- What a lookup of a shared kind of data leaves in the result.
  abbrev pub Answered : JsValue → List ℕ → List Field → Globals → StringAnswer → Properties → Type 0
  Answered options key fields g a o =
      ((a.found.result.found_entry ≡ false) × (o ≡ no_properties))
      ⊎ ((a.found.result.found_entry ≡ true)
          × HasFields env lib (get_from options key) (after g a) a.found.result.offset fields
              (get_property key o))

  collect_ip_data-Answered :
      {key : List ℕ} {fields : List Field} (options : JsValue) (ip : List ℕ) (f f' : Frame)
      → IsShared key fields
      → f.ip_data ≡ no_properties
      → is_open f.globals.mmdb_city ≡ true
      → is_undefined (get_from options key) ≡ false
      → collect_ip_data env lib ip options f ≡ returns f'
      → (a : StringAnswer) × (ignoring_status
            (lib.lookup_string f.globals.mmdb_city ip f.mmdb_error)
          ≡ returns a)
        × Answered options key fields f.globals a f'.ip_data
  unfolding collect_ip_data
  collect_ip_data-Answered {key} {fields} options ip f f' shared empty opened asked h =
      let (found, looked, r) =
        >>=-eq-returns (checked_lookup env lib Slot.city ip f) _
          (rw (opened, wanted shared asked) at h) in
      let (a, answered, globals, result) = checked_lookup-answer ip f found looked in
      let stays = keeps.lookup_string f.globals.mmdb_city ip f.mmdb_error a answered in
      elim (Bool-cases found.mmdb_result.found_entry) [
        | inr none' ↦
            let same = same_frame (rw none' at r) in
            (
              a,
              answered,
              inl (
                ap (λ (x : LookupResult). x.found_entry) (sym result) ∙ none',
                ap (λ (x : Frame). x.ip_data) (sym same)
                    ∙ checked_lookup-ip_data env lib Slot.city ip f found looked
                    ∙ empty,
              ),
            )
        | inl entry ↦
            let shown =
              blocks-HasFields env lib options ip found f' shared
                (subst (λ (x : Globals). is_open x.mmdb_city ≡ true) (sym globals) (stays ∙ opened))
                asked (rw entry at r) in
            (
              a,
              answered,
              inr (
                ap (λ (x : LookupResult). x.found_entry) (sym result) ∙ entry,
                subst
                    (λ (x : LookupResult).
                      HasFields env lib (get_from options key) (after f.globals a) x.offset fields
                        (get_property key f'.ip_data))
                    result
                    (subst
                      (λ (x : Globals).
                        HasFields env lib (get_from options key) x found.mmdb_result.offset fields
                          (get_property key f'.ip_data))
                      globals shown),
              ),
            )
      ]
    where
      wanted :
          {key : List ℕ} {fields : List Field}
          → IsShared key fields
          → is_undefined (get_from options key) ≡ false
          → (not (is_undefined (get_from options Constants.lookup_key_country))
              || not (is_undefined (get_from options Constants.lookup_key_city)))
            ≡ true
      wanted IsShared.country asked = rw asked refl
      wanted IsShared.city asked =
          rw asked (or_true (not (is_undefined (get_from options Constants.lookup_key_country))))

  -- Where the city's database is open, a lookup leaves it open, and lookupIp was asked for the
  -- country or the city (by options with a value for the key, or by none) and returns an object:
  -- MMDB_lookup_string gave an answer for the address in that database. Without an entry the object
  -- is empty, whatever else was asked for. With an entry the object has, under the key, just the
  -- fields that the mask selects, in their order, each with the value that its macro sets from that
  -- entry.
  pub lookup_ip-Answered :
      {key : List ℕ} {fields : List Field} (args : List JsValue) (g g' : Globals) (o : Properties)
      → IsShared key fields
      → is_open g.mmdb_city ≡ true
      → is_undefined (get_from (options_of args) key) ≡ false
      → lookup_ip env lib args g ≡ returns (g', JsValue.object o)
      → (a : StringAnswer) × (ignoring_status
            (lib.lookup_string g.mmdb_city (env.to_utf8 (argument args 0)) env.stale_error)
          ≡ returns a)
        × Answered (options_of args) key fields g a o
  unfolding lookup_ip
  lookup_ip-Answered {key} {fields} args g g' o shared opened asked h =
      elim (Bool-cases (is_string (argument args 0))) [
        | inr refused ↦ let bad = rw refused at h in cc
        | inl text ↦
            let ip = env.to_utf8 (argument args 0) in
            let (f, collected, r) =
              >>=-eq-returns (collect_ip_data env lib ip (options_of args) (first_frame env lib g))
                _ (rw text at h) in
            let (a, answered, shown) =
              collect_ip_data-Answered (options_of args) ip (first_frame env lib g) f shared refl
                opened asked collected in
            (a, answered, subst (Answered (options_of args) key fields g a) (object_of r) shown)
      ]
