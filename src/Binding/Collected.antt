-- ===== src/Binding/Collected.antt =====
-- What filling an object leaves in it: the fields that the mask selects, in their order.
use node_geoip2c.Base.{
  ℕ, ◌≡◌, refl, sym, ap, ◌∙◌, subst, Bool, true, false, ◌&&◌, ◌||◌, not, List, [], ◌∷◌, ◌++◌,
  bytes_eq, bytes_eq-eq, bytes_eq_refl, Bool-cases, inl, inr, if◌then◌else◌,
}
use node_geoip2c.Types.{Mmdb}
use node_geoip2c.Binding.Js.{JsValue, Properties, no_properties, property, set_property, keys}
use node_geoip2c.Binding.Fields.{Field, is_set}
use node_geoip2c.Binding.Collect.{field_value, collect}
use node_geoip2c.Binding.Completion.{
  Globals, Library, Platform, Completion, returns, throws, crashes, hangs, ◌>>=◌,
}

-- The fields whose bit is set.
abbrev pub selected : ℕ → List Field → List Field
selected t [] = []
selected t (field ∷ fields) =
    let rest = selected t fields in if is_set t field.mask then field ∷ rest else rest

abbrev pub labels : List Field → List (List ℕ)
labels [] = []
labels (field ∷ fields) = field.label ∷ labels fields

abbrev pub has_key : List ℕ → List (List ℕ) → Bool
has_key k [] = false
has_key k (j ∷ ks) = bytes_eq j k || has_key k ks

-- No label stands twice.
abbrev pub are_distinct : List (List ℕ) → Bool
are_distinct [] = true
are_distinct (k ∷ ks) = not (has_key k ks) && are_distinct ks

abbrev append : Properties → Properties → Properties
append no_properties o = o
append (property k v rest) o = property k v (append rest o)

-- Each of the fields with its value, in their order.
pub data Collects (env : Platform) (lib : Library) (g : Globals) (m : Mmdb) (offset : ℕ)
    : List Field → Properties → Type 0 where
  nil : Collects env lib g m offset [] no_properties
  cons :
      {field : Field} {fields : List Field} {value : JsValue} {rest : Properties}
      → field_value env lib g m offset field ≡ returns value
      → Collects env lib g m offset fields rest
      → Collects env lib g m offset (field ∷ fields) (property field.label value rest)

append_assoc : (a b c : Properties) → append (append a b) c ≡ append a (append b c)
append_assoc no_properties b c = refl
append_assoc (property k v a) b c = ap (λ r. property k v r) (append_assoc a b c)

append_nil : (a : Properties) → append a no_properties ≡ a
append_nil no_properties = refl
append_nil (property k v a) = ap (λ r. property k v r) (append_nil a)

keys-append : (a b : Properties) → keys (append a b) ≡ keys a ++ keys b
keys-append no_properties b = refl
keys-append (property k v a) b = ap (λ r. k ∷ r) (keys-append a b)

append_list_assoc : (a b c : List (List ℕ)) → (a ++ b) ++ c ≡ a ++ (b ++ c)
append_list_assoc [] b c = refl
append_list_assoc (x ∷ a) b c = ap (λ r. x ∷ r) (append_list_assoc a b c)

-- A new key is set behind the others.
set_property_new :
    (k : List ℕ) (v : JsValue) (o : Properties)
    → has_key k (keys o) ≡ false
    → set_property k v o ≡ append o (property k v no_properties)
unfolding set_property
set_property_new k v no_properties h = refl
set_property_new k v (property j w o) h = elim (Bool-cases (bytes_eq j k)) [
  | inl same ↦ let bad = rw same at h in cc
  | inr other ↦ rw other (ap (λ r. property j w r) (set_property_new k v o (rw other at h)))
]

has_key-append :
    (k : List ℕ) (xs ys : List (List ℕ))
    → has_key k (xs ++ ys) ≡ false
    → (has_key k xs ≡ false) × (has_key k ys ≡ false)
has_key-append k [] ys h = (refl, h)
has_key-append k (x ∷ xs) ys h = elim (Bool-cases (bytes_eq x k)) [
  | inl same ↦ let bad = rw same at h in cc
  | inr other ↦ rw other (has_key-append k xs ys (rw other at h))
]

and-true : (a b : Bool) → (a && b) ≡ true → (a ≡ true) × (b ≡ true)
and-true true b h = (refl, h)
and-true false b h = cc

not-true : (a : Bool) → not a ≡ true → a ≡ false
not-true true h = cc
not-true false h = refl

bytes_eq_sym : (a b : List ℕ) → bytes_eq a b ≡ false → bytes_eq b a ≡ false
bytes_eq_sym a b h = elim (Bool-cases (bytes_eq b a)) [
  | inr other ↦ other
  | inl same ↦
      let bad = subst (λ x. bytes_eq a x ≡ false) (bytes_eq-eq b a same) h in
      cc (bad, bytes_eq_refl a)
]

-- In a list without repetitions a key is not among those before it.
are_distinct-before :
    (xs : List (List ℕ)) (k : List ℕ) (ys : List (List ℕ))
    → are_distinct (xs ++ (k ∷ ys)) ≡ true
    → has_key k xs ≡ false
are_distinct-before [] k ys h = refl
are_distinct-before (x ∷ xs) k ys h =
    let (new, rest) = and-true (not (has_key x (xs ++ (k ∷ ys)))) _ h in
    let (_, after) = has_key-append x xs (k ∷ ys) (not-true _ new) in
    let later = are_distinct-before xs k ys rest in
    elim (Bool-cases (bytes_eq k x)) [
      | inl same ↦ let bad = rw same at after in cc
      | inr other ↦ rw (bytes_eq_sym k x other) later
    ]

-- It stays without repetitions where one key is left out.
are_distinct-without :
    (xs : List (List ℕ)) (k : List ℕ) (ys : List (List ℕ))
    → are_distinct (xs ++ (k ∷ ys)) ≡ true
    → are_distinct (xs ++ ys) ≡ true
are_distinct-without [] k ys h = (and-true (not (has_key k ys)) _ h).1
are_distinct-without (x ∷ xs) k ys h =
    let (new, rest) = and-true (not (has_key x (xs ++ (k ∷ ys)))) _ h in
    rw (has_key-without x xs k ys (not-true _ new)) (are_distinct-without xs k ys rest)
  where
    has_key-without :
        (x : List ℕ) (xs : List (List ℕ)) (k : List ℕ) (ys : List (List ℕ))
        → has_key x (xs ++ (k ∷ ys)) ≡ false
        → has_key x (xs ++ ys) ≡ false
    has_key-without x [] k ys h = elim (Bool-cases (bytes_eq k x)) [
      | inl same ↦ let bad = rw same at h in cc
      | inr other ↦ rw other at h
    ]
    has_key-without x (z ∷ xs) k ys h = elim (Bool-cases (bytes_eq z x)) [
      | inl same ↦ let bad = rw same at h in cc
      | inr other ↦ rw other (has_key-without x xs k ys (rw other at h))
    ]

pub >>=-eq-returns {ℓ κ} :
    {A : Type ℓ} {B : Type κ} (r : Completion A) (k : A → Completion B) {b : B}
    → (r >>= k) ≡ returns b
    → (a : A) × (r ≡ returns a) × (k a ≡ returns b)
>>=-eq-returns (returns a) k h = (a, refl, h)
>>=-eq-returns (throws message g) k h = cc
>>=-eq-returns crashes k h = cc
>>=-eq-returns hangs k h = cc

returns-injective : {a b : Properties} → returns a ≡ returns b → b ≡ a
returns-injective h = cc

module _ (env : Platform) (lib : Library) (g : Globals) (m : Mmdb) (offset t : ℕ) where
  collect_behind :
      (fields : List Field) (o r : Properties)
      → are_distinct (keys o ++ labels fields) ≡ true
      → collect env lib g m offset t fields o ≡ returns r
      → (rest : Properties) × (r ≡ append o rest)
        × Collects env lib g m offset (selected t fields) rest
  unfolding collect
  collect_behind [] o r distinct h =
      let ends : r ≡ append o no_properties = returns-injective h ∙ sym (append_nil o) in
      (no_properties, ends, Collects.nil)
  collect_behind (field ∷ fields) o r distinct h = elim (Bool-cases (is_set t field.mask)) [
    | inr clear ↦ rw clear (
        collect_behind fields o r (are_distinct-without (keys o) field.label _ distinct)
          (rw clear at h))
    | inl set ↦
        let (value, shown, later) =
          >>=-eq-returns (field_value env lib g m offset field) _ (rw set at h) in
        let last = property field.label value no_properties in
        let behind =
          set_property_new field.label value o
            (are_distinct-before (keys o) field.label _ distinct) in
        let (rest, same, collects) =
          collect_behind fields (append o last) r
            (subst (λ ks. are_distinct ks ≡ true)
              (sym (append_list_assoc (keys o) (field.label ∷ []) (labels fields))
                ∙ ap (λ ks. ks ++ labels fields) (sym (keys-append o last)))
              distinct)
            (subst (λ x. collect env lib g m offset t fields x ≡ returns r) behind later) in
        rw set (
          property field.label value rest,
          same ∙ append_assoc o last rest,
          Collects.cons shown collects,
        )
  ]

  -- An object that is filled from fields with distinct labels has just the fields whose bit the
  -- mask has, in their order, each with the value that its macro sets.
  pub collect-Collects :
      (fields : List Field) (r : Properties)
      → are_distinct (labels fields) ≡ true
      → collect env lib g m offset t fields no_properties ≡ returns r
      → Collects env lib g m offset (selected t fields) r
  collect-Collects fields r distinct h =
      let (rest, same, collects) = collect_behind fields no_properties r distinct h in
      subst (λ x. Collects env lib g m offset (selected t fields) x) (sym same) collects
