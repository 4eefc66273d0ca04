-- ===== src/Binding/Objects.antt =====
-- Setting and getting properties of an object.
use node_geoip2c.Base.{
  ℕ, ◌≡◌, refl, sym, ap, ◌∙◌, subst, Bool, true, false, List, bytes_eq, bytes_eq-eq, bytes_eq_refl,
  if◌then◌else◌, Bool-cases, inl, inr, ◌⊎◌,
}
use node_geoip2c.Binding.Js.{
  JsValue, Properties, no_properties, property, set_property, get_property, keys,
}
use node_geoip2c.Binding.Collected.{has_key}

bytes_eq_trans : (i j k : List ℕ) → bytes_eq i k ≡ true → bytes_eq k j ≡ bytes_eq i j
bytes_eq_trans i j k h = ap (λ x. bytes_eq x j) (sym (bytes_eq-eq i k h))

-- A property that was set has its value, and every other one the value that it had.
pub get_property-set_property :
    (j k : List ℕ) (v : JsValue) (o : Properties)
    → get_property j (set_property k v o) ≡ (if bytes_eq k j then v else get_property j o)
unfolding get_property set_property
get_property-set_property j k v no_properties = refl
get_property-set_property j k v (property i w o) = elim (Bool-cases (bytes_eq i k)) [
  | inl same ↦ rw (same, bytes_eq_trans i j k same) (if_same (bytes_eq i j) v (get_property j o) w)
  | inr other ↦ rw other (elim (Bool-cases (bytes_eq i j)) [
    | inl here ↦ rw (here, bytes_eq_sym i k j here other) refl
    | inr there ↦ rw there (get_property-set_property j k v o)
  ])
]
  where
    if_same :
        (b : Bool) (v o w : JsValue) → (if b then v else o) ≡ (if b then v else if b then w else o)
    if_same true v o w = refl
    if_same false v o w = refl

    bytes_eq_sym :
        (i k j : List ℕ) → bytes_eq i j ≡ true → bytes_eq i k ≡ false → bytes_eq k j ≡ false
    bytes_eq_sym i k j here other = elim (Bool-cases (bytes_eq k j)) [
      | inr no' ↦ no'
      | inl same ↦
          let i_j = bytes_eq-eq i j here in
          let k_j = bytes_eq-eq k j same in
          cc (subst (λ x. bytes_eq x k ≡ false) (i_j ∙ sym k_j) other, bytes_eq_refl k)
    ]

-- The keys of an object after one is set.
pub has_key-set_property :
    (j k : List ℕ) (v : JsValue) (o : Properties)
    → has_key j (keys (set_property k v o)) ≡ true
    → (k ≡ j) ⊎ (has_key j (keys o) ≡ true)
unfolding set_property
has_key-set_property j k v no_properties h = elim (Bool-cases (bytes_eq k j)) [
  | inl same ↦ inl (bytes_eq-eq k j same)
  | inr other ↦ let bad = rw other at h in cc
]
has_key-set_property j k v (property i w o) h = elim (Bool-cases (bytes_eq i k)) [
  | inl same ↦ inr (rw same at h)
  | inr other ↦ elim (Bool-cases (bytes_eq i j)) [
    | inl here ↦ inr (rw here refl)
    | inr there ↦ elim (has_key-set_property j k v o (rw there at (rw other at h))) [
      | inl set ↦ inl set
      | inr had ↦ inr (rw there had)
    ]
  ]
]
