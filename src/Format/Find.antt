-- ===== src/Format/Find.antt =====
-- Members of maps and arrays: lookup_path_in_map and lookup_path_in_array find what the format
-- holds.
use node_geoip2c.Base.{Bool-cases, inl, inr, eq→==, bytes_eq, le→leb}
use node_geoip2c.Decode.Bounds.{ReadsBytes, data_section_limit}
use node_geoip2c.Format.At.{LiesAt, decode_one_follow-LiesAt}
use node_geoip2c.Format.Field.{decode_one_follow-Field, Reads}
use node_geoip2c.Format.Skip.{decode_one-Field, skip_map_or_array-IsField}
use node_geoip2c.Format.Datum.{Datum, Items, Pairs, Field, HoldsItems, HoldsPairs, Describes}
use node_geoip2c.Format.Datum.{items_count, pairs_count}
use node_geoip2c.Base.{
  ℕ, zero, suc, ◌+◌, ◌-◌, ◌*◌, ◌^◌, ◌≤◌, ◌<◌, ◌≡◌, refl, sym, ◌∙◌, subst, true, false, Option, none,
  some, List, [], ◌∷◌, arith, ltb, ◌==◌, if◌then◌else◌, length,
}
use node_geoip2c.Types.{EntryData, Error, Mmdb, Outcome, data_byte, failure, success, zeroed_entry}
use node_geoip2c.Strtol.{digits, is_digit, is_space, parse_digits, parse_sign, skip_space, strtol}
use node_geoip2c.Path.{element_at, find_key, key_matches, skip_to_index, text_of}

-- The value of the first pair with the key.
abbrev pub value_of : List ℕ → Pairs → Option Datum
value_of k Pairs.end = none
value_of k (Pairs.pair k' d ps) = if bytes_eq k k' then some d else value_of k ps

abbrev pub item_of : ℕ → Items → Option Datum
item_of i Items.nil = none
item_of zero (Items.cons d ds) = some d
item_of (suc i) (Items.cons d ds) = item_of i ds

-- The digits of `s` behind those of `value` spell `i`.
pub data Decimal : ℕ → List ℕ → ℕ → Type 0 where
  end : {i : ℕ} → Decimal i [] i
  digit :
      {value i n : ℕ} {s : List ℕ}
      → n < 10
      → Decimal (value * 10 + n) s i
      → Decimal value ((48 + n) ∷ s) i

-- The path element is a decimal number that an `int` holds.
pub record IsIndex (s : List ℕ) (i : ℕ) : Type 0 where
  pub first : ℕ
  pub rest : List ℕ
  pub is_digit_lem : first < 10
  pub spelled : s ≡ (48 + first) ∷ rest
  pub spells : Decimal 0 ((48 + first) ∷ rest) i
  pub int : i < 2 ^ 31

-- The call ends with an entry for the value, with the offset where it lies, or without one says that there is none.
abbrev pub Answers : Mmdb → Option Datum → Outcome EntryData → Type 0
Answers m none r = r ≡ failure Error.lookup_path_does_not_match_data zeroed_entry
Answers m (some d) r =
    (e : EntryData) × (beyond : ℕ) × (r ≡ success e) × Describes m e d beyond × LiesAt m d e

bytes_eq-length : (xs ys : List ℕ) → bytes_eq xs ys ≡ true → length xs ≡ length ys
bytes_eq-length [] [] h = refl
bytes_eq-length [] (y ∷ ys) h = cc
bytes_eq-length (x ∷ xs) [] h = cc
bytes_eq-length (x ∷ xs) (y ∷ ys) h = ground (arith, bytes_eq-length xs ys)

pub key_matches-text :
    (m : Mmdb) (k k' : List ℕ) (key : EntryData)
    → key.data_size ≡ length k'
    → text_of m key.value (length k') ≡ some k'
    → key_matches m k key ≡ some (bytes_eq k k')
unfolding key_matches
key_matches-text m k k' key size text =
    let here = subst (λ n. text_of m key.value n ≡ some k') (sym size) text in
    elim (Bool-cases (key.data_size == length k)) [
      | inl p ↦ rw (p, here) refl
      | inr p ↦ ground (arith, bytes_eq-length k k')
    ]

digits-Decimal : (value i : ℕ) (s : List ℕ) → Decimal value s i → digits value s ≡ (i, [])
unfolding digits is_digit
digits-Decimal value i [] Decimal.end = refl
digits-Decimal value i (c ∷ s) (Decimal.digit {n = n} small rest) =
    let low = le→leb 48 (48 + n) (omega arith) in
    let high = le→leb (48 + n) 57 (omega arith) in
    let same : 48 + n - 48 ≡ n = omega arith in
    rw (low, high, same) (digits-Decimal (value * 10 + n) i s rest)

pub strtol-IsIndex :
    (s : List ℕ) (i : ℕ)
    → IsIndex s i
    → strtol s ≡ record { negative = false; magnitude = i; first_invalid = []; erange = false }
unfolding strtol parse_sign parse_digits skip_space
strtol-IsIndex s i h =
    let n = h.first in
    let small = h.is_digit_lem in
    let not_space : is_space (48 + n) ≡ false = unfold is_space in ground arith in
    let no_minus : (48 + n == 45) ≡ false = ground arith in
    let no_plus : (48 + n == 43) ≡ false = ground arith in
    let is : is_digit (48 + n) ≡ true = unfold is_digit in ground arith in
    let within : ltb (2 ^ 63 - 1) i ≡ false = ground (arith, h.int) in
    subst
      (λ t.
        strtol t ≡ record { negative = false; magnitude = i; first_invalid = []; erange = false })
      (sym h.spelled)
      (rw (not_space, no_minus, no_plus, digits-Decimal 0 i _ h.spells, is, within) refl)

module _ (m : Mmdb) (limit : m.data_section_size ≤ data_section_limit)
    (bytes : ReadsBytes (data_byte m)) (stale : EntryData) where
  pub find_key-HoldsPairs :
      (k : List ℕ) (e : EntryData) {ps : Pairs} {offset beyond : ℕ}
      → HoldsPairs m ps offset beyond
      → Answers m (value_of k ps) (find_key stale k m e (pairs_count ps) offset)
  unfolding find_key
  find_key-HoldsPairs k e HoldsPairs.end = refl
  find_key-HoldsPairs k e
        (HoldsPairs.pair {k = k'} {d} {ps} {offset} {value} {next} key_field field pairs) =
      let key : Reads m limit offset value (Datum.text k') _ =
        decode_one_follow-Field m limit stale key_field in
      let (type, size, text, at) = key.describes in
      let is_text : (key.entry.type == 2) ≡ true = eq→== _ 2 type in
      let matches = key_matches-text m k k' key.entry size text in
      let here = subst (λ o. Field m d o next) (sym (at ∙ key.simple refl)) field in
      elim (Bool-cases (bytes_eq k k')) [
        | inl p ↦
            let found = decode_one_follow-Field m limit stale here in
            rw (p, key.ends, is_text, matches, p, found.ends)
              (
                found.entry,
                found.beyond,
                refl,
                found.describes,
                decode_one_follow-LiesAt m limit bytes stale found.entry here found.ends,
              )
        | inr p ↦
            let (v, ends, is_field) = decode_one-Field m limit stale here in
            let (after, skipped, at') = skip_map_or_array-IsField m limit bytes v next is_field in
            rw (p, key.ends, is_text, matches, p, ends, skipped, at')
              (find_key-HoldsPairs k e pairs)
      ]

  pub element_at-HoldsItems :
      (index : ℕ) (e : EntryData) {ds : Items} {offset beyond : ℕ}
      → HoldsItems m ds offset beyond
      → e.offset_to_next ≡ offset
      → index < items_count ds
      → Answers m (item_of index ds) (element_at stale m index e)
  unfolding element_at skip_to_index
  element_at-HoldsItems index e HoldsItems.nil at inside = absurd (omega arith)
  element_at-HoldsItems zero e (HoldsItems.cons {d} {ds} {offset} {next} field items) at inside =
      let here = subst (λ o. Field m d o next) (sym at) field in
      let found = decode_one_follow-Field m limit stale here in
      rw found.ends (
        found.entry,
        found.beyond,
        refl,
        found.describes,
        decode_one_follow-LiesAt m limit bytes stale found.entry here found.ends,
      )
  element_at-HoldsItems (suc index) e (HoldsItems.cons {d} {ds} {offset} {next} field items) at
        inside =
      let (v, ends, is_field) =
        decode_one-Field m limit e (subst (λ o. Field m d o next) (sym at) field) in
      let (after, skipped, at') = skip_map_or_array-IsField m limit bytes v next is_field in
      rw (ends, skipped) (element_at-HoldsItems index after items at' (omega arith))
