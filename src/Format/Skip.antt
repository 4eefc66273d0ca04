-- ===== src/Format/Skip.antt =====
-- skip_map_or_array moves from an entry to what follows its value.
use node_geoip2c.Base.{ℕ, zero, suc, ◌≤◌, ◌≡◌, refl, sym, subst, arith}
use node_geoip2c.Types.{Outcome, success, stuck, ◌>>=◌, Mmdb, EntryData, data_byte}
use node_geoip2c.Decode.{decode_one}
use node_geoip2c.Decode.Bounds.{ReadsBytes, data_section_limit}
use node_geoip2c.Path.{skip_pairs, skip_items, skip_nested, skip_map_or_array}
use node_geoip2c.Path.Fuel.{skip_map_or_array-ne-stuck}
use node_geoip2c.Format.Value.{decode_one-Holds, decode_one-HasPointer}
use node_geoip2c.Format.Datum.{Describes, items_count, pairs_count}
use node_geoip2c.Base.{true, false, List, ◌==◌}
use node_geoip2c.Format.Datum.{Datum, Field, HoldsItems, HoldsPairs, Items, NumberType, Pairs}

-- The call has come to what follows the field, or has run out of fuel.
pub data Skipped (next : ℕ) (r : Outcome EntryData) : Type 0 where
  skipped : (e : EntryData) → r ≡ success e → e.offset_to_next ≡ next → Skipped next r
  exhausted : r ≡ stuck → Skipped next r

Skipped-bind :
    (r : Outcome EntryData) (k : EntryData → Outcome EntryData) {next beyond : ℕ}
    → Skipped next r
    → ((e : EntryData) → e.offset_to_next ≡ next → Skipped beyond (k e))
    → Skipped beyond (r >>= k)
Skipped-bind r k (skipped e ends at) f = rw ends (f e at)
Skipped-bind r k (exhausted ends) f = rw ends (exhausted refl)

-- An entry of a field: it stands for the field's value, or for its pointer.
pub data IsField (m : Mmdb) (e : EntryData) (next : ℕ) : Type 0 where
  value : (d : Datum) → Describes m e d next → IsField m e next
  pointer : e.type ≡ 1 → e.offset_to_next ≡ next → IsField m e next

module _ (m : Mmdb) (limit : m.data_section_size ≤ data_section_limit) where
  pub decode_one-Field :
      {d : Datum} {offset next : ℕ} (e : EntryData)
      → Field m d offset next
      → (e' : EntryData) × (decode_one m offset e ≡ success e') × IsField m e' next
  decode_one-Field {d} e (Field.direct holds) =
      let (e', ends, describes) = decode_one-Holds m limit e holds in (e', ends, value d describes)
  decode_one-Field e (Field.pointed p holds) =
      let (e', ends, type, _, after) = decode_one-HasPointer m limit e p in
      (e', ends, pointer type after)

  decode_one-key :
      {k : List ℕ} {offset next : ℕ} (e : EntryData)
      → Field m (Datum.text k) offset next
      → (e' : EntryData) × (decode_one m offset e ≡ success e') × (e'.offset_to_next ≡ next)
  decode_one-key e (Field.direct holds) =
      let (e', ends, (_, _, _, at)) = decode_one-Holds m limit e holds in (e', ends, at)
  decode_one-key e (Field.pointed p holds) =
      let (e', ends, _, _, at) = decode_one-HasPointer m limit e p in (e', ends, at)

  module _ (skip_value : EntryData → Outcome EntryData)
      (skips : (e : EntryData) (next : ℕ) → IsField m e next → Skipped next (skip_value e)) where
    skip-Field :
        {d : Datum} {offset next beyond : ℕ} (e : EntryData) (k : EntryData → Outcome EntryData)
        → e.offset_to_next ≡ offset
        → Field m d offset next
        → ((e' : EntryData) → e'.offset_to_next ≡ next → Skipped beyond (k e'))
        → Skipped beyond (decode_one m e.offset_to_next e >>= λ v. skip_value v >>= k)
    skip-Field {next = next} {beyond = beyond} e k at field rest =
        let (v, ends, is_field) = decode_one-Field e field in
        subst (λ o. Skipped beyond (decode_one m o e >>= λ v. skip_value v >>= k)) (sym at)
          (rw ends (Skipped-bind (skip_value v) k (skips v next is_field) rest))

    skip_items-HoldsItems :
        {ds : Items} {offset next : ℕ} (e : EntryData)
        → HoldsItems m ds offset next
        → e.offset_to_next ≡ offset
        → Skipped next (skip_items skip_value m (items_count ds) e)
    unfolding skip_items
    skip_items-HoldsItems e HoldsItems.nil at = skipped e refl at
    skip_items-HoldsItems e (HoldsItems.cons {ds = ds} field items) at =
        skip-Field e (skip_items skip_value m (items_count ds)) at field
          λ e' at'. skip_items-HoldsItems e' items at'

    skip_pairs-HoldsPairs :
        {ps : Pairs} {offset next : ℕ} (e : EntryData)
        → HoldsPairs m ps offset next
        → e.offset_to_next ≡ offset
        → Skipped next (skip_pairs skip_value m (pairs_count ps) e)
    unfolding skip_pairs
    skip_pairs-HoldsPairs e HoldsPairs.end at = skipped e refl at
    skip_pairs-HoldsPairs {next = beyond} e (HoldsPairs.pair {k} {d} {ps} key field pairs) at =
        let rest = skip_pairs skip_value m (pairs_count ps) in
        let (e', ends, at') = decode_one-key e key in
        subst
          (λ o. Skipped beyond (
            decode_one m o e >>= λ k'.
            decode_one m k'.offset_to_next k' >>= λ v. skip_value v >>= rest))
          (sym at)
          (rw ends (skip-Field e' rest at' field λ e'' at''. skip_pairs-HoldsPairs e'' pairs at''))

  -- Where the entry is no map and no array, nothing is skipped.
  skip_simple :
      (fuel : ℕ) (e : EntryData) (next : ℕ)
      → (e.type == 7) ≡ false
      → (e.type == 11) ≡ false
      → e.offset_to_next ≡ next
      → Skipped next (skip_nested (suc fuel) m e)
  unfolding skip_nested
  skip_simple fuel e next no_map no_array at = rw (no_map, no_array) (skipped e refl at)

  module _ (fuel : ℕ)
      (skips : (e : EntryData) (next : ℕ)
        → IsField m e next
        → Skipped next (skip_nested fuel m e)) where
    skip_value-Describes :
        (e : EntryData) (d : Datum) (next : ℕ)
        → Describes m e d next
        → Skipped next (skip_nested (suc fuel) m e)
    unfolding skip_nested
    skip_value-Describes e (Datum.text bs) next (t, _, _, at) =
        skip_simple fuel e next (ground arith) (ground arith) at
    skip_value-Describes e (Datum.blob bs) next (t, _, _, at) =
        skip_simple fuel e next (ground arith) (ground arith) at
    skip_value-Describes e (Datum.number NumberType.uint16 v) next (t, _, at) =
        skip_simple fuel e next (ground arith) (ground arith) at
    skip_value-Describes e (Datum.number n v) next (t, _, at) =
        skip_simple fuel e next (ground arith) (ground arith) at
    skip_value-Describes e (Datum.float v) next (t, _, at) =
        skip_simple fuel e next (ground arith) (ground arith) at
    skip_value-Describes e (Datum.double v) next (t, _, at) =
        skip_simple fuel e next (ground arith) (ground arith) at
    skip_value-Describes e (Datum.boolean b) next (t, _, at) =
        skip_simple fuel e next (ground arith) (ground arith) at
    skip_value-Describes e (Datum.map ps) next (t, n, pairs) =
        let is_map : (e.type == 7) ≡ true = ground arith in
        rw is_map (
          subst (λ c. Skipped next (skip_pairs (λ v. skip_nested fuel m v) m c e)) (sym n)
            (skip_pairs-HoldsPairs (λ v. skip_nested fuel m v) skips e pairs refl))
    skip_value-Describes e (Datum.array ds) next (t, n, items) =
        let no_map : (e.type == 7) ≡ false = ground arith in
        let is_array : (e.type == 11) ≡ true = ground arith in
        rw (no_map, is_array)
          (subst (λ c. Skipped next (skip_items (λ v. skip_nested fuel m v) m c e)) (sym n)
            (skip_items-HoldsItems (λ v. skip_nested fuel m v) skips e items refl))

  skip_nested-IsField :
      (fuel : ℕ) (e : EntryData) (next : ℕ) → IsField m e next → Skipped next (skip_nested fuel m e)
  skip_nested-IsField zero e next f = unfold skip_nested in exhausted refl
  skip_nested-IsField (suc fuel) e next (pointer type at) =
      skip_simple fuel e next (ground arith) (ground arith) at
  skip_nested-IsField (suc fuel) e next (value d describes) =
      skip_value-Describes fuel (skip_nested-IsField fuel) e d next describes

  -- On the entry of a value that the format lays out, or of a pointer, skip_map_or_array succeeds
  -- and moves to what follows that value or pointer, on a data section of bytes that is 32 MiB
  -- short of the range of uint32_t.
  pub skip_map_or_array-IsField :
      ReadsBytes (data_byte m)
      → (e : EntryData) (next : ℕ) → IsField m e next
      → (e' : EntryData) × (skip_map_or_array m e ≡ success e') × (e'.offset_to_next ≡ next)
  unfolding skip_map_or_array
  skip_map_or_array-IsField bytes e next f =
      elim (skip_nested-IsField (suc (suc m.data_section_size)) e next f) [
        | skipped e' ends at ↦ (e', ends, at)
        | exhausted ends ↦ absurd (skip_map_or_array-ne-stuck m bytes limit e ends)
      ]
