-- ===== src/Format/Walk.antt =====
-- MMDB_aget_value finds the value that a path leads to in the format.
use node_geoip2c.Base.{ℕ, zero, suc, ◌^◌, ◌≤◌, ◌≡◌, refl, sym, subst, arith}
use node_geoip2c.Base.{true, false, Option, none, some, List, [], ◌∷◌, ◌==◌, leb}
use node_geoip2c.Base.{Bool-cases, inl, inr, u32, lt→not-leb}
use node_geoip2c.Decode.Bounds.{ReadsBytes, data_section_limit}
use node_geoip2c.Strtol.{int_bits}
use node_geoip2c.Path.{path_step, walk_path, aget_value}
use node_geoip2c.Format.At.{LiesAt, decode_one_follow-LiesAt}
use node_geoip2c.Format.Field.{decode_one_follow-Field, is_simple, Describes-type}
use node_geoip2c.Format.Find.{
  value_of, item_of, IsIndex, Answers, strtol-IsIndex, find_key-HoldsPairs,
}
use node_geoip2c.Format.Find.{element_at-HoldsItems}
use node_geoip2c.Path.HasData.{decode_one_follow-has_data}
use node_geoip2c.Types.{EntryData, Mmdb, Outcome, data_byte, zeroed_entry}
use node_geoip2c.Path.{find_key, lookup_path_in_array, lookup_path_in_map, zero_on_failure}
use node_geoip2c.Format.Datum.{Datum, Describes, Field, HoldsItems, Items, Pairs, items_count}

-- The member of a value that one path element names: a key of a map, a decimal index of an array.
pub data Selects : Datum → List ℕ → Option Datum → Type 0 where
  key : {ps : Pairs} {k : List ℕ} → Selects (Datum.map ps) k (value_of k ps)
  index :
      {ds : Items} {s : List ℕ} {i : ℕ} → IsIndex s i → Selects (Datum.array ds) s (item_of i ds)
  leaf : {d : Datum} {s : List ℕ} → is_simple d ≡ true → Selects d s none

-- The value at the end of a path, or `none` where a member on the way is missing.
pub data Reaches : Datum → List (List ℕ) → Option Datum → Type 0 where
  here : {d : Datum} → Reaches d [] (some d)
  step :
      {d d' : Datum} {s : List ℕ} {path : List (List ℕ)} {r : Option Datum}
      → Selects d s (some d')
      → Reaches d' path r
      → Reaches d (s ∷ path) r
  missing :
      {d : Datum} {s : List ℕ} {path : List (List ℕ)} → Selects d s none → Reaches d (s ∷ path) none

Answers-zero_on_failure :
    (m : Mmdb) (r : Option Datum) (o : Outcome EntryData)
    → Answers m r o
    → Answers m r (zero_on_failure o)
Answers-zero_on_failure m none o h = rw h refl
Answers-zero_on_failure m (some d) o (e, beyond, ends, describes, lies) =
    rw ends (e, beyond, refl, describes, lies)

item_of-none : (i : ℕ) (ds : Items) → items_count ds ≤ i → item_of i ds ≡ none
item_of-none i Items.nil h = refl
item_of-none zero (Items.cons d ds) h = absurd (omega arith)
item_of-none (suc i) (Items.cons d ds) h = item_of-none i ds (omega arith)

module _ (m : Mmdb) (limit : m.data_section_size ≤ data_section_limit)
    (bytes : ReadsBytes (data_byte m)) (stale : EntryData) where
  lookup_path_in_array-IsIndex :
      (s : List ℕ) (i : ℕ) (e : EntryData) (ds : Items) {beyond : ℕ}
      → IsIndex s i
      → e.data_size ≡ items_count ds
      → HoldsItems m ds e.offset_to_next beyond
      → Answers m (item_of i ds) (zero_on_failure (lookup_path_in_array stale s m e))
  unfolding lookup_path_in_array int_bits
  lookup_path_in_array-IsIndex s i e ds spelled size items =
      let low = lt→not-leb (2 ^ 31) i spelled.int in
      let same : u32 i ≡ i = omega (arith, spelled.int) in
      elim (Bool-cases (leb e.data_size i)) [
        | inl p ↦
            rw (strtol-IsIndex s i spelled, same, low, p, item_of-none i ds (ground arith)) refl
        | inr p ↦
            rw (strtol-IsIndex s i spelled, same, low, p)
              (Answers-zero_on_failure m _ _
                (element_at-HoldsItems m limit bytes stale i e items refl (ground arith)))
      ]

  path_step-Selects :
      (s : List ℕ) (e : EntryData) (d : Datum) (beyond : ℕ) {r : Option Datum}
      → Selects d s r
      → Describes m e d beyond
      → Answers m r (path_step stale m s e)
  unfolding path_step lookup_path_in_map
  path_step-Selects s e d beyond (Selects.key {ps}) (type, size, pairs) =
      let no_array : (e.type == 11) ≡ false = ground arith in
      let is_map : (e.type == 7) ≡ true = ground arith in
      let found = find_key-HoldsPairs m limit bytes stale s e pairs in
      rw (no_array, is_map)
        (Answers-zero_on_failure m _ _ (
          subst (λ n. Answers m (value_of s ps) (find_key stale s m e n e.offset_to_next))
            (sym size) found))
  path_step-Selects s e d beyond (Selects.index {ds} {i = i} spelled) (type, size, items) =
      let is_array : (e.type == 11) ≡ true = ground arith in
      rw is_array (lookup_path_in_array-IsIndex s i e ds spelled size items)
  path_step-Selects s e d beyond (Selects.leaf simple) describes =
      let (_, compound) = Describes-type m e d beyond describes in
      let no_array : (e.type == 11) ≡ false = ground arith in
      let no_map : (e.type == 7) ≡ false = ground arith in rw (no_array, no_map) refl

  walk_path-Reaches :
      (path : List (List ℕ)) (e : EntryData) (d : Datum) (beyond : ℕ) {r : Option Datum}
      → Describes m e d beyond
      → LiesAt m d e
      → Reaches d path r
      → Answers m r (walk_path stale m path e)
  unfolding walk_path
  walk_path-Reaches path e d beyond describes lies Reaches.here = (e, beyond, refl, describes, lies)
  walk_path-Reaches (s ∷ path) e d beyond describes lies (Reaches.step {d' = d'} selects reaches) =
      let (e', beyond', ends, describes', lies') =
        path_step-Selects s e d beyond selects describes in
      rw ends (walk_path-Reaches path e' d' beyond' describes' lies' reaches)
  walk_path-Reaches (s ∷ path) e d beyond describes lies (Reaches.missing selects) =
      rw (path_step-Selects s e d beyond selects describes) refl

  -- Where the data section, of bytes, holds the value d at `offset` as the format lays it out, directly or
  -- behind a pointer, and the section is 32 MiB short of the range of uint32_t: MMDB_aget_value on
  -- a path through keys and decimal indices below 2 ^ 31 succeeds with an entry for the value at
  -- the path's end, whose offset is where that value lies; if a map on the path has no such key, an array no such index, or the path goes
  -- on behind a simple value, it returns LOOKUP_PATH_DOES_NOT_MATCH_DATA and a zeroed entry.
  pub aget_value-Reaches :
      (path : List (List ℕ)) (d : Datum) (offset next : ℕ) (r : Option Datum)
      → Field m d offset next
      → Reaches d path r
      → Answers m r (aget_value stale m offset path)
  unfolding aget_value
  aget_value-Reaches path d offset next r field reaches =
      let found = decode_one_follow-Field m limit zeroed_entry field in
      let has =
        decode_one_follow-has_data m offset zeroed_entry found.entry limit bytes found.ends in
      rw (found.ends, has)
        (walk_path-Reaches path found.entry d found.beyond found.describes
          (decode_one_follow-LiesAt m limit bytes zeroed_entry found.entry field found.ends)
          reaches)
