-- ===== src/Path/HasData.antt =====
-- A value that MMDB_aget_value finds has data: has_data is set.
use node_geoip2c.Base.{
  ℕ, zero, suc, ◌≡◌, ◌≤◌, true, List, [], ◌∷◌, ◌==◌, ◌∙◌, arith, Bool-cases, inl, inr,
}
use node_geoip2c.Types.DataType
use node_geoip2c.Types.{
  Outcome, success, EntryData, Mmdb, data_byte, zeroed_entry, reading-eq-success, >>=-eq-success,
  into-eq-success,
}
use node_geoip2c.Decode.{decode_one, decode_one_follow, follow, is_compound, pointer_of}
use node_geoip2c.Decode.Bounds.{ReadsBytes, data_section_limit, decode_one-progress}
use node_geoip2c.Strtol.{int_bits, strtol}
use node_geoip2c.Path.{
  find_key, element_at, skip_to_index, key_matches, lookup_path_in_array, lookup_path_in_map,
  zero_on_failure, path_step, walk_path, aget_value, skip_map_or_array,
}

pub decode_one_follow-has_data :
    (m : Mmdb) (offset : ℕ) (e e' : EntryData)
    → m.data_section_size ≤ data_section_limit
    → ReadsBytes (data_byte m)
    → decode_one_follow m offset e ≡ success e'
    → e'.has_data ≡ true
unfolding decode_one_follow follow
decode_one_follow-has_data m offset e e' limit bytes h =
    let (first, read, rest) = >>=-eq-success (decode_one m offset e) _ h in
    let (_, _, has, _, _) = decode_one-progress m bytes offset e first limit read in
    elim (Bool-cases (first.type == 1)) [
      | inl p ↦
          let (target, _, led) = reading-eq-success (pointer_of first.value) _ (rw p at rest) in
          let (second, read', rest') = >>=-eq-success (decode_one m target first) _ led in
          let (_, _, has', _, _) = decode_one-progress m bytes target first second limit read' in
          elim (Bool-cases (is_compound second.type)) [
            | inl c ↦ let same = rw c at rest' in cc
            | inr c ↦ let same = rw c at rest' in cc
          ]
      | inr p ↦ let same = rw p at rest in cc
    ]

zero_on_failure-eq-success :
    (r : Outcome EntryData) (e : EntryData) → zero_on_failure r ≡ success e → r ≡ success e
zero_on_failure-eq-success (Outcome.success a) e h = h
zero_on_failure-eq-success (Outcome.failure x a) e h = cc
zero_on_failure-eq-success Outcome.fault e h = cc
zero_on_failure-eq-success Outcome.stuck e h = cc

success-injective : {a b : EntryData} → success a ≡ success b → a ≡ b
success-injective h = cc

module _ (m : Mmdb) (limit : m.data_section_size ≤ data_section_limit)
    (bytes : ReadsBytes (data_byte m)) (stale : EntryData) where
  follow-has_data :
      (offset : ℕ) (e : EntryData)
      → decode_one_follow m offset stale ≡ success e
      → e.has_data ≡ true
  follow-has_data offset e h = decode_one_follow-has_data m offset stale e limit bytes h

  element_at-has_data :
      (index : ℕ) (e e' : EntryData) → element_at stale m index e ≡ success e' → e'.has_data ≡ true
  unfolding element_at
  element_at-has_data index e e' h =
      let (at, _, r) = >>=-eq-success (skip_to_index m index e) _ h in
      let (value, read, r') =
        into-eq-success at (decode_one_follow m at.offset_to_next stale) _ r in
      follow-has_data at.offset_to_next e' (read ∙ r')

  find_key-has_data :
      (path_elem : List ℕ) (e : EntryData) (size offset : ℕ) (e' : EntryData)
      → find_key stale path_elem m e size offset ≡ success e'
      → e'.has_data ≡ true
  unfolding find_key
  find_key-has_data path_elem e zero offset e' h = cc
  find_key-has_data path_elem e (suc size) offset e' h =
      let (key, _, r) = into-eq-success e (decode_one_follow m offset stale) _ h in
      elim (Bool-cases (key.type == DataType.utf8_string)) [
        | inr other ↦ let bad = rw other at r in cc
        | inl text ↦
            let (found, _, r1) =
              reading-eq-success (key_matches m path_elem key) _ (rw text at r) in
            elim (Bool-cases found) [
              | inl t ↦
                  let (value, read, r2) =
                    into-eq-success e (decode_one_follow m key.offset_to_next stale) _
                      (rw t at r1) in
                  follow-has_data key.offset_to_next e' (read ∙ r2)
              | inr t ↦
                  let (value, _, r2) =
                    into-eq-success e (decode_one m key.offset_to_next stale) _ (rw t at r1) in
                  let (skipped, _, r3) = into-eq-success e (skip_map_or_array m value) _ r2 in
                  find_key-has_data path_elem e size skipped.offset_to_next e' r3
            ]
      ]

  lookup_path_in_array-has_data :
      (path_elem : List ℕ) (e e' : EntryData)
      → lookup_path_in_array stale path_elem m e ≡ success e'
      → e'.has_data ≡ true
  unfolding lookup_path_in_array
  lookup_path_in_array-has_data path_elem e e' h =
      ground (arith, element_at-has_data (int_bits (strtol path_elem)) e e')

  path_step-has_data :
      (path_elem : List ℕ) (e e' : EntryData)
      → path_step stale m path_elem e ≡ success e'
      → e'.has_data ≡ true
  unfolding path_step lookup_path_in_map
  path_step-has_data path_elem e e' h = ground (
    arith,
    zero_on_failure-eq-success (lookup_path_in_array stale path_elem m e) e',
    lookup_path_in_array-has_data path_elem e e',
    zero_on_failure-eq-success (find_key stale path_elem m e e.data_size e.offset_to_next) e',
    find_key-has_data path_elem e e.data_size e.offset_to_next e',
  )

  walk_path-has_data :
      (path : List (List ℕ)) (e e' : EntryData)
      → e.has_data ≡ true
      → walk_path stale m path e ≡ success e'
      → e'.has_data ≡ true
  unfolding walk_path
  walk_path-has_data [] e e' has h = cc
  walk_path-has_data (path_elem ∷ path) e e' has h =
      let (found, step, r) = >>=-eq-success (path_step stale m path_elem e) _ h in
      walk_path-has_data path found e' (path_step-has_data path_elem e found step) r

  -- An entry that MMDB_aget_value succeeds with has data.
  pub aget_value-has_data :
      (offset : ℕ) (path : List (List ℕ)) (e : EntryData)
      → aget_value stale m offset path ≡ success e
      → e.has_data ≡ true
  unfolding aget_value
  aget_value-has_data offset path e h =
      let (first, read, r) = >>=-eq-success (decode_one_follow m offset zeroed_entry) _ h in
      let has = decode_one_follow-has_data m offset zeroed_entry first limit bytes read in
      walk_path-has_data path first e has (rw has at r)
