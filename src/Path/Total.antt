-- ===== src/Path/Total.antt =====
-- MMDB_aget_value comes to an end on every database, entry and path.
use node_geoip2c.Base.{ℕ, zero, suc, ◌≤◌, ◌≢◌, arith, List, [], ◌∷◌}
use node_geoip2c.Base.{Bool-cases, inl, inr, ◌==◌}
use node_geoip2c.Types.DataType
use node_geoip2c.Types.{Outcome, success, failure, fault, stuck, into, EntryData}
use node_geoip2c.Types.{Mmdb, data_byte, zeroed_entry}
use node_geoip2c.Decode.{decode_one, decode_one_follow}
use node_geoip2c.Decode.Bounds.{ReadsBytes, data_section_limit}
use node_geoip2c.Decode.Total.{reading-ne-stuck, >>=-ne-stuck, decode_one-ne-stuck}
use node_geoip2c.Decode.Total.{decode_one_follow-ne-stuck}
use node_geoip2c.Path.{
  skip_map_or_array, skip_to_index, element_at, lookup_path_in_array, key_matches,
}
use node_geoip2c.Path.{
  find_key, lookup_path_in_map, zero_on_failure, path_step, walk_path, aget_value,
}
use node_geoip2c.Path.Fuel.{skip_map_or_array-ne-stuck}

into-ne-stuck {ℓ κ} :
    {A : Type ℓ} {B : Type κ} (out : B) (r : Outcome A) (k : A → Outcome B)
    → r ≢ stuck
    → ((a : A) → k a ≢ stuck)
    → into out r k ≢ stuck
into-ne-stuck out (success a) k hr hk = hk a
into-ne-stuck out (failure x a) k hr hk = λ e. cc
into-ne-stuck out fault k hr hk = λ e. cc
into-ne-stuck out stuck k hr hk = absurd (hr (λ i. stuck))

zero_on_failure-ne-stuck : (r : Outcome EntryData) → r ≢ stuck → zero_on_failure r ≢ stuck
zero_on_failure-ne-stuck r h e = ground arith

module _ (stale : EntryData) (m : Mmdb) (bytes : ReadsBytes (data_byte m))
    (limit : m.data_section_size ≤ data_section_limit) where
  skip_to_index-ne-stuck : (left : ℕ) (e : EntryData) → skip_to_index m left e ≢ stuck
  unfolding skip_to_index
  skip_to_index-ne-stuck zero e = λ h. cc
  skip_to_index-ne-stuck (suc left) e =
      >>=-ne-stuck (decode_one m e.offset_to_next e) _ (decode_one-ne-stuck m _ e) λ value _.
        >>=-ne-stuck (skip_map_or_array m value) _ (skip_map_or_array-ne-stuck m bytes limit value)
          λ skipped _. skip_to_index-ne-stuck left skipped

  element_at-ne-stuck : (index : ℕ) (e : EntryData) → element_at stale m index e ≢ stuck
  unfolding element_at
  element_at-ne-stuck index e =
      >>=-ne-stuck (skip_to_index m index e) _ (skip_to_index-ne-stuck index e) λ at _.
        into-ne-stuck at (decode_one_follow m at.offset_to_next stale) _
          (decode_one_follow-ne-stuck m _ stale) λ value h. cc

  lookup_path_in_array-ne-stuck :
      (path_elem : List ℕ) (e : EntryData) → lookup_path_in_array stale path_elem m e ≢ stuck
  unfolding lookup_path_in_array
  lookup_path_in_array-ne-stuck path_elem e h = grind (arith, element_at-ne-stuck)

  find_key-ne-stuck :
      (path_elem : List ℕ) (e : EntryData) (size offset : ℕ)
      → find_key stale path_elem m e size offset ≢ stuck
  unfolding find_key
  find_key-ne-stuck path_elem e zero offset = λ h. cc
  find_key-ne-stuck path_elem e (suc size) offset =
      into-ne-stuck e (decode_one_follow m offset stale) _
        (decode_one_follow-ne-stuck m offset stale)
        λ key. elim (Bool-cases (key.type == DataType.utf8_string)) [
          | inr p ↦ rw p (λ h. cc)
          | inl p ↦ rw p (
              reading-ne-stuck (key_matches m path_elem key) _ λ found. elim (Bool-cases found) [
                | inl t ↦ rw t (
                    into-ne-stuck e (decode_one_follow m key.offset_to_next stale) _
                      (decode_one_follow-ne-stuck m _ stale) (λ value h. cc))
                | inr t ↦ rw t (
                    into-ne-stuck e (decode_one m key.offset_to_next stale) _
                      (decode_one-ne-stuck m _ stale)
                      (λ value.
                        into-ne-stuck e (skip_map_or_array m value) _
                          (skip_map_or_array-ne-stuck m bytes limit value)
                          (λ skipped. find_key-ne-stuck path_elem e size skipped.offset_to_next)))
              ])
        ]

  path_step-ne-stuck : (path_elem : List ℕ) (e : EntryData) → path_step stale m path_elem e ≢ stuck
  unfolding path_step lookup_path_in_map
  path_step-ne-stuck path_elem e h = ground (
    arith,
    zero_on_failure-ne-stuck _ (lookup_path_in_array-ne-stuck path_elem e),
    zero_on_failure-ne-stuck _ (find_key-ne-stuck path_elem e e.data_size e.offset_to_next),
  )

  walk_path-ne-stuck : (path : List (List ℕ)) (e : EntryData) → walk_path stale m path e ≢ stuck
  unfolding walk_path
  walk_path-ne-stuck [] e = λ h. cc
  walk_path-ne-stuck (path_elem ∷ path) e =
      >>=-ne-stuck (path_step stale m path_elem e) _ (path_step-ne-stuck path_elem e)
        λ found _. walk_path-ne-stuck path found

  -- MMDB_aget_value comes to an end, with a status or a read outside the file, for every offset
  -- and path, on every data section of bytes that is 32 MiB short of the range of uint32_t.
  pub aget_value-ne-stuck :
      (offset : ℕ) (path : List (List ℕ)) → aget_value stale m offset path ≢ stuck
  unfolding aget_value
  aget_value-ne-stuck offset path =
      >>=-ne-stuck (decode_one_follow m offset zeroed_entry) _
        (decode_one_follow-ne-stuck m offset zeroed_entry)
        λ e _ h. ground (arith, walk_path-ne-stuck path e)
