-- ===== src/Path/Fuel.antt =====
-- skip_map_or_array ends: the fuel of the model is enough, since every entry lies behind the one
-- around it.
use node_geoip2c.Base.{ℕ, zero, suc, ◌+◌, ◌≤◌, ◌<◌, ◌≡◌, ◌≢◌, arith}
use node_geoip2c.Types.{Outcome, success, stuck, >>=-eq-success, EntryData, Mmdb, data_byte}
use node_geoip2c.Decode.{decode_one}
use node_geoip2c.Decode.Bounds.{ReadsBytes, data_section_limit, decode_one-progress}
use node_geoip2c.Decode.Total.{>>=-ne-stuck, decode_one-ne-stuck}
use node_geoip2c.Path.{skip_pairs, skip_items, skip_nested, skip_map_or_array}

module _ (m : Mmdb) (bytes : ReadsBytes (data_byte m))
    (limit : m.data_section_size ≤ data_section_limit) where
  module _ (skip_value : EntryData → Outcome EntryData)
      (forward : (e e' : EntryData)
        → skip_value e ≡ success e'
        → e.offset_to_next ≤ e'.offset_to_next) where
    skip_pairs-forward :
        (size : ℕ) (e e' : EntryData)
        → skip_pairs skip_value m size e ≡ success e'
        → e.offset_to_next ≤ e'.offset_to_next
    unfolding skip_pairs
    skip_pairs-forward zero e e' h = ground arith
    skip_pairs-forward (suc size) e e' h =
        let (key, hk, h1) = >>=-eq-success (decode_one m e.offset_to_next e) _ h in
        let (value, hv, h2) = >>=-eq-success (decode_one m key.offset_to_next key) _ h1 in
        let (skipped, hs, h3) = >>=-eq-success (skip_value value) _ h2 in
        omega (
          arith,
          decode_one-progress m bytes _ _ _ limit hk,
          decode_one-progress m bytes _ _ _ limit hv,
          forward value skipped hs,
          skip_pairs-forward size skipped e' h3,
        )

    skip_items-forward :
        (size : ℕ) (e e' : EntryData)
        → skip_items skip_value m size e ≡ success e'
        → e.offset_to_next ≤ e'.offset_to_next
    unfolding skip_items
    skip_items-forward zero e e' h = ground arith
    skip_items-forward (suc size) e e' h =
        let (value, hv, h1) = >>=-eq-success (decode_one m e.offset_to_next e) _ h in
        let (skipped, hs, h2) = >>=-eq-success (skip_value value) _ h1 in
        omega (
          arith,
          decode_one-progress m bytes _ _ _ limit hv,
          forward value skipped hs,
          skip_items-forward size skipped e' h2,
        )

    -- The recursive call ends at every entry that lies behind the one at hand.
    module _ (behind : ℕ)
        (ends : (e : EntryData) → behind < e.offset_to_next → skip_value e ≢ stuck) where
      skip_pairs-ne-stuck :
          (size : ℕ) (e : EntryData)
          → behind ≤ e.offset_to_next
          → skip_pairs skip_value m size e ≢ stuck
      unfolding skip_pairs
      skip_pairs-ne-stuck zero e b = λ h. cc
      skip_pairs-ne-stuck (suc size) e b =
          >>=-ne-stuck (decode_one m e.offset_to_next e) _ (decode_one-ne-stuck m _ e) λ key hk.
            >>=-ne-stuck (decode_one m key.offset_to_next key) _ (decode_one-ne-stuck m _ key)
              λ value hv.
                let behind_value : behind < value.offset_to_next = omega (
                  arith,
                  decode_one-progress m bytes _ _ _ limit hk,
                  decode_one-progress m bytes _ _ _ limit hv,
                ) in
                >>=-ne-stuck (skip_value value) _ (ends value behind_value) λ skipped hs.
                  skip_pairs-ne-stuck size skipped (omega (arith, forward value skipped hs))

      skip_items-ne-stuck :
          (size : ℕ) (e : EntryData)
          → behind ≤ e.offset_to_next
          → skip_items skip_value m size e ≢ stuck
      unfolding skip_items
      skip_items-ne-stuck zero e b = λ h. cc
      skip_items-ne-stuck (suc size) e b =
          >>=-ne-stuck (decode_one m e.offset_to_next e) _ (decode_one-ne-stuck m _ e) λ value hv.
            let behind_value : behind < value.offset_to_next =
              omega (arith, decode_one-progress m bytes _ _ _ limit hv) in
            >>=-ne-stuck (skip_value value) _ (ends value behind_value) λ skipped hs.
              skip_items-ne-stuck size skipped (omega (arith, forward value skipped hs))

  -- Skipping never moves back.
  skip_nested-forward :
      (fuel : ℕ) (e e' : EntryData)
      → skip_nested fuel m e ≡ success e'
      → e.offset_to_next ≤ e'.offset_to_next
  unfolding skip_nested
  skip_nested-forward zero e e' h = cc
  skip_nested-forward (suc fuel) e e' h =
      let inner = skip_nested-forward fuel in
      ground (
        arith,
        skip_pairs-forward (λ v. skip_nested fuel m v) inner e.data_size e e',
        skip_items-forward (λ v. skip_nested fuel m v) inner e.data_size e e',
      )

  -- An entry behind the section decodes to nothing, so the loops make no round there.
  skip_pairs-beyond :
      (skip_value : EntryData → Outcome EntryData) (size : ℕ) (e : EntryData)
      → m.data_section_size < e.offset_to_next
      → skip_pairs skip_value m size e ≢ stuck
  unfolding skip_pairs decode_one
  skip_pairs-beyond skip_value zero e b h = cc
  skip_pairs-beyond skip_value (suc size) e b h = ground arith

  skip_items-beyond :
      (skip_value : EntryData → Outcome EntryData) (size : ℕ) (e : EntryData)
      → m.data_section_size < e.offset_to_next
      → skip_items skip_value m size e ≢ stuck
  unfolding skip_items decode_one
  skip_items-beyond skip_value zero e b h = cc
  skip_items-beyond skip_value (suc size) e b h = ground arith

  skip_nested-ne-stuck :
      (fuel : ℕ) (e : EntryData)
      → m.data_section_size < fuel + e.offset_to_next
      → skip_nested (suc fuel) m e ≢ stuck
  unfolding skip_nested
  skip_nested-ne-stuck zero e h x = ground (
    arith,
    skip_pairs-beyond (λ v. skip_nested zero m v) e.data_size e,
    skip_items-beyond (λ v. skip_nested zero m v) e.data_size e,
  )
  skip_nested-ne-stuck (suc fuel) e h x =
      let forward = skip_nested-forward (suc fuel) in
      let ends = λ (v : EntryData) (b : e.offset_to_next < v.offset_to_next).
        skip_nested-ne-stuck fuel v (omega arith) in
      ground (
        arith,
        skip_pairs-ne-stuck (λ v. skip_nested (suc fuel) m v) forward e.offset_to_next ends
            e.data_size e,
        skip_items-ne-stuck (λ v. skip_nested (suc fuel) m v) forward e.offset_to_next ends
            e.data_size e,
      )

  -- On a data section of bytes, 32 MiB short of the range of uint32_t, skip_map_or_array comes to
  -- an end on every entry, whatever the section holds.
  pub skip_map_or_array-ne-stuck : (e : EntryData) → skip_map_or_array m e ≢ stuck
  unfolding skip_map_or_array
  skip_map_or_array-ne-stuck e = skip_nested-ne-stuck (suc m.data_section_size) e (omega arith)

  pub skip_map_or_array-forward :
      (e e' : EntryData) → skip_map_or_array m e ≡ success e' → e.offset_to_next ≤ e'.offset_to_next
  unfolding skip_map_or_array
  skip_map_or_array-forward = skip_nested-forward (suc (suc m.data_section_size))
