-- ===== src/Metadata/Marker.antt =====
-- find_metadata finds the first marker of the block that it searches.
use node_geoip2c.Base.{
  ℕ, ◌+◌, ◌-◌, ◌≤◌, ◌≡◌, refl, none, some, inl, inr, List, take, drop, u32, Option-cases, arith,
  eq→==,
}
use node_geoip2c.Compat.{memmem}
use node_geoip2c.Compat.First.{IsFirst, memmem-IsFirst}
use node_geoip2c.Metadata.Keys.{metadata_marker}
use node_geoip2c.Metadata.{find_loop, find_metadata, search_size}

-- The metadata is said to begin behind the first marker, or where there is none behind as many
-- bytes as a marker has.
pub data Located (file : List ℕ) (file_size : ℕ) : ℕ × ℕ → Type 0 where
  behind_first :
      (p : ℕ)
      → IsFirst metadata_marker
          (take (search_size file_size) (drop (file_size - search_size file_size) file))
          (file_size - search_size file_size)
          (some p)
      → Located file file_size (p + 14, u32 (file_size - p))
  no_marker :
      IsFirst metadata_marker
        (take (search_size file_size) (drop (file_size - search_size file_size) file))
        (file_size - search_size file_size)
        none
      → Located file file_size (file_size - search_size file_size + 14, u32 (search_size file_size))

search_size-le : (file_size : ℕ) → search_size file_size ≤ file_size
search_size-le file_size = ground arith

-- find_metadata ends after one round of its loop. In the last 131,072 bytes of the file, or all of
-- a smaller one, it finds the first metadata marker, and gives the position behind it and the size
-- of the file from the marker on; where there is no marker it gives the 15th byte of that block all
-- the same, and the size of the block. Sizes are as uint32_t.
pub find_metadata-Located :
    (file : List ℕ) (file_size : ℕ)
    → (r : ℕ × ℕ) × (find_metadata file file_size ≡ some r) × Located file file_size r
unfolding find_metadata find_loop
find_metadata-Located file file_size =
    let start = file_size - search_size file_size in
    let block = take (search_size file_size) (drop start file) in
    let first = memmem-IsFirst metadata_marker block start (omega arith) in
    elim (Option-cases (memmem metadata_marker block start)) [
      | inl absent ↦
          let same : file_size - start ≡ search_size file_size =
            omega (arith, search_size-le file_size) in
          rw (absent, same) (_, refl, no_marker (rw absent at first))
      | inr (p, found) ↦ rw (found, eq→== p p refl) (_, refl, behind_first p (rw found at first))
    ]
