-- ===== src/Decode/Bounds.antt =====
-- Where decode_one and decode_one_follow look, and how far they move.
use node_geoip2c.Base.{shr, ◌==◌, Bool-cases, inl, inr}
use node_geoip2c.Bytes.{Pointer, get_uint16, get_uint24}
use node_geoip2c.Decode.{
  number, real, read_size, decode_sized, decode_real, decode_wide, decode_scalar, decode_payload,
  decode_pointer,
}
use node_geoip2c.Decode.{decode_typed, decode_control, decode_one}
use node_geoip2c.Base.{
  ℕ, ◌+◌, ◌-◌, ◌^◌, ◌≤◌, ◌<◌, ◌≡◌, true, Option, some, arith, u32, low_bits, IsByte,
}
use node_geoip2c.Types.{EntryData, Mmdb, Value, data_byte, reading, reading-eq-success, success}

-- What a pointer reads is a byte.
abbrev pub ReadsBytes : Pointer → Type 0
ReadsBytes p = (i b : ℕ) → p i ≡ some b → IsByte b

get_uint16-lt : (p : Pointer) (v : ℕ) → ReadsBytes p → get_uint16 p ≡ some v → v < 65536
unfolding get_uint16
get_uint16-lt p v h e = grind arith

get_uint24-lt : (p : Pointer) (v : ℕ) → ReadsBytes p → get_uint24 p ≡ some v → v < 2 ^ 24
unfolding get_uint24
get_uint24-lt p v h e = grind arith

read_size_bounds :
    (p : Pointer) (size offset s o : ℕ)
    → ReadsBytes p
    → size < 32
    → offset + 3 < 2 ^ 32
    → read_size p size offset ≡ some (s, o)
    → (s < 65821 + 2 ^ 24) × (offset ≤ o) × (o ≤ offset + 3)
unfolding read_size
read_size_bounds p size offset s o h hs ho e = grind (arith, get_uint16-lt, get_uint24-lt)

-- Both entries have one type, offset and `has_data`, and the next of `e'` lies in `lo .. hi`.
abbrev Moves : EntryData → EntryData → ℕ → ℕ → Type 0
Moves e e' lo hi =
    (e'.type ≡ e.type)
    × (e'.offset ≡ e.offset)
    × (e'.has_data ≡ e.has_data)
    × (lo ≤ e'.offset_to_next)
    × (e'.offset_to_next ≤ hi)

module _ (m : Mmdb) (e e' : EntryData) where
  decode_sized-Moves :
      (type size offset next : ℕ)
      → decode_sized m type size offset next e ≡ success e'
      → Moves e e' next next
  unfolding decode_sized
  decode_sized-Moves type size offset next h = grind arith

  number-Moves :
      (limit : ℕ) (get : ℕ → Option ℕ) (member : ℕ → Value) (size next : ℕ)
      → number limit get member size next e ≡ success e'
      → Moves e e' next next
  unfolding number
  number-Moves limit get member size next h = grind arith

  real-Moves :
      (width : ℕ) (get : Option ℕ) (member : ℕ → Value) (size next : ℕ)
      → real width get member size next e ≡ success e'
      → Moves e e' next next
  unfolding real
  real-Moves width get member size next h = grind arith

  decode_real-Moves :
      (type size offset next : ℕ)
      → decode_real m type size offset next e ≡ success e'
      → Moves e e' next next
  unfolding decode_real
  decode_real-Moves type size offset next h = grind (arith, decode_sized-Moves, real-Moves)

  decode_wide-Moves :
      (type size offset next : ℕ)
      → decode_wide m type size offset next e ≡ success e'
      → Moves e e' next next
  unfolding decode_wide
  decode_wide-Moves type size offset next h = grind (arith, decode_real-Moves, number-Moves)

  decode_scalar-Moves :
      (type size offset : ℕ)
      → offset + size < 2 ^ 32
      → decode_scalar m type size offset e ≡ success e'
      → Moves e e' offset (offset + size)
  unfolding decode_scalar
  decode_scalar-Moves type size offset fits h = grind (arith, decode_wide-Moves, number-Moves)

  decode_payload-Moves :
      (type size offset : ℕ)
      → offset + size < 2 ^ 32
      → decode_payload m type size offset e ≡ success e'
      → Moves e e' offset (offset + size)
  unfolding decode_payload
  decode_payload-Moves type size offset fits h = grind (arith, decode_scalar-Moves type size offset)

abbrev pub data_section_limit : ℕ
data_section_limit = 2 ^ 32 - 2 ^ 25

module _ (m : Mmdb) (bytes : ReadsBytes (data_byte m)) where
  decode_pointer-Moves :
      (ctrl offset : ℕ) (e e' : EntryData)
      → offset + 4 < 2 ^ 32
      → decode_pointer m ctrl offset e ≡ success e'
      → Moves e e' (offset + 1) (offset + 4)
  unfolding decode_pointer
  decode_pointer-Moves ctrl offset e e' fits h = grind arith

  sized-Moves :
      (ctrl type offset : ℕ) (e e' : EntryData)
      → offset ≤ data_section_limit + 2
      → reading
          (read_size (data_byte m) (low_bits ctrl 5) offset)
          (λ sized. decode_payload m type sized.0 sized.1 e)
        ≡ success e'
      → Moves e e' offset (offset + 2 ^ 24 + 65824)
  sized-Moves ctrl type offset e e' fits h =
      let (sized, eq, rest) = reading-eq-success (read_size (data_byte m) _ offset) _ h in
      let within =
        read_size_bounds (data_byte m) _ offset sized.0 sized.1 bytes (omega arith) (omega arith)
          eq in
      ground (arith, decode_payload-Moves m e e' type sized.0 sized.1 (omega arith) rest, within)

  decode_typed-Moves :
      (ctrl type offset : ℕ) (e e' : EntryData)
      → offset ≤ data_section_limit + 2
      → decode_typed m ctrl type offset e ≡ success e'
      → Moves e e' offset (offset + 2 ^ 24 + 65824)
  unfolding decode_typed
  decode_typed-Moves ctrl type offset e e' fits h = elim (Bool-cases (type == 1)) [
    | inl p ↦ ground (arith, decode_pointer-Moves ctrl offset e e' (omega arith) (rw p at h))
    | inr p ↦ sized-Moves ctrl type offset e e' fits (rw p at h)
  ]

  decode_control-Moves :
      (offset : ℕ) (e e' : EntryData)
      → offset ≤ data_section_limit
      → decode_control m offset e ≡ success e'
      → (e'.offset ≡ e.offset)
        × (e'.has_data ≡ e.has_data)
        × (offset < e'.offset_to_next)
        × (e'.offset_to_next ≤ offset + 2 ^ 25)
  unfolding decode_control
  decode_control-Moves offset e e' fits h =
      let (ctrl, _, rest) = reading-eq-success (data_byte m offset) _ h in
      elim (Bool-cases (low_bits (shr ctrl 5) 3 == 0)) [
        | inl p ↦
            let (raw, _, ext) =
              reading-eq-success (data_byte m (u32 (offset + 1))) _ (rw p at rest) in
            ground (arith, decode_typed-Moves _ _ _ _ e' (omega arith) ext)
        | inr p ↦ ground (arith, decode_typed-Moves _ _ _ _ e' (omega arith) (rw p at rest))
      ]

  -- An entry that decode_one decodes begins at `offset`, not behind the data section's end, and
  -- the next entry lies behind it, in a data section that is 32 MiB short of the range of uint32_t.
  pub decode_one-progress :
      (offset : ℕ) (e e' : EntryData)
      → m.data_section_size ≤ data_section_limit
      → decode_one m offset e ≡ success e'
      → (offset ≤ m.data_section_size)
        × (e'.offset ≡ offset)
        × (e'.has_data ≡ true)
        × (offset < e'.offset_to_next)
        × (e'.offset_to_next ≤ offset + 2 ^ 25)
  unfolding decode_one
  decode_one-progress offset e e' fits h =
      ground (arith, decode_control-Moves offset (record e { offset = offset; has_data = true }) e')
