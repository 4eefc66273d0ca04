-- ===== src/Format/Header.antt =====
-- decode_one reads every header as the format describes it.
use mathlib.Core.Path.{fun_ext}
use node_geoip2c.Types.{Mmdb, EntryData, data_byte}
use node_geoip2c.Bytes.{Pointer, advance, get_uint16, get_uint24}
use node_geoip2c.Bytes.RoundTrip.{to_bytes, Spells}
use node_geoip2c.Decode.{
  get_ext_type, read_size, decode_payload, decode_typed, decode_control, decode_one,
}
use node_geoip2c.Decode.Bounds.{data_section_limit}
use node_geoip2c.Format.{type_bits, type_byte, size_bits, size_bytes, header, HasHeader}
use node_geoip2c.Base.{
  ℕ, suc, ◌+◌, ◌-◌, ◌*◌, ◌^◌, ◌≤◌, ◌<◌, ◌≡◌, refl, ap, ◌∙◌, subst, inl, inr, true, some, List, ◌∷◌,
  arith, ltb, le→not-ltb, ne→not-==, Bool-cases, length, u32, shr, low_bits,
}

-- The size is read back from its five bits and its bytes.
read_size-size_bytes :
    (p : Pointer) (size offset : ℕ)
    → size < 65821 + 2 ^ 24
    → offset + 3 < 2 ^ 32
    → Spells (advance p offset) (size_bytes size)
    → read_size p (size_bits size) offset ≡ some (size, offset + length (size_bytes size))
unfolding read_size size_bits size_bytes to_bytes get_uint16 get_uint24
read_size-size_bytes p size offset hs ho h = elim (Bool-cases (ltb size 29)) [
  | inl a ↦ ground arith
  | inr a ↦ elim (Bool-cases (ltb size 285)) [
    | inl b ↦ ground arith
    | inr b ↦ elim (Bool-cases (ltb size 65821)) [ inl c ↦ ground arith | inr c ↦ ground arith ]
  ]
]

pub advance-advance : (p : Pointer) (a b : ℕ) → advance (advance p a) b ≡ advance p (a + b)
advance-advance p a b = fun_ext λ i. let same : a + (b + i) ≡ a + b + i = omega arith in ap p same

-- The byte at `offset`, and the rest behind it.
pub Spells-head :
    (p : Pointer) (offset b : ℕ) (bs : List ℕ)
    → Spells (advance p offset) (b ∷ bs)
    → (p offset ≡ some b) × Spells (advance p (offset + 1)) bs
Spells-head p offset b bs (h0, h) =
    let same : offset + 0 ≡ offset = omega arith in
    (rw same at h0, subst (λ q. Spells q bs) (advance-advance p offset 1) h)

module _ (m : Mmdb) (limit : m.data_section_size ≤ data_section_limit) where
  decode_typed-header :
      (ctrl type size offset : ℕ) (e : EntryData)
      → 2 ≤ type
      → size < 65821 + 2 ^ 24
      → offset ≤ data_section_limit + 2
      → low_bits ctrl 5 ≡ size_bits size
      → Spells (advance (data_byte m) offset) (size_bytes size)
      → decode_typed m ctrl type offset e
        ≡ decode_payload m type size (offset + length (size_bytes size)) e
  unfolding decode_typed
  decode_typed-header ctrl type size offset e ht hs ho bits h =
      rw
        (
          ne→not-== type 1 (omega arith),
          bits,
          read_size-size_bytes (data_byte m) size offset hs (omega arith) h,
        )
        refl

  size_bits-lt : (size : ℕ) → size_bits size < 32
  unfolding size_bits
  size_bits-lt size = ground arith

  decode_control-header :
      (type size offset : ℕ) (e : EntryData)
      → 2 ≤ type
      → type < 256
      → size < 65821 + 2 ^ 24
      → offset ≤ data_section_limit
      → Spells (advance (data_byte m) offset) (header type size)
      → decode_control m offset e
        ≡ decode_payload m type size (offset + length (header type size)) (record e { type = type })
  unfolding decode_control header type_bits type_byte get_ext_type
  decode_control-header type size offset e ht hb hs ho h = elim (Bool-cases (ltb 7 type)) [
    | inl ext ↦
        let (h0, h1) =
          Spells-head (data_byte m) offset (0 * 32 + size_bits size) ((type - 7) ∷ size_bytes size)
            (rw ext at h) in
        let (h2, h3) = Spells-head (data_byte m) (offset + 1) (type - 7) (size_bytes size) h1 in
        let here : u32 (offset + 1) ≡ offset + 1 = omega arith in
        let there : u32 (offset + 1 + 1) ≡ offset + 1 + 1 = omega arith in
        let zero_type : low_bits (shr (0 * 32 + size_bits size) 5) 3 ≡ 0 =
          omega (arith, size_bits-lt size) in
        let bits : low_bits (0 * 32 + size_bits size) 5 ≡ size_bits size =
          omega (arith, size_bits-lt size) in
        let back : 7 + (type - 7) ≡ type = ground arith in
        let sum : offset + 1 + 1 + length (size_bytes size)
            ≡ offset + suc (suc (length (size_bytes size))) =
          omega arith in
        rw (ext, h0, zero_type, here, h2, there, back)
          (decode_typed-header _ type size (offset + 1 + 1) (record e { type = type }) ht hs
              (omega arith) bits h3
            ∙ rw sum refl)
    | inr plain ↦
        let (h0, h1) =
          Spells-head (data_byte m) offset (type * 32 + size_bits size) (size_bytes size)
            (rw plain at h) in
        let here : u32 (offset + 1) ≡ offset + 1 = omega arith in
        let own_type : low_bits (shr (type * 32 + size_bits size) 5) 3 ≡ type =
          ground (arith, size_bits-lt size) in
        let bits : low_bits (type * 32 + size_bits size) 5 ≡ size_bits size =
          omega (arith, size_bits-lt size) in
        let sum : offset + 1 + length (size_bytes size) ≡ offset + suc (length (size_bytes size)) =
          omega arith in
        rw (plain, h0, own_type, ne→not-== type 0 (omega arith), here)
          (decode_typed-header _ type size (offset + 1) (record e { type = type }) ht hs
              (omega arith) bits h1
            ∙ rw sum refl)
  ]

  -- Where a field header of the format lies at `offset`, for any type from 2 to 255 and any size
  -- that the format can write, decode_one goes on with that type and size at the byte behind it, on
  -- a data section 32 MiB short of the range of uint32_t.
  pub decode_one-HasHeader :
      (type size offset body : ℕ) (e : EntryData)
      → HasHeader m type size offset body
      → decode_one m offset e
        ≡ decode_payload m type size body
            (record e { has_data = true; offset = offset; type = type })
  unfolding decode_one
  decode_one-HasHeader type size offset body e h =
      rw (le→not-ltb _ _ h.inside, h.body_lem)
        (decode_control-header type size offset (record e { offset = offset; has_data = true })
          h.typed h.short h.sized (omega (arith, h.inside)) h.spells)
