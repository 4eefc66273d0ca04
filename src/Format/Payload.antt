-- ===== src/Format/Payload.antt =====
-- decode_payload reads back every simple value as the format spells it.
use node_geoip2c.Types.{success, Value, Mmdb, EntryData, data_byte, load}
use node_geoip2c.Bytes.{Pointer, advance, get_uint_x, get_sint_x, get_ieee754_float}
use node_geoip2c.Bytes.{get_ieee754_double}
use node_geoip2c.Bytes.RoundTrip.{to_bytes, Spells, get_uint_x-to_bytes, get_uint128-to_bytes}
use node_geoip2c.Decode.{number, real, decode_sized, decode_real, decode_wide, decode_scalar}
use node_geoip2c.Decode.{decode_payload}
use node_geoip2c.Path.{text_of, bytes_at}
use node_geoip2c.Format.Datum.{NumberType, code_of, width_of, member_of, bool_size}
use node_geoip2c.Format.Header.{Spells-head}
use native.Mathlib.Nat.{pow-suc}
use mathlib.Core.Path.{subst}
use mathlib.Core.Option
use node_geoip2c.Base.{
  ℕ, zero, suc, ◌+◌, ◌^◌, ◌≤◌, ◌<◌, ◌≡◌, refl, ap, inl, inr, Bool, true, false, none, some, List,
  [], ◌∷◌, arith, ◌==◌, if◌then◌else◌, le→not-ltb, ne→not-==, Bool-cases, length, get_elem?, u16,
  u32,
}

lt-width : (n w v : ℕ) → n ≤ w → v < 256 ^ n → v < 256 ^ w
lt-width n zero v h lt = ground arith
lt-width n (suc w) v h lt = elim (Bool-cases (n == suc w)) [
  | inl same ↦ ground arith
  | inr less ↦ omega (arith, pow-suc 256 w, lt-width n w v (ground arith) lt)
]

float-to_bytes :
    (p : Pointer) (v : ℕ) → v < 2 ^ 32 → Spells p (to_bytes 4 v) → get_ieee754_float p ≡ some v
unfolding to_bytes get_ieee754_float
float-to_bytes p v fits h = ground arith

double-to_bytes :
    (p : Pointer) (v : ℕ) → v < 2 ^ 64 → Spells p (to_bytes 8 v) → get_ieee754_double p ≡ some v
unfolding to_bytes get_ieee754_double
double-to_bytes p v fits h = ground arith

module _ (m : Mmdb) (n v body : ℕ) (e : EntryData) (fits : v < 256 ^ n)
    (h : Spells (advance (data_byte m) body) (to_bytes n v)) (room : body + n < 2 ^ 32) where
  uint-read : n ≤ 8 → get_uint_x (advance (data_byte m) body) n ≡ some v
  uint-read short = get_uint_x-to_bytes n v _ fits (omega (arith, lt-width n 8 v short fits)) h

  pub decode_payload-number :
      (t : NumberType)
      → n ≤ width_of t
      → decode_payload m (code_of t) n body e
        ≡ success (record e { value = member_of t v; offset_to_next = body + n })
  unfolding decode_payload decode_scalar decode_wide number get_sint_x
  decode_payload-number NumberType.uint16 w =
      let next : u32 (body + n) ≡ body + n = omega arith in
      let same : u16 v ≡ v = omega (arith, lt-width n 2 v w fits) in
      rw (le→not-ltb _ _ w, uint-read (omega arith), same, next) refl
  decode_payload-number NumberType.uint32 w =
      let next : u32 (body + n) ≡ body + n = omega arith in
      let same : u32 v ≡ v = omega (arith, lt-width n 4 v w fits) in
      rw (le→not-ltb _ _ w, uint-read (omega arith), same, next) refl
  decode_payload-number NumberType.int32 w =
      let next : u32 (body + n) ≡ body + n = omega arith in
      let same : u32 v ≡ v = omega (arith, lt-width n 4 v w fits) in
      rw (le→not-ltb _ _ w, uint-read (omega arith), same, next) refl
  decode_payload-number NumberType.uint64 w =
      let next : u32 (body + n) ≡ body + n = omega arith in
      rw (le→not-ltb _ _ w, uint-read w, next) refl
  decode_payload-number NumberType.uint128 w =
      let next : u32 (body + n) ≡ body + n = omega arith in
      let read =
        get_uint128-to_bytes n v (advance (data_byte m) body) fits
          (omega (arith, lt-width n 16 v w fits)) h in
      rw (le→not-ltb _ _ w, read, next) refl

module _ (m : Mmdb) (base : ℕ) (section : m.data_section ≡ some base) where
  bytes_at-Spells :
      (bs : List ℕ) (body : ℕ)
      → Spells (advance (data_byte m) body) bs
      → bytes_at m.mapping (base + body) (length bs) ≡ some bs
  unfolding bytes_at
  bytes_at-Spells [] body h = refl
  bytes_at-Spells (b ∷ bs) body h =
      let (h0, rest) = Spells-head (data_byte m) body b bs h in
      let same : base + body + 1 ≡ base + (body + 1) = omega arith in
      let here : get_elem? m.mapping (base + body) ≡ some b = at_base body b h0 in
      let tail : bytes_at m.mapping (base + body + 1) (length bs) ≡ some bs =
        rw same (bytes_at-Spells bs (body + 1) rest) in
      ground (arith, here, tail)
    where
      at_base : (i x : ℕ) → data_byte m i ≡ some x → get_elem? m.mapping (base + i) ≡ some x
      at_base i x read = unfold data_byte in subst (λ p. load m.mapping p i ≡ some x) section read

  -- `&mem[body]` is the text, and so is the literal that stands for an empty text.
  text_of-Spells :
      (bs : List ℕ) (body : ℕ)
      → Spells (advance (data_byte m) body) bs
      → text_of m
          (Value.utf8_string
            (if length bs == 0 then none else Option.map (λ at. at + body) m.data_section))
          (length bs)
        ≡ some bs
  unfolding text_of
  text_of-Spells [] body h = refl
  text_of-Spells (b ∷ bs) body h =
      let nonempty : (suc (length bs) == 0) ≡ false = ne→not-== (suc (length bs)) 0 (omega arith) in
      let position = ap (Option.map (λ (at : ℕ). at + body)) section in
      rw (nonempty, position) (bytes_at-Spells (b ∷ bs) body h)

  pub decode_payload-text :
      (bs : List ℕ) (body : ℕ) (e : EntryData)
      → Spells (advance (data_byte m) body) bs
      → body + length bs < 2 ^ 32
      → (e' : EntryData) × (decode_payload m 2 (length bs) body e ≡ success e')
        × (e'.type ≡ e.type)
        × (e'.data_size ≡ length bs)
        × (text_of m e'.value (length bs) ≡ some bs)
        × (e'.offset_to_next ≡ body + length bs)
  unfolding decode_payload decode_scalar decode_wide decode_real decode_sized
  decode_payload-text bs body e h room =
      let next : u32 (body + length bs) ≡ body + length bs = omega arith in
      (
        record e {
          value =
              Value.utf8_string
                (if length bs == 0 then none else Option.map (λ at. at + body) m.data_section);
          data_size = length bs;
          offset_to_next = u32 (body + length bs);
        },
        refl,
        refl,
        refl,
        text_of-Spells bs body h,
        next,
      )

  pub decode_payload-blob :
      (bs : List ℕ) (body : ℕ) (e : EntryData)
      → Spells (advance (data_byte m) body) bs
      → body + length bs < 2 ^ 32
      → (decode_payload m 4 (length bs) body e
          ≡ success (record e {
            value = Value.bytes (base + body);
            data_size = length bs;
            offset_to_next = body + length bs;
          }))
        × (bytes_at m.mapping (base + body) (length bs) ≡ some bs)
  unfolding decode_payload decode_scalar decode_wide decode_real decode_sized
  decode_payload-blob bs body e h room =
      let next : u32 (body + length bs) ≡ body + length bs = omega arith in
      (blob_ends, bytes_at-Spells bs body h)
    where
      blob_ends :
          decode_payload m 4 (length bs) body e
          ≡ success (record e {
            value = Value.bytes (base + body);
            data_size = length bs;
            offset_to_next = body + length bs;
          })
      blob_ends = ground (arith, section)

module _ (m : Mmdb) (v body : ℕ) (e : EntryData) where
  pub decode_payload-float :
      v < 2 ^ 32
      → Spells (advance (data_byte m) body) (to_bytes 4 v)
      → body + 4 < 2 ^ 32
      → decode_payload m 15 4 body e
        ≡ success (record e { value = Value.float_value v; offset_to_next = body + 4 })
  unfolding decode_payload decode_scalar decode_wide decode_real real
  decode_payload-float fits h room =
      let next : u32 (body + 4) ≡ body + 4 = omega arith in
      rw (float-to_bytes (advance (data_byte m) body) v fits h, next) refl

  pub decode_payload-double :
      v < 2 ^ 64
      → Spells (advance (data_byte m) body) (to_bytes 8 v)
      → body + 8 < 2 ^ 32
      → decode_payload m 3 8 body e
        ≡ success (record e { value = Value.double_value v; offset_to_next = body + 8 })
  unfolding decode_payload decode_scalar decode_wide decode_real real
  decode_payload-double fits h room =
      let next : u32 (body + 8) ≡ body + 8 = omega arith in
      rw (double-to_bytes (advance (data_byte m) body) v fits h, next) refl

pub decode_payload-boolean :
    (m : Mmdb) (b : Bool) (body : ℕ) (e : EntryData)
    → decode_payload m 14 (bool_size b) body e
      ≡ success (record e { value = Value.boolean b; data_size = 0; offset_to_next = body })
unfolding decode_payload
decode_payload-boolean m true body e = refl
decode_payload-boolean m false body e = refl
