-- ===== src/Bytes.antt =====
-- The big-endian readers of libmaxminddb/src/maxminddb.c. Each reads `p[0]`, `p[1]`, ... through
-- `p`, a pointer as the function of its index; `none` is a read outside the file.
pub mod RoundTrip
use node_geoip2c.Base.{ℕ, zero, suc, ◌+◌, ◌*◌, ◌^◌, Option, none, some}
use node_geoip2c.Base.{u16, u32, u64, u128, low_bits}
use Prim.Native.Nat.{bit_and}

abbrev pub Pointer : Type 0
Pointer = ℕ → Option ℕ

infixl 5 ◌>>=◌
abbrev pub ◌>>=◌ {ℓ κ} : {A : Type ℓ} {B : Type κ} → Option A → (A → Option B) → Option B
none >>= k = none
some a >>= k = k a

abbrev pub advance : Pointer → ℕ → Pointer
advance p n i = p (n + i)

unfoldable pub get_uint16 : Pointer → Option ℕ
get_uint16 p = do p0 ← p 0; p1 ← p 1; some (u32 (p0 * 256 + p1))

unfoldable pub get_uint24 : Pointer → Option ℕ
get_uint24 p = do p0 ← p 0; p1 ← p 1; p2 ← p 2; some (u32 (p0 * 65536 + p1 * 256 + p2))

unfoldable pub get_uint32 : Pointer → Option ℕ
get_uint32 p = do
  p0 ← p 0
  p1 ← p 1
  p2 ← p 2
  p3 ← p 3
  some (u32 (p0 * 16777216 + p1 * 65536 + p2 * 256 + p3))

-- while (length-- > 0) { value <<= 8; value += *p++; } on a uint64_t.
unfoldable pub uint_loop : ℕ → Pointer → ℕ → Option ℕ
uint_loop zero p value = some value
uint_loop (suc length) p value = do
  b ← p 0
  uint_loop length (advance p 1) (u64 (u64 (value * 2 ^ 8) + b))

unfoldable pub get_uint_x : Pointer → ℕ → Option ℕ
get_uint_x p length = uint_loop length p 0

-- The cast to int32_t keeps the low 32 bits.
unfoldable pub get_sint_x : Pointer → ℕ → Option ℕ
get_sint_x p length = do value ← get_uint_x p length; some (u32 value)

unfoldable pub uint128_loop : ℕ → Pointer → ℕ → Option ℕ
uint128_loop zero p value = some value
uint128_loop (suc length) p value = do
  b ← p 0
  uint128_loop length (advance p 1) (u128 (u128 (value * 2 ^ 8) + b))

unfoldable pub get_uint128 : Pointer → ℕ → Option ℕ
get_uint128 p length = uint128_loop length p 0

-- The bits of a float whose bytes on a little-endian machine are q[0], q[1], q[2], q[3].
abbrev pub float_bits : ℕ → ℕ → ℕ → ℕ → ℕ
float_bits q0 q1 q2 q3 = q0 + q1 * 2 ^ 8 + q2 * 2 ^ 16 + q3 * 2 ^ 24

unfoldable pub get_ieee754_float : Pointer → Option ℕ
get_ieee754_float p = do q3 ← p 0; q2 ← p 1; q1 ← p 2; q0 ← p 3; some (float_bits q0 q1 q2 q3)

unfoldable pub get_ieee754_double : Pointer → Option ℕ
get_ieee754_double p = do
  q7 ← p 0
  q6 ← p 1
  q5 ← p 2
  q4 ← p 3
  q3 ← p 4
  q2 ← p 5
  q1 ← p 6
  q0 ← p 7
  some (float_bits q0 q1 q2 q3 + float_bits q4 q5 q6 q7 * 2 ^ 32)

-- Both records of a 28-bit node share the middle byte: its high half is the left record's.
unfoldable pub get_left_28_bit_record : Pointer → Option ℕ
get_left_28_bit_record record_pointer = do
  r0 ← record_pointer 0
  r1 ← record_pointer 1
  r2 ← record_pointer 2
  r3 ← record_pointer 3
  some (u32 (r0 * 65536 + r1 * 256 + r2 + bit_and r3 0xf0 * 2 ^ 20))

unfoldable pub get_right_28_bit_record : Pointer → Option ℕ
get_right_28_bit_record record_pointer = do
  value ← get_uint32 record_pointer
  some (low_bits value 28)
