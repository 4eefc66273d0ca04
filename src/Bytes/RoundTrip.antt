-- ===== src/Bytes/RoundTrip.antt =====
-- The readers against the big-endian value of the bytes.
use node_geoip2c.Base.{ℕ, zero, suc, ◌+◌, ◌*◌, ◌/◌, ◌%◌, ◌^◌, ◌≤◌, ◌<◌, ◌≡◌, refl, arith}
use node_geoip2c.Base.{some, List, [], ◌∷◌, ◌++◌, length, length-append, IsByte}
use node_geoip2c.Bytes.{Pointer, advance, get_uint16, get_uint24, get_uint32, uint_loop, get_uint_x}
use node_geoip2c.Bytes.{get_uint128, uint128_loop}
use native.Mathlib.Nat.{pow-suc}

-- The number that the bytes spell behind the digits of `value`, highest first.
unfoldable pub big_endian_from : ℕ → List ℕ → ℕ
big_endian_from value [] = value
big_endian_from value (b ∷ bs) = big_endian_from (value * 256 + b) bs

abbrev pub big_endian : List ℕ → ℕ
big_endian bs = big_endian_from 0 bs

-- The `n` lowest bytes of `v`, highest first.
unfoldable pub to_bytes : ℕ → ℕ → List ℕ
to_bytes zero v = []
to_bytes (suc n) v = to_bytes n (v / 256) ++ (v % 256 ∷ [])

-- What `p` reads begins with `bs`.
abbrev pub Spells : Pointer → List ℕ → Type 0
Spells p [] = Unit {0}
Spells p (b ∷ bs) = (p 0 ≡ some b) × Spells (advance p 1) bs

le-big_endian_from : (value : ℕ) (bs : List ℕ) → value ≤ big_endian_from value bs
unfolding big_endian_from
le-big_endian_from value [] = omega arith
le-big_endian_from value (b ∷ bs) = omega (arith, le-big_endian_from (value * 256 + b) bs)

big_endian_from-append :
    (value : ℕ) (bs : List ℕ) (b : ℕ)
    → big_endian_from value (bs ++ (b ∷ [])) ≡ big_endian_from value bs * 256 + b
unfolding big_endian_from
big_endian_from-append value [] b = refl
big_endian_from-append value (x ∷ bs) b = big_endian_from-append (value * 256 + x) bs b

uint_loop-big_endian :
    (bs : List ℕ) (p : Pointer) (value : ℕ)
    → Spells p bs
    → big_endian_from value bs < 2 ^ 64
    → uint_loop (length bs) p value ≡ some (big_endian_from value bs)
unfolding uint_loop big_endian_from
uint_loop-big_endian [] p value h fits = refl
uint_loop-big_endian (b ∷ bs) p value (h0, h) fits =
    let small : value * 256 + b < 2 ^ 64 = omega (arith, le-big_endian_from (value * 256 + b) bs) in
    let step : (value * 2 ^ 8 % 2 ^ 64 + b) % 2 ^ 64 ≡ value * 256 + b = omega arith in
    rw (h0, step) (uint_loop-big_endian bs (advance p 1) (value * 256 + b) h fits)

uint128_loop-big_endian :
    (bs : List ℕ) (p : Pointer) (value : ℕ)
    → Spells p bs
    → big_endian_from value bs < 2 ^ 128
    → uint128_loop (length bs) p value ≡ some (big_endian_from value bs)
unfolding uint128_loop big_endian_from
uint128_loop-big_endian [] p value h fits = refl
uint128_loop-big_endian (b ∷ bs) p value (h0, h) fits =
    let small : value * 256 + b < 2 ^ 128 =
      omega (arith, le-big_endian_from (value * 256 + b) bs) in
    let step : (value * 2 ^ 8 % 2 ^ 128 + b) % 2 ^ 128 ≡ value * 256 + b = omega arith in
    rw (h0, step) (uint128_loop-big_endian bs (advance p 1) (value * 256 + b) h fits)

pub get_uint_x-big_endian :
    (bs : List ℕ) (p : Pointer)
    → Spells p bs
    → big_endian bs < 2 ^ 64
    → get_uint_x p (length bs) ≡ some (big_endian bs)
unfolding get_uint_x
get_uint_x-big_endian bs p h fits = uint_loop-big_endian bs p 0 h fits

pub get_uint128-big_endian :
    (bs : List ℕ) (p : Pointer)
    → Spells p bs
    → big_endian bs < 2 ^ 128
    → get_uint128 p (length bs) ≡ some (big_endian bs)
unfolding get_uint128
get_uint128-big_endian bs p h fits = uint128_loop-big_endian bs p 0 h fits

pub length-to_bytes : (n v : ℕ) → length (to_bytes n v) ≡ n
unfolding to_bytes
length-to_bytes zero v = refl
length-to_bytes (suc n) v =
    omega (arith, length-append (to_bytes n (v / 256)) (v % 256 ∷ []), length-to_bytes n (v / 256))

pub big_endian-to_bytes : (n v : ℕ) → v < 256 ^ n → big_endian (to_bytes n v) ≡ v
unfolding to_bytes big_endian_from
big_endian-to_bytes zero v h = omega arith
big_endian-to_bytes (suc n) v h = omega (
  arith,
  big_endian_from-append 0 (to_bytes n (v / 256)) (v % 256),
  big_endian-to_bytes n (v / 256) (omega (arith, pow-suc 256 n)),
)

-- get_uintX reads back any uint64_t that is spelled big-endian in `n` bytes, for every `n` that
-- is wide enough for it.
pub get_uint_x-to_bytes :
    (n v : ℕ) (p : Pointer)
    → v < 256 ^ n
    → v < 2 ^ 64
    → Spells p (to_bytes n v)
    → get_uint_x p n ≡ some v
get_uint_x-to_bytes n v p wide fits h =
    let same = big_endian-to_bytes n v wide in
    let read = get_uint_x-big_endian (to_bytes n v) p h (omega (arith, same)) in
    rw (length-to_bytes, same) at read

pub get_uint128-to_bytes :
    (n v : ℕ) (p : Pointer)
    → v < 256 ^ n
    → v < 2 ^ 128
    → Spells p (to_bytes n v)
    → get_uint128 p n ≡ some v
get_uint128-to_bytes n v p wide fits h =
    let same = big_endian-to_bytes n v wide in
    let read = get_uint128-big_endian (to_bytes n v) p h (omega (arith, same)) in
    rw (length-to_bytes, same) at read

-- On a pointer that reads bytes, the three fixed-size readers are get_uintX at 2, 3 and 4 bytes,
-- reads outside the file included.
pub fixed_sizes-eq-get_uint_x :
    (p : Pointer)
    → ((i b : ℕ) → p i ≡ some b → IsByte b)
    → (get_uint16 p ≡ get_uint_x p 2)
      × (get_uint24 p ≡ get_uint_x p 3)
      × (get_uint32 p ≡ get_uint_x p 4)
unfolding get_uint16 get_uint24 get_uint32 get_uint_x uint_loop
fixed_sizes-eq-get_uint_x p h = (grind arith, grind arith, grind arith)
