-- ===== src/Strtol.antt =====
-- strtol(s, &first_invalid, 10) of the C library with a 64-bit long, and the conversion of its
-- result to int, as lookup_path_in_array of libmaxminddb/src/maxminddb.c uses them. A C string
-- is the list of its bytes without the final NUL.
use node_geoip2c.Base.{ℕ, ◌+◌, ◌-◌, ◌*◌, ◌^◌, Bool, true, false, ◌&&◌, ◌||◌, List, [], ◌∷◌}
use node_geoip2c.Base.{◌==◌, ltb, leb, if◌then◌else◌, u32}

-- The long, as a sign and a magnitude, where the parse stopped, and whether errno is ERANGE.
pub record Parsed : Type 0 where
  pub negative : Bool
  pub magnitude : ℕ
  pub first_invalid : List ℕ
  pub erange : Bool

unfoldable pub is_space : ℕ → Bool
is_space c = (c == 32) || (leb 9 c && leb c 13)

unfoldable pub is_digit : ℕ → Bool
is_digit c = leb 48 c && leb c 57

unfoldable pub skip_space : List ℕ → List ℕ
skip_space [] = []
skip_space (c ∷ s) = if is_space c then skip_space s else c ∷ s

-- The value of the digits at the head of `s` behind those that gave `value`, and what follows.
unfoldable pub digits : ℕ → List ℕ → ℕ × List ℕ
digits value [] = (value, [])
digits value (c ∷ s) = if is_digit c then digits (value * 10 + (c - 48)) s else (value, c ∷ s)

-- The sign has been read; without a digit nothing is parsed, and the parse stopped at `start`.
unfoldable pub parse_digits : List ℕ → Bool → List ℕ → Parsed
parse_digits start negative [] = record {
  negative = false;
  magnitude = 0;
  first_invalid = start;
  erange = false;
}
parse_digits start negative (c ∷ s) =
    let (value, rest) = digits 0 (c ∷ s) in
    let largest = if negative then 2 ^ 63 else 2 ^ 63 - 1 in
    if is_digit c
    then record {
      negative = negative;
      magnitude = if ltb largest value then largest else value;
      first_invalid = rest;
      erange = ltb largest value;
    }
    else record { negative = false; magnitude = 0; first_invalid = start; erange = false }

unfoldable pub parse_sign : List ℕ → List ℕ → Parsed
parse_sign start [] = parse_digits start false []
parse_sign start (c ∷ s) =
    if c == b'-'
    then parse_digits start true s
    else if c == b'+'
    then parse_digits start false s
    else parse_digits start false (c ∷ s)

unfoldable pub strtol : List ℕ → Parsed
strtol s = parse_sign s (skip_space s)

-- The 32 bits of the long converted to int.
unfoldable pub int_bits : Parsed → ℕ
int_bits r = u32 (if r.negative then 2 ^ 64 - r.magnitude else r.magnitude)
