-- ===== src/Compat.antt =====
-- mmdb_memmem, mmdb_strnlen and mmdb_strndup of libmaxminddb/src/maxminddb-compat-util.h.
pub mod First
use node_geoip2c.Base.{
  ℕ, zero, suc, ◌+◌, ◌-◌, Bool, true, false, ◌&&◌, ◌||◌, Option, none, some, List, [], ◌∷◌,
}
use node_geoip2c.Base.{◌==◌, ltb, if◌then◌else◌, length, get_elem?}
use node_geoip2c.Types.{Value}
use mathlib.Core.Option

-- `memcmp(l, s, s_len) == 0`, where `l` has the bytes.
unfoldable pub starts_with : List ℕ → List ℕ → Bool
starts_with [] l = true
starts_with (c ∷ s) [] = false
starts_with (c ∷ s) (b ∷ l) = if c == b then starts_with s l else false

abbrev pub tail : List ℕ → List ℕ
tail [] = []
tail (b ∷ l) = l

-- The `for` loop with the positions that are left to try; `l` begins at `cur`.
unfoldable pub memmem_loop : ℕ → List ℕ → List ℕ → ℕ → Option ℕ
memmem_loop zero s l cur = none
memmem_loop (suc left) s l cur =
    if starts_with s l then some cur else memmem_loop left s (tail l) (cur + 1)

-- The position of `s` in `l`, which begins at `cur`. A pattern of one byte goes to memchr, which
-- looks at the same positions.
unfoldable pub memmem : List ℕ → List ℕ → ℕ → Option ℕ
memmem s l cur =
    if (length l == 0) || (length s == 0)
    then none
    else if ltb (length l) (length s)
    then none
    else memmem_loop (length l - length s + 1) s l cur

-- The bytes at position `p` up to a NUL, `maxlen` at most.
unfoldable pub strn : List ℕ → ℕ → ℕ → Option (List ℕ)
strn mapping p zero = some []
strn mapping p (suc maxlen) = elim (get_elem? mapping p) [
  | none ↦ none
  | some b ↦ if b == 0 then some [] else Option.map (λ s. b ∷ s) (strn mapping (p + 1) maxlen)
]

-- `mmdb_strndup(entry_data.utf8_string, n)` before it allocates: the member of the union is read
-- whatever was written. Where it is no pointer into the file, only no bytes can be read.
unfoldable pub strndup : List ℕ → Value → ℕ → Option (List ℕ)
strndup mapping (Value.utf8_string (some p)) n = strn mapping p n
strndup mapping (Value.utf8_string none) n = some []
strndup mapping (Value.bytes p) n = strn mapping p n
strndup mapping _ n = if n == 0 then some [] else none
