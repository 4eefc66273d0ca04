-- ===== src/Compat/First.antt =====
-- mmdb_memmem finds the first occurrence.
use node_geoip2c.Base.{ℕ, zero, suc, ◌+◌, ◌-◌, ◌≤◌, ◌<◌, ◌≡◌, refl, ap, arith, true, false, ◌||◌}
use node_geoip2c.Base.{
  Option, none, some, List, [], ◌∷◌, ◌++◌, ◌==◌, ltb, length, Bool-cases, inl, inr, length-append,
}
use node_geoip2c.Compat.{starts_with, tail, memmem_loop, memmem}

-- `s` stands in `l` behind `i` bytes.
pub data OccursAt : List ℕ → List ℕ → ℕ → Type 0 where
  here : {s l : List ℕ} (rest : List ℕ) → l ≡ s ++ rest → OccursAt s l 0
  later : {s l : List ℕ} {b i : ℕ} → OccursAt s l i → OccursAt s (b ∷ l) (suc i)

-- The answer is the first occurrence, or there is none.
abbrev pub IsFirst : List ℕ → List ℕ → ℕ → Option ℕ → Type 0
IsFirst s l cur none = (i : ℕ) → ¬ OccursAt s l i
IsFirst s l cur (some p) =
    (i : ℕ) × (p ≡ cur + i) × OccursAt s l i × ((j : ℕ) → OccursAt s l j → i ≤ j)

starts_with→append : (s l : List ℕ) → starts_with s l ≡ true → (rest : List ℕ) × (l ≡ s ++ rest)
unfolding starts_with
starts_with→append [] l h = (l, refl)
starts_with→append (c ∷ s) [] h = cc
starts_with→append (c ∷ s) (b ∷ l) h = elim (Bool-cases (c == b)) [
  | inl p ↦
      let (rest, e) = starts_with→append s l (rw p at h) in
      let same : b ≡ c = ground arith in (rest, cc)
  | inr p ↦ let no = rw p at h in cc
]

starts_with-append : (s rest : List ℕ) → starts_with s (s ++ rest) ≡ true
unfolding starts_with
starts_with-append [] rest = refl
starts_with-append (c ∷ s) rest = ground (arith, starts_with-append s rest)

length-OccursAt : {s l : List ℕ} {i : ℕ} → OccursAt s l i → length s + i ≤ length l
length-OccursAt (here {s} rest e) =
    omega (arith, length-append s rest, ap (λ (x : List ℕ). length x) e)
length-OccursAt (later o) = omega (arith, length-OccursAt o)

-- No occurrence here: every one is one of the tail.
in_tail :
    (s l : List ℕ) (i : ℕ)
    → starts_with s l ≡ false
    → OccursAt s l i
    → (j : ℕ) × (i ≡ suc j) × OccursAt s (tail l) j
in_tail s l zero h (here rest e) = absurd (cc (h, starts_with-append s rest))
in_tail s l (suc i) h (later o) = (i, refl, o)

length-tail : (l : List ℕ) → 0 < length l → suc (length (tail l)) ≡ length l
length-tail [] h = omega arith
length-tail (b ∷ l) h = refl

-- What the tail says, said of the whole.
shift :
    (s l : List ℕ) (cur : ℕ)
    → 0 < length s
    → starts_with s l ≡ false
    → (r : Option ℕ) → IsFirst s (tail l) (cur + 1) r
    → IsFirst s l cur r
shift s l cur some_byte miss none none_there =
    λ i o. let (j, _, there) = in_tail s l i miss o in none_there j there
shift s [] cur some_byte miss (some p) (i, at, there, least) =
    absurd (omega (arith, length-OccursAt there))
shift s (b ∷ l) cur some_byte miss (some p) (i, at, there, least) = (
  suc i,
  omega arith,
  later there,
  λ j o. let (k, e, back) = in_tail s (b ∷ l) j miss o in omega (arith, least k back),
)

memmem_loop-IsFirst :
    (left cur : ℕ) (s l : List ℕ)
    → 0 < length s
    → length l < left + length s
    → left ≤ length l
    → IsFirst s l cur (memmem_loop left s l cur)
unfolding memmem_loop
memmem_loop-IsFirst zero cur s l some_byte fits inside = λ i o. omega (arith, length-OccursAt o)
memmem_loop-IsFirst (suc left) cur s l some_byte fits inside = elim (Bool-cases (starts_with s l)) [
  | inl found ↦
      let (rest, e) = starts_with→append s l found in
      rw found (0, (omega arith), here rest e, λ j o. omega arith)
  | inr miss ↦ rw miss (
      shift s l cur some_byte miss _ (
        memmem_loop-IsFirst left (cur + 1) s (tail l) some_byte (omega (arith, length-tail l))
          (omega (arith, length-tail l))))
]

-- mmdb_memmem, with a pattern of at least one byte, gives the position of the pattern's first
-- occurrence in the bytes, and NULL exactly where the pattern does not occur.
pub memmem-IsFirst : (s l : List ℕ) (cur : ℕ) → 0 < length s → IsFirst s l cur (memmem s l cur)
unfolding memmem
memmem-IsFirst s l cur some_byte = elim (Bool-cases ((length l == 0) || (length s == 0))) [
  | inl empty ↦ rw empty (λ i o. ground (arith, length-OccursAt o))
  | inr bytes ↦ elim (Bool-cases (ltb (length l) (length s))) [
    | inl short ↦ rw (bytes, short) (λ i o. ground (arith, length-OccursAt o))
    | inr long ↦
        rw (bytes, long)
          (memmem_loop-IsFirst (length l - length s + 1) cur s l some_byte (ground arith)
            (ground arith))
  ]
]
