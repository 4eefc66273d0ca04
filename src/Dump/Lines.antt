-- ===== src/Dump/Lines.antt =====
-- The line that is printed for an entry of a value without members.
use node_geoip2c.Base.{
  ℕ, zero, suc, ◌+◌, ◌*◌, ◌≡◌, refl, ap, subst, Bool, true, false, Option, none, some, List, [],
  ◌∷◌, ◌++◌, ◌==◌, if◌then◌else◌, length, get_elem?, codes, Option-cases, inl, inr, u8, u32, lt→ltb,
  some-eq,
}
use node_geoip2c.Types.{Outcome, success, Value, EntryData, Mmdb}
use node_geoip2c.Path.{bytes_at, text_of}
use node_geoip2c.Compat.{strn, strndup}
use node_geoip2c.Format.Datum.{Datum, NumberType, code_of, member_of}
use node_geoip2c.Format.Field.{is_simple}
use node_geoip2c.EntryList.Listed.{Shows}
use node_geoip2c.Dump.{
  Printer, pointed_bytes, copied, bytes_to_hex, number_line, scalar_line, simple_line, quoted,
}
use node_geoip2c.Dump.Render.{until_nul, line, ReadsUnion, HasPrintableBlobs}
use mathlib.Core.Option

strn-bytes_at :
    (mapping : List ℕ) (p n : ℕ) (bs : List ℕ)
    → bytes_at mapping p n ≡ some bs
    → strn mapping p n ≡ some (until_nul bs)
unfolding strn bytes_at
strn-bytes_at mapping p zero bs h = ap (λ x. Option.map until_nul x) h
strn-bytes_at mapping p (suc n) bs h = elim (Option-cases (get_elem? mapping p)) [
  | inl gone ↦ let bad = rw (gone, bytes_at) at h in cc
  | inr (b, byte) ↦ elim (Option-cases (bytes_at mapping (p + 1) n)) [
    | inl gone ↦ let bad = rw (byte, gone, bytes_at) at h in cc
    | inr (rest, read) ↦
        let whole = rw (byte, read, bytes_at) at h in
        let later = strn-bytes_at mapping (p + 1) n rest read in
        rw (byte, later, strn)
          (subst (λ o. strn_head b rest ≡ Option.map until_nul o) whole (split b rest))
  ]
]
  where
    some_if : (c : Bool) (x : List ℕ) → (if c then some [] else some x) ≡ some (if c then [] else x)
    some_if true x = refl
    some_if false x = refl

    strn_head : ℕ → List ℕ → Option (List ℕ)
    strn_head b rest = if b == 0 then some [] else Option.map (λ s. b ∷ s) (some (until_nul rest))

    split : (b : ℕ) (rest : List ℕ) → strn_head b rest ≡ some (until_nul (b ∷ rest))
    split b rest = some_if (b == 0) (b ∷ until_nul rest)

strndup-text_of :
    (m : Mmdb) (value : Value) (n : ℕ) (bs : List ℕ)
    → text_of m value n ≡ some bs
    → strndup m.mapping value n ≡ some (until_nul bs)
unfolding strndup text_of
strndup-text_of m (Value.utf8_string (some p)) n bs h = strn-bytes_at m.mapping p n bs h
strndup-text_of m (Value.utf8_string none) n bs h = ap (λ x. some (until_nul x)) (empty (n == 0) h)
  where
    empty : (c : Bool) → (if c then some [] else none) ≡ some bs → [] ≡ bs
    empty true h = some-eq h
    empty false h = cc
strndup-text_of m Value.zeroed n bs h = cc
strndup-text_of m (Value.pointer p) n bs h = cc
strndup-text_of m (Value.double_value v) n bs h = cc
strndup-text_of m (Value.bytes p) n bs h = cc
strndup-text_of m (Value.uint16 v) n bs h = cc
strndup-text_of m (Value.uint32 v) n bs h = cc
strndup-text_of m (Value.int32 v) n bs h = cc
strndup-text_of m (Value.uint64 v) n bs h = cc
strndup-text_of m (Value.uint128 v) n bs h = cc
strndup-text_of m (Value.boolean b) n bs h = cc
strndup-text_of m (Value.float_value v) n bs h = cc

boolean_word :
    (b : Bool)
    → ◌≡◌ {A = Outcome (List ℕ)}
        (success (
          (if u8 (if b then 1 else 0) == 0 then codes "false" else codes "true")
          ++ codes " <boolean>"))
        (success ((if b then codes "true" else codes "false") ++ codes " <boolean>"))
boolean_word true = refl
boolean_word false = refl

module _ (printer : Printer) (union : ReadsUnion printer)
    (grants : (n : ℕ) → printer.malloc n ≡ true) where
  pub copied-text :
      {A : Type 0} (m : Mmdb) (out : A) (value : Value) (n : ℕ) (bs : List ℕ)
      (k : List ℕ → Outcome A)
      → text_of m value n ≡ some bs
      → copied printer m.mapping out value n k ≡ k (until_nul bs)
  unfolding copied
  copied-text m out value n bs k h =
      rw (strndup-text_of m value n bs h, grants (length (until_nul bs) + 1)) refl

  number_line-member :
      (t : NumberType) (v : ℕ)
      → number_line printer (code_of t) (member_of t v) ≡ some (line printer (Datum.number t v))
  unfolding number_line
  number_line-member NumberType.uint16 v = rw (union.uint16 v) refl
  number_line-member NumberType.uint32 v = rw (union.uint32 v) refl
  number_line-member NumberType.int32 v = rw (union.int32 v) refl
  number_line-member NumberType.uint64 v = rw (union.uint64 v) refl
  number_line-member NumberType.uint128 v = rw (union.uint128 v) refl

  typed_number :
      (m : Mmdb) (size : ℕ) (t : NumberType) (v : ℕ)
      → simple_line printer m.mapping (code_of t) size (member_of t v)
        ≡ success (line printer (Datum.number t v))
  unfolding simple_line scalar_line
  typed_number m size NumberType.uint16 v = rw (number_line-member NumberType.uint16 v) refl
  typed_number m size NumberType.uint32 v = rw (number_line-member NumberType.uint32 v) refl
  typed_number m size NumberType.int32 v = rw (number_line-member NumberType.int32 v) refl
  typed_number m size NumberType.uint64 v = rw (number_line-member NumberType.uint64 v) refl
  typed_number m size NumberType.uint128 v = rw (number_line-member NumberType.uint128 v) refl

  -- The line of an entry that shows a value without members.
  pub simple_line-Shows :
      (m : Mmdb) (e : EntryData) (d : Datum)
      → is_simple d ≡ true
      → Shows m e d
      → HasPrintableBlobs d
      → simple_line printer m.mapping e.type e.data_size e.value ≡ success (line printer d)
  unfolding simple_line scalar_line bytes_to_hex pointed_bytes
  simple_line-Shows m e (Datum.text bs) simple (type, size, read) short =
      rw (type, size)
        (copied-text m [] e.value (length bs) bs
          (λ text. success (quoted text ++ codes " <utf8_string>")) read)
  simple_line-Shows m e (Datum.blob bs) simple (type, size, (p, value, read)) (long, short) =
      rw
        (
          type,
          size,
          value,
          grants (u32 (length bs * 2) + 1),
          lt→ltb _ _ long,
          lt→ltb _ _ short,
          read,
        )
        refl
  simple_line-Shows m e (Datum.number t v) simple (type, value) short =
      rw (type, value) (typed_number m e.data_size t v)
  simple_line-Shows m e (Datum.float v) simple (type, value) short =
      rw (type, value, union.float_value v) refl
  simple_line-Shows m e (Datum.double v) simple (type, value) short =
      rw (type, value, union.double_value v) refl
  simple_line-Shows m e (Datum.boolean b) simple (type, value) short =
      rw (type, value, union.boolean b) (boolean_word b)
  simple_line-Shows m e (Datum.map ps) simple h short = cc
  simple_line-Shows m e (Datum.array ds) simple h short = cc
