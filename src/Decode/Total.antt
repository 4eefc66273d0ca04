-- ===== src/Decode/Total.antt =====
-- decode_one and decode_one_follow always end.
use node_geoip2c.Base.{ℕ, ◌+◌, Option, none, some, ◌≢◌, ◌≡◌, arith, Bool-cases, inl, inr, ◌==◌, shr}
use node_geoip2c.Base.{low_bits, u32, true}
use node_geoip2c.Types.{Outcome, success, failure, fault, stuck, ◌>>=◌, reading, Value, EntryData}
use node_geoip2c.Types.{Mmdb, data_byte}
use node_geoip2c.Decode.{number, real, decode_sized, decode_real, decode_wide}
use node_geoip2c.Decode.{decode_scalar, decode_payload, decode_pointer, decode_typed}
use node_geoip2c.Decode.{decode_control, decode_one, follow, decode_one_follow}

pub reading-ne-stuck {ℓ κ} :
    {A : Type ℓ} {B : Type κ} (o : Option A) (k : A → Outcome B)
    → ((a : A) → k a ≢ stuck)
    → reading o k ≢ stuck
reading-ne-stuck none k h = λ e. cc
reading-ne-stuck (some a) k h = h a

pub >>=-ne-stuck {ℓ} :
    {A : Type ℓ} (r : Outcome A) (k : A → Outcome A)
    → r ≢ stuck
    → ((a : A) → r ≡ success a → k a ≢ stuck)
    → (r >>= k) ≢ stuck
>>=-ne-stuck (success a) k hr hk = hk a (λ i. success a)
>>=-ne-stuck (failure x a) k hr hk = λ e. cc
>>=-ne-stuck fault k hr hk = λ e. cc
>>=-ne-stuck stuck k hr hk = λ e. hr e

number-ne-stuck :
    (limit : ℕ) (get : ℕ → Option ℕ) (member : ℕ → Value) (size next : ℕ) (e : EntryData)
    → number limit get member size next e ≢ stuck
unfolding number
number-ne-stuck limit get member size next e h = ground arith

real-ne-stuck :
    (width : ℕ) (get : Option ℕ) (member : ℕ → Value) (size next : ℕ) (e : EntryData)
    → real width get member size next e ≢ stuck
unfolding real
real-ne-stuck width get member size next e h = ground arith

module _ (m : Mmdb) where
  decode_sized-ne-stuck :
      (type size offset next : ℕ) (e : EntryData) → decode_sized m type size offset next e ≢ stuck
  unfolding decode_sized
  decode_sized-ne-stuck type size offset next e h = grind arith

  decode_real-ne-stuck :
      (type size offset next : ℕ) (e : EntryData) → decode_real m type size offset next e ≢ stuck
  unfolding decode_real
  decode_real-ne-stuck type size offset next e h =
      grind (arith, real-ne-stuck, decode_sized-ne-stuck)

  decode_wide-ne-stuck :
      (type size offset next : ℕ) (e : EntryData) → decode_wide m type size offset next e ≢ stuck
  unfolding decode_wide
  decode_wide-ne-stuck type size offset next e h =
      grind (arith, number-ne-stuck, decode_real-ne-stuck)

  decode_scalar-ne-stuck :
      (type size offset : ℕ) (e : EntryData) → decode_scalar m type size offset e ≢ stuck
  unfolding decode_scalar
  decode_scalar-ne-stuck type size offset e h = grind (arith, number-ne-stuck, decode_wide-ne-stuck)

  decode_payload-ne-stuck :
      (type size offset : ℕ) (e : EntryData) → decode_payload m type size offset e ≢ stuck
  unfolding decode_payload
  decode_payload-ne-stuck type size offset e h = grind (arith, decode_scalar-ne-stuck)

  decode_pointer-ne-stuck :
      (ctrl offset : ℕ) (e : EntryData) → decode_pointer m ctrl offset e ≢ stuck
  unfolding decode_pointer
  decode_pointer-ne-stuck ctrl offset e h = grind arith

  decode_typed-ne-stuck :
      (ctrl type offset : ℕ) (e : EntryData) → decode_typed m ctrl type offset e ≢ stuck
  unfolding decode_typed
  decode_typed-ne-stuck ctrl type offset e = elim (Bool-cases (type == 1)) [
    | inl p ↦ rw p (decode_pointer-ne-stuck ctrl offset e)
    | inr p ↦ rw p (reading-ne-stuck _ _ (λ sized. decode_payload-ne-stuck type sized.0 sized.1 e))
  ]

  decode_control-ne-stuck : (offset : ℕ) (e : EntryData) → decode_control m offset e ≢ stuck
  unfolding decode_control
  decode_control-ne-stuck offset e = reading-ne-stuck (data_byte m offset) _ λ ctrl.
      elim (Bool-cases (low_bits (shr ctrl 5) 3 == 0)) [
        | inl p ↦ rw p (
            reading-ne-stuck (data_byte m (u32 (offset + 1))) _
              (λ raw. decode_typed-ne-stuck _ _ _ _))
        | inr p ↦ rw p (decode_typed-ne-stuck _ _ _ _)
      ]

  pub decode_one-ne-stuck : (offset : ℕ) (e : EntryData) → decode_one m offset e ≢ stuck
  unfolding decode_one
  decode_one-ne-stuck offset e h =
      ground (arith, decode_control-ne-stuck offset (record e { offset = offset; has_data = true }))

  follow-ne-stuck : (e : EntryData) → follow m e ≢ stuck
  unfolding follow
  follow-ne-stuck e = reading-ne-stuck _ _ λ target.
      >>=-ne-stuck (decode_one m target e) _ (decode_one-ne-stuck target e)
        λ second _ h. ground arith

  pub decode_one_follow-ne-stuck :
      (offset : ℕ) (e : EntryData) → decode_one_follow m offset e ≢ stuck
  unfolding decode_one_follow
  decode_one_follow-ne-stuck offset e =
      >>=-ne-stuck (decode_one m offset e) _ (decode_one-ne-stuck offset e)
        λ first _ h. ground (arith, follow-ne-stuck first)
