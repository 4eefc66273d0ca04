-- ===== src/Format/Pointer.antt =====
-- get_ptr_from on a pointer field of the format.
use node_geoip2c.Base.{
  ℕ, zero, suc, ◌+◌, ◌*◌, ◌%◌, ◌^◌, ◌<◌, ◌≡◌, refl, ap, some, arith, u32, low_bits,
}
use node_geoip2c.Types.{Mmdb, data_byte}
use node_geoip2c.Bytes.{Pointer, advance, get_uint24, get_uint32}
use node_geoip2c.Bytes.RoundTrip.{to_bytes, Spells}
use node_geoip2c.Decode.{data_section_separator, get_ptr_from, pointer_offset}
use node_geoip2c.Format.Datum.{HasPointer, pointer_value}

-- The `switch` of get_ptr_from gives what the format says of a pointer's bytes.
pointer_offset-pointer_value :
    (size high v : ℕ) (p : Pointer)
    → size < 4
    → high < 8
    → v < 256 ^ (size + 1)
    → Spells p (to_bytes (size + 1) v)
    → pointer_offset (32 + size * 8 + high) p size ≡ some (pointer_value size high v)
unfolding pointer_offset to_bytes get_uint24 get_uint32
pointer_offset-pointer_value zero high v p small high_lt fits (h0, _) =
    let bits : low_bits (32 + 0 * 8 + high) 3 ≡ high = omega arith in
    let byte : v % 256 ≡ v = omega arith in rw (h0, bits, byte) refl
pointer_offset-pointer_value (suc zero) high v p small high_lt fits (h0, (h1, _)) =
    let bits : low_bits (32 + 1 * 8 + high) 3 ≡ high = omega arith in
    rw (h0, h1, bits) (ap (λ n. some n) (omega arith))
pointer_offset-pointer_value (suc (suc zero)) high v p small high_lt fits (h0, (h1, (h2, _))) =
    let bits : low_bits (32 + 2 * 8 + high) 3 ≡ high = omega arith in
    rw (h0, h1, h2, bits) (ap (λ n. some n) (omega arith))
pointer_offset-pointer_value (suc (suc (suc zero))) high v p small high_lt fits
      (h0, (h1, (h2, (h3, _)))) =
    rw (h0, h1, h2, h3) (ap (λ n. some n) (omega arith))
pointer_offset-pointer_value (suc (suc (suc (suc n)))) high v p small high_lt fits h =
    absurd (omega arith)

pub get_ptr_from-HasPointer :
    (m : Mmdb) (target offset next : ℕ) (h : HasPointer m target offset next)
    → get_ptr_from (32 + h.size * 8 + h.high) (advance (data_byte m) (offset + 1)) h.size
      ≡ some target
unfolding get_ptr_from
get_ptr_from-HasPointer m target offset next h =
    let within : u32 (data_section_separator + pointer_value h.size h.high h.value) ≡ target =
      omega (arith, h.leads, h.target_lt) in
    rw
      (pointer_offset-pointer_value h.size h.high h.value (advance (data_byte m) (offset + 1))
        h.small h.high_lt h.value_lt h.spells)
      (ap (λ n. some n) within)
