-- ===== src/Format.antt =====
-- The field header of MaxMind-DB-spec.md ("Data Field Format"), written independently of the
-- decoder: what decode_one is proved against.
pub mod At
pub mod Header
pub mod Datum
pub mod Pointer
pub mod Payload
pub mod Value
pub mod Field
pub mod Skip
pub mod Find
pub mod Walk
use node_geoip2c.Base.{ℕ, ◌+◌, ◌-◌, ◌*◌, ◌^◌, ◌≤◌, ◌<◌, ◌≡◌, List, [], ◌∷◌, ◌++◌, ltb, length}
use node_geoip2c.Base.{if◌then◌else◌}
use node_geoip2c.Types.{Mmdb, data_byte}
use node_geoip2c.Bytes.{advance}
use node_geoip2c.Bytes.RoundTrip.{to_bytes, Spells}

-- Types 1 to 7 stand in the first three bits; any other type leaves them 0 and has a byte of its
-- own, that number minus 7.
unfoldable pub type_bits : ℕ → ℕ
type_bits type = if ltb 7 type then 0 else type

unfoldable pub type_byte : ℕ → List ℕ
type_byte type = if ltb 7 type then (type - 7) ∷ [] else []

-- A size below 29 stands in the last five bits, and any other in one to three bytes behind.
unfoldable pub size_bits : ℕ → ℕ
size_bits size =
    if ltb size 29 then size else if ltb size 285 then 29 else if ltb size 65821 then 30 else 31

unfoldable pub size_bytes : ℕ → List ℕ
size_bytes size =
    if ltb size 29
    then []
    else if ltb size 285
    then to_bytes 1 (size - 29)
    else if ltb size 65821
    then to_bytes 2 (size - 285)
    else to_bytes 3 (size - 65821)

unfoldable pub header : ℕ → ℕ → List ℕ
header type size = (type_bits type * 32 + size_bits size) ∷ (type_byte type ++ size_bytes size)

-- The section has a field's header at `offset`, and its payload begins at `body`.
pub record HasHeader (m : Mmdb) (type size offset body : ℕ) : Type 0 where
  pub typed : 2 ≤ type
  pub short : type < 256
  pub sized : size < 65821 + 2 ^ 24
  pub inside : offset ≤ m.data_section_size
  pub spells : Spells (advance (data_byte m) offset) (header type size)
  pub body_lem : body ≡ offset + length (header type size)
