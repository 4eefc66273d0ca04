-- ===== src/Format/Datum.antt =====
-- The values of a data section and how MaxMind-DB-spec.md lays them out, as a relation between a
-- value and the place where it lies, written independently of the decoder.
use node_geoip2c.Base.{List, length}
use node_geoip2c.Types.{Value, Mmdb, EntryData, data_byte}
use node_geoip2c.Types.DataType
use node_geoip2c.Bytes.{advance}
use node_geoip2c.Bytes.RoundTrip.{to_bytes, Spells}
use node_geoip2c.Path.{text_of, bytes_at}
use node_geoip2c.Format.{HasHeader}
use node_geoip2c.Base.{ℕ, zero, suc, ◌+◌, ◌*◌, ◌^◌, ◌≤◌, ◌<◌, ◌≡◌, Bool, true, false, some}

pub data NumberType : Type 0 where
  uint16 uint32 int32 uint64 uint128 : NumberType

abbrev pub code_of : NumberType → ℕ
code_of uint16 = DataType.uint16
code_of uint32 = DataType.uint32
code_of int32 = DataType.int32
code_of uint64 = DataType.uint64
code_of uint128 = DataType.uint128

-- The bytes that a number of the type has at most.
abbrev pub width_of : NumberType → ℕ
width_of uint16 = 2
width_of uint32 = 4
width_of int32 = 4
width_of uint64 = 8
width_of uint128 = 16

-- The member of the union that holds a number of the type.
abbrev pub member_of : NumberType → ℕ → Value
member_of uint16 = Value.uint16
member_of uint32 = Value.uint32
member_of int32 = Value.int32
member_of uint64 = Value.uint64
member_of uint128 = Value.uint128

-- An int32, a float and a double are their bits.
mutual
  pub data Datum : Type 0 where
    text : List ℕ → Datum
    blob : List ℕ → Datum
    number : NumberType → ℕ → Datum
    float : ℕ → Datum
    double : ℕ → Datum
    boolean : Bool → Datum
    map : Pairs → Datum
    array : Items → Datum

  pub data Items : Type 0 where
    nil : Items
    cons : Datum → Items → Items

  pub data Pairs : Type 0 where
    end : Pairs
    pair : List ℕ → Datum → Pairs → Pairs

abbrev pub items_count : Items → ℕ
items_count nil = 0
items_count (cons d ds) = suc (items_count ds)

abbrev pub pairs_count : Pairs → ℕ
pairs_count end = 0
pairs_count (pair k d ps) = suc (pairs_count ps)

abbrev pub bool_size : Bool → ℕ
bool_size true = 1
bool_size false = 0

-- Where a pointer leads, from the beginning of the data section, by the number of its bytes less one,
-- the bits VVV of its control byte, and the number in its bytes. Sizes 1 and 2 begin behind the range
-- of the size before, and a pointer of four bytes does not use VVV.
abbrev pub pointer_value : ℕ → ℕ → ℕ → ℕ
pointer_value zero high v = high * 256 + v
pointer_value (suc zero) high v = 2048 + high * 65536 + v
pointer_value (suc (suc zero)) high v = 526336 + high * 16777216 + v
pointer_value (suc (suc (suc n))) high v = v

-- A pointer field at `offset`, of one to four bytes behind its control byte 001SSVVV. The section's
-- offsets count the 16 bytes of the separator before it.
pub record HasPointer (m : Mmdb) (target offset next : ℕ) : Type 0 where
  pub size : ℕ
  pub high : ℕ
  pub small : size < 4
  pub high_lt : high < 8
  pub inside : offset ≤ m.data_section_size
  pub control : data_byte m offset ≡ some (32 + size * 8 + high)
  pub value : ℕ
  pub value_lt : value < 256 ^ (size + 1)
  pub spells : Spells (advance (data_byte m) (offset + 1)) (to_bytes (size + 1) value)
  pub leads : target ≡ 16 + pointer_value size high value
  pub target_lt : target < 2 ^ 32
  pub next_lem : next ≡ offset + 2 + size

-- The value lies at `offset`, in the field that ends before `next`. A key or a member may be a
-- pointer, a pointer to a pointer is not in the format.
mutual
  pub data Holds (m : Mmdb) : Datum → ℕ → ℕ → Type 0 where
    text :
        {bs : List ℕ} {offset body : ℕ}
        → HasHeader m 2 (length bs) offset body
        → Spells (advance (data_byte m) body) bs
        → Holds m (Datum.text bs) offset (body + length bs)
    blob :
        {bs : List ℕ} {offset body : ℕ}
        → HasHeader m 4 (length bs) offset body
        → Spells (advance (data_byte m) body) bs
        → Holds m (Datum.blob bs) offset (body + length bs)
    number :
        {t : NumberType} {n v offset body : ℕ}
        → n ≤ width_of t
        → v < 256 ^ n
        → HasHeader m (code_of t) n offset body
        → Spells (advance (data_byte m) body) (to_bytes n v)
        → Holds m (Datum.number t v) offset (body + n)
    float :
        {v offset body : ℕ}
        → v < 2 ^ 32
        → HasHeader m 15 4 offset body
        → Spells (advance (data_byte m) body) (to_bytes 4 v)
        → Holds m (Datum.float v) offset (body + 4)
    double :
        {v offset body : ℕ}
        → v < 2 ^ 64
        → HasHeader m 3 8 offset body
        → Spells (advance (data_byte m) body) (to_bytes 8 v)
        → Holds m (Datum.double v) offset (body + 8)
    boolean :
        {b : Bool} {offset body : ℕ}
        → HasHeader m 14 (bool_size b) offset body
        → Holds m (Datum.boolean b) offset body
    map :
        {ps : Pairs} {offset body next : ℕ}
        → HasHeader m 7 (pairs_count ps) offset body
        → HoldsPairs m ps body next
        → Holds m (Datum.map ps) offset next
    array :
        {ds : Items} {offset body next : ℕ}
        → HasHeader m 11 (items_count ds) offset body
        → HoldsItems m ds body next
        → Holds m (Datum.array ds) offset next

  pub data Field (m : Mmdb) : Datum → ℕ → ℕ → Type 0 where
    direct : {d : Datum} {offset next : ℕ} → Holds m d offset next → Field m d offset next
    pointed :
        {d : Datum} {offset next target beyond : ℕ}
        → HasPointer m target offset next
        → Holds m d target beyond
        → Field m d offset next

  pub data HoldsItems (m : Mmdb) : Items → ℕ → ℕ → Type 0 where
    nil : {offset : ℕ} → HoldsItems m Items.nil offset offset
    cons :
        {d : Datum} {ds : Items} {offset next beyond : ℕ}
        → Field m d offset next
        → HoldsItems m ds next beyond
        → HoldsItems m (Items.cons d ds) offset beyond

  pub data HoldsPairs (m : Mmdb) : Pairs → ℕ → ℕ → Type 0 where
    end : {offset : ℕ} → HoldsPairs m Pairs.end offset offset
    pair :
        {k : List ℕ} {d : Datum} {ps : Pairs} {offset value next beyond : ℕ}
        → Field m (Datum.text k) offset value
        → Field m d value next
        → HoldsPairs m ps next beyond
        → HoldsPairs m (Pairs.pair k d ps) offset beyond

-- The entry stands for the value, and what follows the value begins at `next`.
abbrev pub Describes : Mmdb → EntryData → Datum → ℕ → Type 0
Describes m e (Datum.text bs) next =
    (e.type ≡ 2)
    × (e.data_size ≡ length bs)
    × (text_of m e.value (length bs) ≡ some bs)
    × (e.offset_to_next ≡ next)
Describes m e (Datum.blob bs) next =
    (e.type ≡ 4)
    × (e.data_size ≡ length bs)
    × ((p : ℕ) × (e.value ≡ Value.bytes p) × (bytes_at m.mapping p (length bs) ≡ some bs))
    × (e.offset_to_next ≡ next)
Describes m e (Datum.number t v) next =
    (e.type ≡ code_of t) × (e.value ≡ member_of t v) × (e.offset_to_next ≡ next)
Describes m e (Datum.float v) next =
    (e.type ≡ 15) × (e.value ≡ Value.float_value v) × (e.offset_to_next ≡ next)
Describes m e (Datum.double v) next =
    (e.type ≡ 3) × (e.value ≡ Value.double_value v) × (e.offset_to_next ≡ next)
Describes m e (Datum.boolean b) next =
    (e.type ≡ 14) × (e.value ≡ Value.boolean b) × (e.offset_to_next ≡ next)
Describes m e (Datum.map ps) next =
    (e.type ≡ 7) × (e.data_size ≡ pairs_count ps) × HoldsPairs m ps e.offset_to_next next
Describes m e (Datum.array ds) next =
    (e.type ≡ 11) × (e.data_size ≡ items_count ds) × HoldsItems m ds e.offset_to_next next
