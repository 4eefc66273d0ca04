-- ===== src/Decode.antt =====
-- One entry of the data section: get_ext_type, get_ptr_from, decode_one and decode_one_follow of
-- libmaxminddb/src/maxminddb.c.
pub mod Bounds
pub mod Total
use node_geoip2c.Base.{ℕ, ◌+◌, ◌*◌, Bool, true, ◌||◌, not}
use node_geoip2c.Base.{Option, none, some, ◌==◌, ltb, if◌then◌else◌, u16, u32, shr, low_bits}
use node_geoip2c.Types.DataType
use node_geoip2c.Types.{Error, Outcome, success, failure, ◌>>=◌, reading, Value, EntryData}
use node_geoip2c.Types.{Mmdb, data_byte}
use node_geoip2c.Bytes.{
  ◌>>=◌ as ◌>>=?◌, Pointer, advance, get_uint16, get_uint24, get_uint32, get_uint_x, get_sint_x,
}
use node_geoip2c.Bytes.{get_uint128, get_ieee754_float, get_ieee754_double}
use mathlib.Core.Option

abbrev pub data_section_separator : ℕ
data_section_separator = 16

unfoldable pub get_ext_type : ℕ → ℕ
get_ext_type raw_ext_type = 7 + raw_ext_type

-- The `switch` of get_ptr_from.
unfoldable pub pointer_offset : ℕ → Pointer → ℕ → Option ℕ
pointer_offset ctrl ptr ptr_size =
    if ptr_size == 0
    then Option.map (λ p0. low_bits ctrl 3 * 256 + p0) (ptr 0)
    else if ptr_size == 1
    then (ptr 0 >>=? λ p0. ptr 1 >>=? λ p1. some (2048 + low_bits ctrl 3 * 65536 + p0 * 256 + p1))
    else if ptr_size == 2
    then Option.map (λ v. u32 (2048 + 524288 + low_bits ctrl 3 * 16777216 + v)) (get_uint24 ptr)
    else get_uint32 ptr

unfoldable pub get_ptr_from : ℕ → Pointer → ℕ → Option ℕ
get_ptr_from ctrl ptr ptr_size =
    Option.map (λ new_offset. u32 (data_section_separator + new_offset))
      (pointer_offset ctrl ptr ptr_size)

-- The `switch (size)`: the size, and the offset behind its bytes.
unfoldable pub read_size : Pointer → ℕ → ℕ → Option (ℕ × ℕ)
read_size mem size offset =
    if size == 29
    then Option.map (λ b. (29 + b, u32 (offset + 1))) (mem offset)
    else if size == 30
    then Option.map (λ v. (285 + v, u32 (offset + 2))) (get_uint16 (advance mem offset))
    else if size == 31
    then Option.map (λ v. (65821 + v, u32 (offset + 3))) (get_uint24 (advance mem offset))
    else some (size, offset)

abbrev pub is_compound : ℕ → Bool
is_compound type = (type == DataType.map) || (type == DataType.array)

-- A number of at most `limit` bytes: `entry_data->uint16 = ...` and the like.
unfoldable pub number : ℕ → (ℕ → Option ℕ) → (ℕ → Value) → ℕ → ℕ → EntryData → Outcome EntryData
number limit get member size next e =
    if ltb limit size
    then failure Error.invalid_data e
    else reading (get size) λ v. success (record e { value = member v; offset_to_next = next })

-- A float or a double, which has exactly `width` bytes.
unfoldable pub real : ℕ → Option ℕ → (ℕ → Value) → ℕ → ℕ → EntryData → Outcome EntryData
real width get member size next e =
    if not (size == width)
    then failure Error.invalid_data e
    else reading get λ v. success (record e { value = member v; offset_to_next = next })

-- The chain of `if (type == ...)` of decode_one over the numbers, then what has a length. Here
-- `position` is `&mem[offset]`. A number leaves `data_size` as it was, and a type that is not
-- listed leaves the union too.
unfoldable pub decode_sized : Mmdb → ℕ → ℕ → ℕ → ℕ → EntryData → Outcome EntryData
decode_sized m type size offset next e =
    let position = Option.map (λ base. base + offset) m.data_section in
    let literal = if size == 0 then none else position in
    if type == DataType.utf8_string
    then success
        (record e { value = Value.utf8_string literal; data_size = size; offset_to_next = next })
    else if type == DataType.bytes
    then (reading position λ at.
        success (record e { value = Value.bytes at; data_size = size; offset_to_next = next }))
    else success (record e { offset_to_next = next })

unfoldable pub decode_real : Mmdb → ℕ → ℕ → ℕ → ℕ → EntryData → Outcome EntryData
decode_real m type size offset next e =
    let p = advance (data_byte m) offset in
    if type == DataType.float
    then real 4 (get_ieee754_float p) Value.float_value size next e
    else if type == DataType.double
    then real 8 (get_ieee754_double p) Value.double_value size next e
    else decode_sized m type size offset next e

-- The next two: UINT64 and UINT128, then UINT16, UINT32 and INT32.
unfoldable pub decode_wide : Mmdb → ℕ → ℕ → ℕ → ℕ → EntryData → Outcome EntryData
decode_wide m type size offset next e =
    let p = advance (data_byte m) offset in
    if type == DataType.uint64
    then number 8 (get_uint_x p) Value.uint64 size next e
    else if type == DataType.uint128
    then number 16 (get_uint128 p) Value.uint128 size next e
    else decode_real m type size offset next e

unfoldable pub decode_scalar : Mmdb → ℕ → ℕ → ℕ → EntryData → Outcome EntryData
decode_scalar m type size offset e =
    let p = advance (data_byte m) offset in
    let next = u32 (offset + size) in
    if type == DataType.uint16
    then number 2 (λ n. Option.map (λ v. u16 v) (get_uint_x p n)) Value.uint16 size next e
    else if type == DataType.uint32
    then number 4 (λ n. Option.map (λ v. u32 v) (get_uint_x p n)) Value.uint32 size next e
    else if type == DataType.int32
    then number 4 (get_sint_x p) Value.int32 size next e
    else decode_wide m type size offset next e

-- decode_one from the size on.
unfoldable pub decode_payload : Mmdb → ℕ → ℕ → ℕ → EntryData → Outcome EntryData
decode_payload m type size offset e =
    if is_compound type
    then success (record e { data_size = size; offset_to_next = offset })
    else if type == DataType.boolean
    then success (record e {
      value = Value.boolean (not (size == 0));
      data_size = 0;
      offset_to_next = offset;
    })
    else decode_scalar m type size offset e

-- decode_one from the type on, for a pointer and for all else.
unfoldable pub decode_pointer : Mmdb → ℕ → ℕ → EntryData → Outcome EntryData
decode_pointer m ctrl offset e =
    let psize = low_bits (shr ctrl 3) 2 in
    reading (get_ptr_from ctrl (advance (data_byte m) offset) psize) λ target. success (record e {
      value = Value.pointer target;
      data_size = psize + 1;
      offset_to_next = u32 (offset + psize + 1);
    })

unfoldable pub decode_typed : Mmdb → ℕ → ℕ → ℕ → EntryData → Outcome EntryData
decode_typed m ctrl type offset e =
    if type == DataType.pointer
    then decode_pointer m ctrl offset e
    else (reading (read_size (data_byte m) (low_bits ctrl 5) offset)
        λ sized. decode_payload m type sized.0 sized.1 e)

-- decode_one behind its bounds check; the control byte is read at `offset`.
unfoldable pub decode_control : Mmdb → ℕ → EntryData → Outcome EntryData
decode_control m offset e = reading (data_byte m offset) λ ctrl.
    let next = u32 (offset + 1) in
    let type = low_bits (shr ctrl 5) 3 in
    if type == DataType.extended
    then (reading (data_byte m next) λ raw.
        let ext = get_ext_type raw in
        decode_typed m ctrl ext (u32 (next + 1)) (record e { type = ext }))
    else decode_typed m ctrl type next (record e { type = type })

unfoldable pub decode_one : Mmdb → ℕ → EntryData → Outcome EntryData
decode_one m offset e =
    if ltb m.data_section_size offset
    then failure Error.invalid_data e
    else decode_control m offset (record e { offset = offset; has_data = true })

-- `entry_data->pointer`, which decode_one has just written for a pointer.
abbrev pub pointer_of : Value → Option ℕ
pointer_of (Value.pointer p) = some p
pointer_of _ = none

-- The entry that a pointer leads to. After a pointer to a simple value the next entry is the one
-- behind the pointer; after a pointer to a map or an array it is the first inside of it.
unfoldable pub follow : Mmdb → EntryData → Outcome EntryData
follow m first = reading (pointer_of first.value) λ target. do
  second ← decode_one m target first
  (if is_compound second.type
      then success second
      else success (record second { offset_to_next = first.offset_to_next }))

unfoldable pub decode_one_follow : Mmdb → ℕ → EntryData → Outcome EntryData
decode_one_follow m offset e = do
  first ← decode_one m offset e
  if first.type == DataType.pointer then follow m first else success first
