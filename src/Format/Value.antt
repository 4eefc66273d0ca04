-- ===== src/Format/Value.antt =====
-- decode_one reads back every value and every pointer of the format.
use node_geoip2c.Base.{low_bits}
use node_geoip2c.Types.{success, Value, Mmdb, EntryData, data_byte}
use node_geoip2c.Bytes.RoundTrip.{length-to_bytes}
use node_geoip2c.Decode.{decode_payload, decode_pointer, decode_typed, decode_control, decode_one}
use node_geoip2c.Decode.Bounds.{data_section_limit}
use node_geoip2c.Format.{type_byte, size_bytes, header, HasHeader}
use node_geoip2c.Format.Header.{decode_one-HasHeader, Spells-head}
use node_geoip2c.Format.Payload.{decode_payload-number, decode_payload-text, decode_payload-blob}
use node_geoip2c.Format.Payload.{
  decode_payload-float, decode_payload-double, decode_payload-boolean,
}
use node_geoip2c.Format.Pointer.{get_ptr_from-HasPointer}
use node_geoip2c.Format.Datum.{Datum, code_of, HasPointer, Holds}
use node_geoip2c.Format.Datum.{Describes, bool_size}
use node_geoip2c.Base.{
  ℕ, ◌+◌, ◌-◌, ◌*◌, ◌^◌, ◌≤◌, ◌<◌, ◌≡◌, refl, ◌∙◌, true, some, arith, le→not-ltb, length,
  length-append, u32, shr,
}
use node_geoip2c.Format.Datum.{items_count, pairs_count}

length-header : (type size : ℕ) → length (header type size) ≤ 5
unfolding header type_byte size_bytes
length-header type size = ground (
  arith,
  length-append (type_byte type) (size_bytes size),
  length-to_bytes 1 (size - 29),
  length-to_bytes 2 (size - 285),
  length-to_bytes 3 (size - 65821),
)

data_section-read :
    (m : Mmdb) (i b : ℕ) → data_byte m i ≡ some b → (base : ℕ) × (m.data_section ≡ some base)
unfolding data_byte
data_section-read m i b h = ground arith

compound_map :
    (m : Mmdb) (size body : ℕ) (e : EntryData)
    → decode_payload m 7 size body e
      ≡ success (record e { data_size = size; offset_to_next = body })
unfolding decode_payload
compound_map m size body e = refl

compound_array :
    (m : Mmdb) (size body : ℕ) (e : EntryData)
    → decode_payload m 11 size body e
      ≡ success (record e { data_size = size; offset_to_next = body })
unfolding decode_payload
compound_array m size body e = refl

module _ (m : Mmdb) (limit : m.data_section_size ≤ data_section_limit) where
  body_room : {type size offset body : ℕ} → HasHeader m type size offset body → body + size < 2 ^ 32
  body_room {type} {size} h = omega (arith, length-header type size, h.inside, h.sized, h.body_lem)

  section_base :
      {type size offset body : ℕ}
      → HasHeader m type size offset body
      → (base : ℕ) × (m.data_section ≡ some base)
  unfolding header
  section_base {offset = offset} h =
      let (read, _) = Spells-head (data_byte m) offset _ _ h.spells in
      data_section-read m offset _ read

  -- Where the data section holds a value at `offset` as the format lays it out, and is 32 MiB short
  -- of the range of uint32_t, decode_one succeeds, and the entry has the value's type, its size if it
  -- is a string, bytes, a map or an array, the value itself (the bytes that a string or bytes entry
  -- points to, the members behind it for a map or an array), and the offset of what follows; what
  -- the entry held before does not matter.
  pub decode_one-Holds :
      {d : Datum} {offset next : ℕ} (e : EntryData)
      → Holds m d offset next
      → (e' : EntryData) × (decode_one m offset e ≡ success e') × Describes m e' d next
  decode_one-Holds e (Holds.text {bs} {offset} {body} h spells) =
      let (base, section) = section_base h in
      let (e', ends, type, size, text, next) =
        decode_payload-text m base section bs body
          (record e { has_data = true; offset = offset; type = 2 }) spells (body_room h) in
      (
        e',
        decode_one-HasHeader m limit 2 (length bs) offset body e h ∙ ends,
        (type, size, text, next),
      )
  decode_one-Holds e (Holds.blob {bs} {offset} {body} h spells) =
      let (base, section) = section_base h in
      let (ends, read) =
        decode_payload-blob m base section bs body
          (record e { has_data = true; offset = offset; type = 4 }) spells (body_room h) in
      (
        _,
        decode_one-HasHeader m limit 4 (length bs) offset body e h ∙ ends,
        (refl, refl, (base + body, refl, read), refl),
      )
  decode_one-Holds e (Holds.number {t} {n} {v} {offset} {body} w fits h spells) = (
    _,
    decode_one-HasHeader m limit (code_of t) n offset body e h
        ∙ decode_payload-number m n v body
            (record e { has_data = true; offset = offset; type = code_of t }) fits spells
            (body_room h) t w,
    (refl, refl, refl),
  )
  decode_one-Holds e (Holds.float {v} {offset} {body} fits h spells) = (
    _,
    decode_one-HasHeader m limit 15 4 offset body e h
        ∙ decode_payload-float m v body (record e { has_data = true; offset = offset; type = 15 })
            fits spells (body_room h),
    (refl, refl, refl),
  )
  decode_one-Holds e (Holds.double {v} {offset} {body} fits h spells) = (
    _,
    decode_one-HasHeader m limit 3 8 offset body e h
        ∙ decode_payload-double m v body (record e { has_data = true; offset = offset; type = 3 })
            fits spells (body_room h),
    (refl, refl, refl),
  )
  decode_one-Holds e (Holds.boolean {b} {offset} {body} h) = (
    _,
    decode_one-HasHeader m limit 14 (bool_size b) offset body e h
        ∙ decode_payload-boolean m b body
            (record e { has_data = true; offset = offset; type = 14 }),
    (refl, refl, refl),
  )
  decode_one-Holds e (Holds.map {ps} {offset} {body} {next} h pairs) = (
    _,
    decode_one-HasHeader m limit 7 (pairs_count ps) offset body e h ∙ compound_map m _ body _,
    (refl, refl, pairs),
  )
  decode_one-Holds e (Holds.array {ds} {offset} {body} {next} h items) = (
    _,
    decode_one-HasHeader m limit 11 (items_count ds) offset body e h ∙ compound_array m _ body _,
    (refl, refl, items),
  )

  pointer_entry : EntryData → ℕ → ℕ → ℕ → ℕ → EntryData
  pointer_entry e offset target size next = record {
    has_data = true;
    value = Value.pointer target;
    offset = offset;
    offset_to_next = next;
    data_size = size + 1;
    type = 1;
  }

  pub decode_one-HasPointer :
      {target offset next : ℕ} (e : EntryData)
      → HasPointer m target offset next
      → (e' : EntryData) × (decode_one m offset e ≡ success e')
        × (e'.type ≡ 1)
        × (e'.value ≡ Value.pointer target)
        × (e'.offset_to_next ≡ next)
  unfolding decode_one decode_control decode_typed decode_pointer
  decode_one-HasPointer {target} {offset} {next} e h =
      let ctrl : ℕ = 32 + h.size * 8 + h.high in
      let here : u32 (offset + 1) ≡ offset + 1 = omega (arith, h.inside) in
      let own_type : low_bits (shr ctrl 5) 3 ≡ 1 = omega (arith, h.small, h.high_lt) in
      let psize : low_bits (shr ctrl 3) 2 ≡ h.size = omega (arith, h.small, h.high_lt) in
      let after : u32 (offset + 1 + h.size + 1) ≡ next =
        omega (arith, h.inside, h.small, h.next_lem) in
      (
        pointer_entry e offset target h.size next,
        unfold pointer_entry in
            rw
              (
                le→not-ltb _ _ h.inside,
                h.control,
                own_type,
                here,
                psize,
                get_ptr_from-HasPointer m target offset next h,
                after,
              )
              refl,
        unfold pointer_entry in refl,
        unfold pointer_entry in refl,
        unfold pointer_entry in refl,
      )
