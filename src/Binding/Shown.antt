-- ===== src/Binding/Shown.antt =====
-- The value of a field against what the file holds.
use node_geoip2c.Base.{
  ℕ, ◌+◌, ◌*◌, ◌%◌, ◌^◌, ◌≤◌, ◌≡◌, refl, sym, subst, arith, Bool, true, false, Option, none, some,
  List, [], length, ◌==◌, if◌then◌else◌, u8, ◌≢◌,
}
use node_geoip2c.Types.{EntryData, Mmdb, Value, data_byte}
use node_geoip2c.Decode.Bounds.{ReadsBytes, data_section_limit}
use node_geoip2c.Path.{text_of}
use node_geoip2c.Path.Varargs.{get_value-varargs}
use node_geoip2c.Path.HasData.{aget_value-has_data}
use node_geoip2c.Format.Datum.{Datum, Describes}
use node_geoip2c.Format.Datum
use node_geoip2c.Format.Datum.{NumberType, code_of, member_of}
use node_geoip2c.Format.Walk.{Reaches, aget_value-Reaches}
use node_geoip2c.Binding.Js.{JsValue}
use node_geoip2c.Binding.Fields.{Field, Member, default_val}
use node_geoip2c.Binding.Collect.{
  unexpected_type, string_value, member_value, entry_value, field_value,
}
use node_geoip2c.Binding.Completion.{Globals, Platform, Completion, returns, throws}
use node_geoip2c.Binding.Libmaxminddb.{System, libmaxminddb}

abbrev pub is_text : Datum → Bool
is_text (Datum.text bs) = true
is_text _ = false

-- What a value of the format becomes in JavaScript: text stays, a number is cut to 16 bits, a boolean
-- is 0 or 1, and no value is "NA". A macro for text refuses any other value. For the other
-- macros this names only the values that they are meant for.
pub data Becomes (g : Globals) : Member → Option Datum → Completion JsValue → Type 0 where
  absent : {member : Member} → Becomes g member none (returns default_val)
  text :
      {bs : List ℕ}
      → Becomes g Member.utf8_string (some (Datum.text bs)) (returns (JsValue.string bs))
  refused :
      {d : Datum}
      → is_text d ≡ false
      → Becomes g Member.utf8_string (some d) (throws unexpected_type g)
  uint16 :
      {v : ℕ}
      → Becomes g Member.uint16
          (some (Datum.number NumberType.uint16 v))
          (returns (JsValue.number (v % 2 ^ 16)))
  uint32 :
      {v : ℕ}
      → Becomes g Member.uint16
          (some (Datum.number NumberType.uint32 v))
          (returns (JsValue.number (v % 2 ^ 16)))
  boolean :
      {b : Bool}
      → Becomes g Member.boolean
          (some (Datum.boolean b))
          (returns (JsValue.number (if b then 1 else 0)))
  double :
      {v : ℕ} → Becomes g Member.double_value (some (Datum.double v)) (returns (JsValue.double v))

-- The bytes of a union that was just zeroed or written: the member that was written is in its first
-- bytes, lowest byte first.
pub record IsLittleEndian (word : Value → ℕ) : Type 0 where
  pub uint16 : (v : ℕ) → word (Value.uint16 v) ≡ v
  pub uint32 : (v : ℕ) → word (Value.uint32 v) ≡ v
  pub double_value : (v : ℕ) → word (Value.double_value v) ≡ v
  pub boolean : (b : Bool) → word (Value.boolean b) ≡ (if b then 1 else 0)

not_utf8 : (e : EntryData) (n : ℕ) → e.type ≡ n → n ≢ 2 → (e.type == 2) ≡ false
not_utf8 e n same other = ground arith

Describes-not_text :
    (m : Mmdb) (e : EntryData) (d : Datum) (beyond : ℕ)
    → Describes m e d beyond
    → is_text d ≡ false
    → (e.type == 2) ≡ false
Describes-not_text m e (Datum.text bs) beyond h other = cc
Describes-not_text m e (Datum.blob bs) beyond h other = not_utf8 e 4 h.0 (omega arith)
Describes-not_text m e (Datum.number t v) beyond h other =
    not_utf8 e (code_of t) h.0 (code_of-ne-2 t)
  where
    code_of-ne-2 : (t : NumberType) → code_of t ≢ 2
    code_of-ne-2 NumberType.uint16 = omega arith
    code_of-ne-2 NumberType.uint32 = omega arith
    code_of-ne-2 NumberType.int32 = omega arith
    code_of-ne-2 NumberType.uint64 = omega arith
    code_of-ne-2 NumberType.uint128 = omega arith
Describes-not_text m e (Datum.float v) beyond h other = not_utf8 e 15 h.0 (omega arith)
Describes-not_text m e (Datum.double v) beyond h other = not_utf8 e 3 h.0 (omega arith)
Describes-not_text m e (Datum.boolean b) beyond h other = not_utf8 e 14 h.0 (omega arith)
Describes-not_text m e (Datum.map ps) beyond h other = not_utf8 e 7 h.0 (omega arith)
Describes-not_text m e (Datum.array ds) beyond h other = not_utf8 e 11 h.0 (omega arith)

absent-default :
    (g : Globals) (member : Member) (c : Completion JsValue)
    → Becomes g member none c
    → returns default_val ≡ c
absent-default g member c Becomes.absent = refl

byte_of_bool :
    (b : Bool) → ◌≡◌ {A = ℕ} (if u8 (if b then 1 else 0) == 0 then 0 else 1) (if b then 1 else 0)
byte_of_bool true = refl
byte_of_bool false = refl

module _ (env : Platform) (order : IsLittleEndian env.word) (g : Globals) (m : Mmdb) where
  member_value-Becomes :
      (e : EntryData) (d : Datum) (beyond : ℕ) (member : Member) (c : Completion JsValue)
      → Becomes g member (some d) c
      → Describes m e d beyond
      → member_value env g m member e ≡ c
  unfolding member_value string_value
  member_value-Becomes e d beyond member c (Becomes.text {bs}) (type, size, bytes, _) =
      let is_utf8 : (e.type == 2) ≡ true = ground arith in
      let read = subst (λ n. text_of m e.value n ≡ some bs) (sym size) bytes in
      rw (is_utf8, read) refl
  member_value-Becomes e d beyond member c (Becomes.refused other) h =
      rw (Describes-not_text m e d beyond h other) refl
  member_value-Becomes e d beyond member c (Becomes.uint16 {v}) (type, value, _) =
      rw (value, order.uint16 v) refl
  member_value-Becomes e d beyond member c (Becomes.uint32 {v}) (type, value, _) =
      rw (value, order.uint32 v) refl
  member_value-Becomes e d beyond member c (Becomes.boolean {b}) (type, value, _) =
      rw (value, order.boolean b, byte_of_bool b) refl
  member_value-Becomes e d beyond member c (Becomes.double {v}) (type, value, _) =
      rw (value, order.double_value v) refl

  -- Where the data section of the database, of bytes and 32 MiB short of the range of uint32_t,
  -- holds the value d at the offset of an entry, and malloc grants the path: a field shows what is at
  -- the end of its path in d. Text is the string of its bytes, a uint16 and a uint32 are taken modulo
  -- 2^16, a boolean is 0 or 1, a double is itself, and a path that leads nowhere gives "NA"; where a
  -- field for text leads to another value, the exception is thrown.
  pub field_value-Becomes :
      (system : System) (field : Field) (d : Datum) (offset next : ℕ) (r : Option Datum)
      (c : Completion JsValue)
      → m.data_section_size ≤ data_section_limit
      → ReadsBytes (data_byte m)
      → system.malloc ((length field.path + 1) * 8) ≡ true
      → Datum.Field m d offset next
      → Reaches d field.path r
      → Becomes g field.member r c
      → field_value env (libmaxminddb system) g m offset field ≡ c
  unfolding field_value entry_value
  field_value-Becomes system field d offset next none c limit bytes ok lies reaches becomes =
      let found =
        aget_value-Reaches m limit bytes system.uninitialised field.path d offset next none lies
          reaches in
      rw
        (
          get_value-varargs system.malloc system.uninitialised m offset env.stale field.path [],
          ok,
          found,
        )
        (absent-default g field.member c becomes)
  field_value-Becomes system field d offset next (some d') c limit bytes ok lies reaches becomes =
      let (e, beyond, ends, describes, _) =
        aget_value-Reaches m limit bytes system.uninitialised field.path d offset next (some d')
          lies reaches in
      let has = aget_value-has_data m limit bytes system.uninitialised offset field.path e ends in
      rw
        (
          get_value-varargs system.malloc system.uninitialised m offset env.stale field.path [],
          ok,
          ends,
          has,
        )
        (member_value-Becomes e d' beyond field.member c becomes describes)
