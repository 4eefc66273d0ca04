-- ===== src/Binding/Collect.antt =====
-- Filling the object of one kind of database: the macros SET_MMDB_ENTRY, SET_MMDB_ENTRY_INT16,
-- SET_MMDB_ENTRY_BOOL and SET_MMDB_ENTRY_DOUBLE of src/binding.cpp, and the `if` around each use.
use node_geoip2c.Base.{ℕ, not, none, some, List, [], ◌∷◌, ◌==◌, if◌then◌else◌, codes, u8, u16}
use node_geoip2c.Types.DataType
use node_geoip2c.Types.{EntryData, Mmdb}
use node_geoip2c.Path.{text_of}
use node_geoip2c.Path.Varargs.{varargs}
use node_geoip2c.Binding.Js.{JsValue, Properties, set_property}
use node_geoip2c.Binding.Fields.{Member, Field, is_set, default_val}
use node_geoip2c.Binding.Completion.{
  Globals, Library, Platform, Completion, returns, throws, crashes, ◌>>=◌, ignoring_status,
}

abbrev pub unexpected_type : List ℕ
unexpected_type = codes "Unexpected data type of result for country code"

-- SET_MMDB_ENTRY up to the assignment.
unfoldable pub string_value : Globals → Mmdb → EntryData → Completion JsValue
string_value g m e =
    if not (e.type == DataType.utf8_string)
    then throws unexpected_type g
    else (elim (text_of m e.value e.data_size) [
      | none ↦ crashes
      | some text ↦ returns (JsValue.string text)
    ])

module _ (env : Platform) where
  -- The value that a macro sets for an entry with data. The member of the union is read whatever
  -- was written; a bool is read from its byte.
  unfoldable pub member_value : Globals → Mmdb → Member → EntryData → Completion JsValue
  member_value g m Member.utf8_string e = string_value g m e
  member_value g m Member.uint16 e = returns (JsValue.number (u16 (env.word e.value)))
  member_value g m Member.boolean e =
      returns (JsValue.number (if u8 (env.word e.value) == 0 then 0 else 1))
  member_value g m Member.double_value e = returns (JsValue.double (env.word e.value))

  -- What the macros set: the default where there is no data.
  unfoldable pub entry_value : Globals → Mmdb → Member → EntryData → Completion JsValue
  entry_value g m member e = if e.has_data then member_value g m member e else returns default_val

  module _ (lib : Library) where
    -- The value of a field; the status of MMDB_get_value is not looked at.
    unfoldable pub field_value : Globals → Mmdb → ℕ → Field → Completion JsValue
    field_value g m offset field = do
      e ← ignoring_status (lib.get_value m offset env.stale (varargs field.path []))
      entry_value g m field.member e

    -- The `if`s of one kind of database, in their order.
    unfoldable pub collect :
        Globals → Mmdb → ℕ → ℕ → List Field → Properties → Completion Properties
    collect g m offset t [] o = returns o
    collect g m offset t (field ∷ fields) o =
        let rest = λ (filled : Properties). collect g m offset t fields filled in
        if is_set t field.mask
        then (field_value g m offset field >>= λ value. rest (set_property field.label value o))
        else rest o
