-- ===== src/Binding/Completion.antt =====
-- How a function of src/binding.cpp ends, the databases that it works on, and what it is given: the
-- library, V8 and the contents of uninitialised memory.
use node_geoip2c.Base.{ℕ, Bool, true, false, Option, none, some, List, codes}
use node_geoip2c.Types.{
  Error, Outcome, success, failure, fault, stuck, Value, EntryData, Mmdb, LookupResult,
}
use node_geoip2c.Lookup.{StringAnswer}
use node_geoip2c.Path.{VaList}
use node_geoip2c.Binding.Js.{JsValue}

-- The global variables.
pub record Globals : Type 0 where
  pub mmdb_country : Mmdb
  pub mmdb_city : Mmdb
  pub mmdb_isp : Mmdb
  pub mmdb_netspeed : Mmdb
  pub mmdb_anonymous : Mmdb

-- Which of them a call is given.
pub data Slot : Type 0 where
  country city isp netspeed anonymous : Slot

abbrev pub get_slot : Slot → Globals → Mmdb
get_slot Slot.country g = g.mmdb_country
get_slot Slot.city g = g.mmdb_city
get_slot Slot.isp g = g.mmdb_isp
get_slot Slot.netspeed g = g.mmdb_netspeed
get_slot Slot.anonymous g = g.mmdb_anonymous

abbrev pub put_slot : Slot → Mmdb → Globals → Globals
put_slot Slot.country m g = record g { mmdb_country = m }
put_slot Slot.city m g = record g { mmdb_city = m }
put_slot Slot.isp m g = record g { mmdb_isp = m }
put_slot Slot.netspeed m g = record g { mmdb_netspeed = m }
put_slot Slot.anonymous m g = record g { mmdb_anonymous = m }

-- `mmdb.filename != NULL`
abbrev pub is_open : Mmdb → Bool
is_open m = elim m.filename [ none ↦ false | some name ↦ true ]

-- A value, or an exception with its message and the databases at that point. `crashes` is a read
-- that C leaves undefined; `hangs` is no end, the model ran out of fuel.
pub data Completion {ℓ} (A : Type ℓ) : Type ℓ where
  returns : A → Completion A
  throws : List ℕ → Globals → Completion A
  crashes : Completion A
  hangs : Completion A

infixl 5 ◌>>=◌
abbrev pub ◌>>=◌ {ℓ κ} :
    {A : Type ℓ} {B : Type κ} → Completion A → (A → Completion B) → Completion B
returns a >>= k = k a
throws message g >>= k = throws message g
crashes >>= k = crashes
hangs >>= k = hangs

-- A call of the library whose status is assigned and not looked at.
abbrev pub ignoring_status {ℓ} : {A : Type ℓ} → Outcome A → Completion A
ignoring_status (success a) = returns a
ignoring_status (failure e a) = returns a
ignoring_status fault = crashes
ignoring_status stuck = hangs

-- The functions of libmaxminddb that the binding calls.
pub record Library : Type 0 where
  pub open_database : List ℕ → Mmdb → Outcome Mmdb
  pub lookup_string : Mmdb → List ℕ → Option Error → Outcome StringAnswer
  pub get_value : Mmdb → ℕ → EntryData → VaList → Outcome EntryData
  pub close : Mmdb → Mmdb

-- V8 and the C library: `value->Uint32Value()`, the bytes of `value->ToString()`, gai_strerror
-- (`none` is NULL), the first eight bytes of the union as a little-endian number, and what `new`
-- leaves in an MMDB_entry_data_s.
pub record Platform : Type 0 where
  pub uint32_value : JsValue → ℕ
  pub to_utf8 : JsValue → List ℕ
  pub gai_strerror : ℕ → Option (List ℕ)
  pub word : Value → ℕ
  pub stale : EntryData
  pub stale_result : LookupResult
  pub stale_error : Option Error

-- nonNull
abbrev pub non_null : Option (List ℕ) → List ℕ
non_null none = codes "(Unknown error)"
non_null (some msg) = msg
