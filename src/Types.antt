-- ===== src/Types.antt =====
-- libmaxminddb/include/maxminddb.h: the type codes, the error codes and the structs, and the
-- ways in which a C function of the library can end.
--
-- A file is a list of bytes, and a pointer into it is a position in that list (`none` is NULL).
pub mod DataType
use node_geoip2c.Base.{
  ℕ, ◌+◌, ◌≡◌, refl, Bool, true, false, Option, none, some, List, [], get_elem?,
}

-- The MMDB_..._ERROR codes; MMDB_SUCCESS is `success` of `Outcome`.
pub data Error : Type 0 where
  file_open corrupt_search_tree invalid_metadata io out_of_memory unknown_database_format : Error
  invalid_data invalid_lookup_path lookup_path_does_not_match_data : Error
  invalid_node_number ipv6_lookup_in_ipv4_database : Error

-- How a function that returns a status ends, with its output parameter as it leaves it.
-- `fault` is a read outside the file or through NULL, which C leaves undefined; `stuck` is no
-- end of the C function: the model ran out of fuel.
pub data Outcome {ℓ} (A : Type ℓ) : Type ℓ where
  success : A → Outcome A
  failure : Error → A → Outcome A
  fault : Outcome A
  stuck : Outcome A

-- CHECKED_DECODE_ONE and CHECKED_DECODE_ONE_FOLLOW: a status other than MMDB_SUCCESS is returned.
infixl 5 ◌>>=◌
abbrev pub ◌>>=◌ {ℓ} : {A : Type ℓ} → Outcome A → (A → Outcome A) → Outcome A
success a >>= k = k a
failure e a >>= k = failure e a
fault >>= k = fault
stuck >>= k = stuck

-- The same for a call that writes a local variable: the caller's output parameter stays `out`.
abbrev pub into {ℓ κ} : {A : Type ℓ} {B : Type κ} → B → Outcome A → (A → Outcome B) → Outcome B
into out (success a) k = k a
into out (failure e a) k = failure e out
into out fault k = fault
into out stuck k = stuck

-- A read of memory, and what is done with the value.
abbrev pub reading {ℓ κ} : {A : Type ℓ} {B : Type κ} → Option A → (A → Outcome B) → Outcome B
reading none k = fault
reading (some a) k = k a

-- The union of MMDB_entry_data_s, by the member that was written last. A float or double is its
-- bit pattern, an int32 its 32 bits. `utf8_string none` is the literal "", and a position
-- counts from the start of the file. `zeroed` is the union after memset.
pub data Value : Type 0 where
  zeroed : Value
  pointer : ℕ → Value
  utf8_string : Option ℕ → Value
  double_value : ℕ → Value
  bytes : ℕ → Value
  uint16 : ℕ → Value
  uint32 : ℕ → Value
  int32 : ℕ → Value
  uint64 : ℕ → Value
  uint128 : ℕ → Value
  boolean : Bool → Value
  float_value : ℕ → Value

-- MMDB_entry_data_s
pub record EntryData : Type 0 where
  pub has_data : Bool
  pub value : Value
  pub offset : ℕ
  pub offset_to_next : ℕ
  pub data_size : ℕ
  pub type : ℕ

-- MMDB_search_node_s
pub record SearchNode : Type 0 where
  pub left_record : ℕ
  pub right_record : ℕ

-- MMDB_ipv4_start_node_s
pub record Ipv4StartNode : Type 0 where
  pub netmask : ℕ
  pub node_value : ℕ

-- MMDB_description_s
pub record Description : Type 0 where
  pub language : Option (List ℕ)
  pub description : Option (List ℕ)

-- MMDB_metadata_s
pub record Metadata : Type 0 where
  pub node_count : ℕ
  pub record_size : ℕ
  pub ip_version : ℕ
  pub database_type : Option (List ℕ)
  pub languages : List (List ℕ)
  pub binary_format_major_version : ℕ
  pub binary_format_minor_version : ℕ
  pub build_epoch : ℕ
  pub description : List Description

-- MMDB_s, with the bytes that its pointers point into.
pub record Mmdb : Type 0 where
  pub mapping : List ℕ
  pub flags : ℕ
  pub filename : Option (List ℕ)
  pub file_size : ℕ
  pub file_content : Option ℕ
  pub data_section : Option ℕ
  pub data_section_size : ℕ
  pub metadata_section : Option ℕ
  pub metadata_section_size : ℕ
  pub full_record_byte_size : ℕ
  pub depth : ℕ
  pub ipv4_start_node : Ipv4StartNode
  pub metadata : Metadata

-- MMDB_lookup_result_s; its entry points to the database that was searched.
pub record LookupResult : Type 0 where
  pub found_entry : Bool
  pub offset : ℕ
  pub netmask : ℕ

-- memset(entry_data, 0, sizeof(MMDB_entry_data_s))
abbrev pub zeroed_entry : EntryData
zeroed_entry = record {
  has_data = false;
  value = zeroed;
  offset = 0;
  offset_to_next = 0;
  data_size = 0;
  type = 0;
}

-- `p[i]`
abbrev pub load : List ℕ → Option ℕ → ℕ → Option ℕ
load mapping none i = none
load mapping (some p) i = get_elem? mapping (p + i)

-- `mmdb->data_section[i]`
unfoldable pub data_byte : Mmdb → ℕ → Option ℕ
data_byte m i = load m.mapping m.data_section i

-- A read that does not fault, taken apart.
pub reading-eq-success {ℓ κ} :
    {A : Type ℓ} {B : Type κ} (o : Option A) (k : A → Outcome B) {b : B}
    → reading o k ≡ success b
    → (a : A) × (o ≡ some a) × (k a ≡ success b)
reading-eq-success none k h = cc
reading-eq-success (some a) k h = (a, refl, h)

pub >>=-eq-success {ℓ} :
    {A : Type ℓ} (r : Outcome A) (k : A → Outcome A) {b : A}
    → (r >>= k) ≡ success b
    → (a : A) × (r ≡ success a) × (k a ≡ success b)
>>=-eq-success (success a) k h = (a, refl, h)
>>=-eq-success (failure e a) k h = cc
>>=-eq-success fault k h = cc
>>=-eq-success stuck k h = cc

pub into-eq-success {ℓ κ} :
    {A : Type ℓ} {B : Type κ} (out : B) (r : Outcome A) (k : A → Outcome B) {b : B}
    → into out r k ≡ success b
    → (a : A) × (r ≡ success a) × (k a ≡ success b)
into-eq-success out (success a) k h = (a, refl, h)
into-eq-success out (failure e a) k h = cc
into-eq-success out fault k h = cc
into-eq-success out stuck k h = cc
