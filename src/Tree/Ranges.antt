-- ===== src/Tree/Ranges.antt =====
-- A record of the tree fits a uint32_t.
use node_geoip2c.Base.{Bool-cases, inl, inr}
use node_geoip2c.Types.{Mmdb}
use node_geoip2c.Bytes.{Pointer, get_uint24, get_uint32, get_left_28_bit_record}
use node_geoip2c.Bytes.{get_right_28_bit_record}
use node_geoip2c.Tree.{record_info_for_database, left_record, right_record, next_record}
use node_geoip2c.Tree.Search.{Leads, last, step}
use node_geoip2c.Base.{
  ℕ, ◌^◌, ◌≤◌, ◌<◌, ◌≡◌, Bool, true, false, Option, some, List, arith, ◌==◌, length,
}

getters-lt :
    (p : Pointer) (v : ℕ)
    → (get_uint24 p ≡ some v → v < 2 ^ 32)
      × (get_uint32 p ≡ some v → v < 2 ^ 32)
      × (get_left_28_bit_record p ≡ some v → v < 2 ^ 32)
      × (get_right_28_bit_record p ≡ some v → v < 2 ^ 32)
unfolding get_uint24 get_uint32 get_left_28_bit_record get_right_28_bit_record
getters-lt p v = (λ h. grind arith, λ h. grind arith, λ h. grind arith, λ h. grind arith)

abbrev IsU32 : Option ℕ → Type 0
IsU32 o = (v : ℕ) → o ≡ some v → v < 2 ^ 32

records_lt :
    (m : Mmdb) (node : ℕ)
    → IsU32 (left_record m (record_info_for_database m) node)
      × IsU32 (right_record m (record_info_for_database m) node)
unfolding record_info_for_database left_record right_record
records_lt m node = elim (Bool-cases (m.full_record_byte_size == 6)) [
  | inl six ↦ rw six (λ v. (getters-lt _ v).0, λ v. (getters-lt _ v).0)
  | inr n6 ↦ elim (Bool-cases (m.full_record_byte_size == 7)) [
    | inl seven ↦ rw (n6, seven) (λ v. (getters-lt _ v).2, λ v. (getters-lt _ v).3)
    | inr n7 ↦ elim (Bool-cases (m.full_record_byte_size == 8)) [
      | inl eight ↦ rw (n6, n7, eight) (λ v. (getters-lt _ v).1, λ v. (getters-lt _ v).1)
      | inr n8 ↦ rw (n6, n7, n8) (λ v h. cc, λ v h. cc)
    ]
  ]
]

-- A record fits a uint32_t.
pub next_record-lt :
    (m : Mmdb) (node v : ℕ) (bit : Bool)
    → next_record m (record_info_for_database m) node bit ≡ some v
    → v < 2 ^ 32
unfolding next_record
next_record-lt m node v true h = (records_lt m node).1 v h
next_record-lt m node v false h = (records_lt m node).0 v h

pub Leads-lt :
    (m : Mmdb) {node v : ℕ} {bits : List Bool}
    → Leads m (record_info_for_database m) node bits v
    → (m.metadata.node_count ≤ v) × (v < 2 ^ 32) × (1 ≤ length bits)
Leads-lt m (last {node} {value} {bit} e nz out) =
    (out, next_record-lt m node value bit e, omega arith)
Leads-lt m (step e nz inside l) = omega (arith, Leads-lt m l)
