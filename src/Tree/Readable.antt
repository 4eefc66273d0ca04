-- ===== src/Tree/Readable.antt =====
-- The bytes of the nodes can be read, if the file holds the whole tree.
use node_geoip2c.Base.{Bool, true, false, Option, none, some, List, length, get_elem?-lt, u32}
use node_geoip2c.Base.{◌==◌, leb, Bool-cases, Option-cases, inl, inr, eq→==}
use node_geoip2c.Types.{load}
use node_geoip2c.Bytes.{Pointer, get_uint24, get_uint32, get_left_28_bit_record}
use node_geoip2c.Bytes.{get_right_28_bit_record}
use node_geoip2c.Tree.{
  RecordInfo, record_info_for_database, record_pointer, left_record, right_record,
}
use node_geoip2c.Tree.{next_record, ipv4_start_loop}
use node_geoip2c.Tree.{find_ipv4_start_node}
use node_geoip2c.Base.{ℕ, zero, suc, ◌+◌, ◌*◌, ◌^◌, ◌≤◌, ◌<◌, ◌≡◌, refl, ap, ◌≢◌, arith}
use node_geoip2c.Types.{Mmdb}
use node_geoip2c.Tree.{records_24, records_28, records_32}

-- The first `n` bytes behind `p` are there.
abbrev pub Readable : Pointer → ℕ → Type 0
Readable p n = (i : ℕ) → i < n → p i ≢ none

-- The file is mapped, and holds `node_count` nodes of a known size, within the range of uint32_t.
pub record HoldsTree (m : Mmdb) (base : ℕ) : Type 0 where
  pub mapped : m.file_content ≡ some base
  pub low : 6 ≤ m.full_record_byte_size
  pub high : m.full_record_byte_size ≤ 8
  pub fits : m.metadata.node_count * m.full_record_byte_size < 2 ^ 32
  pub whole : base + m.metadata.node_count * m.full_record_byte_size ≤ length m.mapping

getters_read :
    (p : Pointer)
    → (Readable p 3 → get_uint24 p ≢ none)
      × (Readable p 4
          → (get_uint32 p ≢ none)
            × (get_left_28_bit_record p ≢ none)
            × (get_right_28_bit_record p ≢ none))
unfolding get_uint24 get_uint32 get_left_28_bit_record get_right_28_bit_record
getters_read p = (
  λ r e. ground (arith, r 0, r 1, r 2),
  λ r. (
    λ e. ground (arith, r 0, r 1, r 2, r 3),
    λ e. ground (arith, r 0, r 1, r 2, r 3),
    λ e. ground (arith, r 0, r 1, r 2, r 3),
  ),
)

load-ne-none :
    (mapping : List ℕ) (p : Option ℕ) (base i : ℕ)
    → p ≡ some base
    → base + i < length mapping
    → load mapping p i ≢ none
load-ne-none mapping none base i e inside = λ h. cc
load-ne-none mapping (some q) base i e inside =
    let (b, at) = get_elem?-lt mapping (q + i) (ground arith) in λ h. cc

node_in_tree :
    (node count size i : ℕ)
    → node < count
    → count * size < 2 ^ 32
    → i < size
    → u32 (node * size) + i < count * size
node_in_tree node count size i inside fits below =
    let bound : node * size + size ≤ count * size = grind arith in omega arith

module _ (m : Mmdb) (base : ℕ) (h : HoldsTree m base) where
  -- All bytes of a node can be read.
  record_pointer-Readable :
      (info : RecordInfo) (node n : ℕ)
      → info.record_length ≡ m.full_record_byte_size
      → node < m.metadata.node_count
      → n ≤ m.full_record_byte_size
      → Readable (record_pointer m info node) n
  unfolding record_pointer
  record_pointer-Readable info node n len inside short i below =
      let at =
        node_in_tree node m.metadata.node_count m.full_record_byte_size i inside h.fits
          (omega arith) in
      load-ne-none m.mapping _ base _ h.mapped
        (omega (arith, h.whole, ap (λ (l : ℕ). node * l) len))

  records-ne-none :
      (node : ℕ)
      → node < m.metadata.node_count
      → (left_record m (record_info_for_database m) node ≢ none)
        × (right_record m (record_info_for_database m) node ≢ none)
  unfolding record_info_for_database left_record right_record
  records-ne-none node inside = elim (Bool-cases (m.full_record_byte_size == 6)) [
    | inl six ↦
        let read =
          record_pointer-Readable (records_24 m.full_record_byte_size) node 6 refl inside
            (omega arith) in
        rw six (
          (getters_read _).0 (λ i b. read i (omega arith)),
          (getters_read _).0 (λ i b. read (3 + i) (omega arith)),
        )
    | inr n6 ↦ elim (Bool-cases (m.full_record_byte_size == 7)) [
      | inl seven ↦
          let read =
            record_pointer-Readable (records_28 m.full_record_byte_size) node 7 refl inside
              (ground arith) in
          rw (n6, seven)
            (
              ((getters_read _).1 (λ i b. read i (omega arith))).1,
              ((getters_read _).1 (λ i b. read (3 + i) (omega arith))).2,
            )
      | inr n7 ↦
          let read =
            record_pointer-Readable (records_32 m.full_record_byte_size) node 8 refl inside
              (ground (arith, h.low, h.high)) in
          rw (n6, n7, eq→== m.full_record_byte_size 8 (ground (arith, h.low, h.high)))
            (
              ((getters_read _).1 (λ i b. read i (omega arith))).0,
              ((getters_read _).1 (λ i b. read (4 + i) (omega arith))).0,
            )
    ]
  ]

  pub next_record-ne-none :
      (node : ℕ) (bit : Bool)
      → node < m.metadata.node_count
      → next_record m (record_info_for_database m) node bit ≢ none
  unfolding next_record
  next_record-ne-none node true inside = (records-ne-none node inside).1
  next_record-ne-none node false inside = (records-ne-none node inside).0

  ipv4_start_loop-ne-none :
      (left netmask node : ℕ)
      → node < m.metadata.node_count
      → ipv4_start_loop m (record_info_for_database m) left netmask node ≢ none
  unfolding ipv4_start_loop
  ipv4_start_loop-ne-none zero netmask node inside e = cc
  ipv4_start_loop-ne-none (suc left) netmask node inside e =
      elim (Option-cases (left_record m (record_info_for_database m) node)) [
        | inl gone ↦ (records-ne-none node inside).0 gone
        | inr (value, at) ↦ elim (Bool-cases (leb m.metadata.node_count value)) [
          | inl out ↦ cc (rw (at, out) at e)
          | inr below ↦
              ipv4_start_loop-ne-none left (netmask + 1) value (ground arith) (rw (at, below) at e)
        ]
      ]

  pub find_ipv4_start_node-ne-none : 0 < m.metadata.node_count → find_ipv4_start_node m ≢ none
  unfolding find_ipv4_start_node
  find_ipv4_start_node-ne-none nonempty e = ground (arith, ipv4_start_loop-ne-none 96 0 0 nonempty)
