-- ===== src/Tree/Records.antt =====
-- The layout of a node in the file, as MaxMind-DB-spec.md gives it, and MMDB_read_node.
use node_geoip2c.Base.{ℕ, ◌+◌, ◌*◌, ◌/◌, ◌^◌, ◌≤◌, ◌<◌, ◌≡◌, refl, arith}
use node_geoip2c.Base.{Option, none, some, List, ◌∷◌, ◌++◌, ltb, ◌==◌, le→not-ltb, lt→ltb}
use node_geoip2c.Base.{Bool-cases, inl, inr, true, false, ne→not-==, ◌≢◌}
use node_geoip2c.Base.Tables.{high_nibble}
use node_geoip2c.Types.{Error, success, failure, reading, Mmdb, SearchNode}
use node_geoip2c.Bytes.{Pointer, advance, get_uint24, get_uint32, get_left_28_bit_record}
use node_geoip2c.Bytes.{get_right_28_bit_record}
use node_geoip2c.Bytes.RoundTrip.{to_bytes, Spells}
use node_geoip2c.Tree.{records_24, records_28, records_32, read_node, next_record}
use mathlib.Core.Logic.{◌↔◌}
use node_geoip2c.Tree.{left_record, record_info_for_database, record_pointer, right_record}

-- The bytes of a node with the records `l` and `r`, for a node of 6, 7 or 8 bytes.
unfoldable pub node_bytes_24 : ℕ → ℕ → List ℕ
node_bytes_24 l r = to_bytes 3 l ++ to_bytes 3 r

unfoldable pub node_bytes_28 : ℕ → ℕ → List ℕ
node_bytes_28 l r = to_bytes 3 l ++ ((l / 2 ^ 24 * 16 + r / 2 ^ 24) ∷ to_bytes 3 r)

unfoldable pub node_bytes_32 : ℕ → ℕ → List ℕ
node_bytes_32 l r = to_bytes 4 l ++ to_bytes 4 r

records_24-node_bytes :
    (p : Pointer) (l r : ℕ)
    → l < 2 ^ 24
    → r < 2 ^ 24
    → Spells p (node_bytes_24 l r)
    → (get_uint24 p ≡ some l) × (get_uint24 (advance p 3) ≡ some r)
unfolding node_bytes_24 to_bytes get_uint24
records_24-node_bytes p l r hl hr h = ground arith

records_28-node_bytes :
    (p : Pointer) (l r : ℕ)
    → l < 2 ^ 28
    → r < 2 ^ 28
    → Spells p (node_bytes_28 l r)
    → (get_left_28_bit_record p ≡ some l) × (get_right_28_bit_record (advance p 3) ≡ some r)
unfolding node_bytes_28 to_bytes get_left_28_bit_record get_right_28_bit_record get_uint32
records_28-node_bytes p l r hl hr h = ground (arith, high_nibble (l / 2 ^ 24 * 16 + r / 2 ^ 24))

records_32-node_bytes :
    (p : Pointer) (l r : ℕ)
    → l < 2 ^ 32
    → r < 2 ^ 32
    → Spells p (node_bytes_32 l r)
    → (get_uint32 p ≡ some l) × (get_uint32 (advance p 4) ≡ some r)
unfolding node_bytes_32 to_bytes get_uint32
records_32-node_bytes p l r hl hr h = ground arith

-- The file holds the records `l` and `r` at the node, in the layout of the database.
pub data HoldsNode (m : Mmdb) (node l r : ℕ) : Type 0 where
  node_24 :
      (m.full_record_byte_size == 6) ≡ true
      → l < 2 ^ 24
      → r < 2 ^ 24
      → Spells (record_pointer m (records_24 m.full_record_byte_size) node) (node_bytes_24 l r)
      → HoldsNode m node l r
  node_28 :
      (m.full_record_byte_size == 6) ≡ false
      → (m.full_record_byte_size == 7) ≡ true
      → l < 2 ^ 28
      → r < 2 ^ 28
      → Spells (record_pointer m (records_28 m.full_record_byte_size) node) (node_bytes_28 l r)
      → HoldsNode m node l r
  node_32 :
      (m.full_record_byte_size == 6) ≡ false
      → (m.full_record_byte_size == 7) ≡ false
      → (m.full_record_byte_size == 8) ≡ true
      → l < 2 ^ 32
      → r < 2 ^ 32
      → Spells (record_pointer m (records_32 m.full_record_byte_size) node) (node_bytes_32 l r)
      → HoldsNode m node l r

records-HoldsNode :
    (m : Mmdb) (node l r : ℕ)
    → HoldsNode m node l r
    → (left_record m (record_info_for_database m) node ≡ some l)
      × (right_record m (record_info_for_database m) node ≡ some r)
unfolding left_record right_record record_info_for_database
records-HoldsNode m node l r (node_24 six hl hr h) = rw six (records_24-node_bytes _ l r hl hr h)
records-HoldsNode m node l r (node_28 n6 seven hl hr h) =
    rw (n6, seven) (records_28-node_bytes _ l r hl hr h)
records-HoldsNode m node l r (node_32 n6 n7 eight hl hr h) =
    rw (n6, n7, eight) (records_32-node_bytes _ l r hl hr h)

known-of-HoldsNode :
    (m : Mmdb) (node l r : ℕ)
    → HoldsNode m node l r
    → ((record_info_for_database m).right_record_offset == 0) ≡ false
unfolding record_info_for_database
known-of-HoldsNode m node l r (node_24 six hl hr h) = rw six refl
known-of-HoldsNode m node l r (node_28 n6 seven hl hr h) = rw (n6, seven) refl
known-of-HoldsNode m node l r (node_32 n6 n7 eight hl hr h) = rw (n6, n7, eight) refl

-- The search reads the two records of a node as the layout spells them.
pub next_record-HoldsNode :
    (m : Mmdb) (node l r : ℕ)
    → HoldsNode m node l r
    → (next_record m (record_info_for_database m) node false ≡ some l)
      × (next_record m (record_info_for_database m) node true ≡ some r)
unfolding next_record
next_record-HoldsNode m node l r holds = records-HoldsNode m node l r holds

-- MMDB_read_node gives back the two records that a node of 24-, 28- or 32-bit records was written
-- with, for every node number up to node_count.
pub read_node-HoldsNode :
    (m : Mmdb) (node l r : ℕ) (junk : SearchNode)
    → HoldsNode m node l r
    → node ≤ m.metadata.node_count
    → read_node m node junk ≡ success (record { left_record = l; right_record = r })
unfolding read_node
read_node-HoldsNode m node l r junk holds inside =
    let (left, right) = records-HoldsNode m node l r holds in
    rw (known-of-HoldsNode m node l r holds, le→not-ltb _ _ inside, left, right) refl

two_reads-ne-failure :
    (a b : Option ℕ) (junk : SearchNode)
    → (reading a
        λ left. reading b λ right. success (record { left_record = left; right_record = right }))
      ≢ failure Error.invalid_node_number junk
two_reads-ne-failure none b junk e = cc
two_reads-ne-failure (some a) none junk e = cc
two_reads-ne-failure (some a) (some b) junk e = cc

-- With records of a known size MMDB_read_node refuses a node number exactly when it is greater
-- than node_count; node_count itself, which is the number of no node, is not refused.
pub read_node-invalid_iff :
    (m : Mmdb) (node : ℕ) (junk : SearchNode)
    → (record_info_for_database m).right_record_offset ≢ 0
    → (read_node m node junk ≡ failure Error.invalid_node_number junk)
      ↔ (m.metadata.node_count < node)
unfolding read_node
read_node-invalid_iff m node junk known = (
  λ h. elim (Bool-cases (ltb m.metadata.node_count node)) [
    | inl beyond ↦ ground arith
    | inr inside ↦ absurd (two_reads-ne-failure _ _ junk (rw (ne→not-== _ 0 known, inside) at h))
  ],
  λ h. rw (ne→not-== _ 0 known, lt→ltb _ _ h) refl,
)
