-- ===== src/Tree/Zeros.antt =====
-- find_ipv4_start_node against the node that 96 zero bits lead to.
use node_geoip2c.Base.{
  ℕ, zero, suc, ◌+◌, ◌≤◌, ◌<◌, ◌≡◌, ◌⊎◌, refl, sym, ◌∙◌, subst, arith, some, leb, ◌==◌, eq→==,
  Bool-cases, Option-cases, inl, inr, u16, some-eq,
}
use node_geoip2c.Types.{Mmdb, Ipv4StartNode}
use node_geoip2c.Tree.{
  RecordInfo, record_info_for_database, left_record, ipv4_start_loop, find_ipv4_start_node,
}
use node_geoip2c.Tree.StartNode.{
  with_start_node, find_ipv4_start_node_fresh, find_ipv4_start_node_again,
}

-- From `node` so many zero bits, each at a node of the tree, lead to `value`.
pub data Zeros (m : Mmdb) (info : RecordInfo) : ℕ → ℕ → ℕ → Type 0 where
  stay : {node : ℕ} → Zeros m info node zero node
  left :
      {node node' k value : ℕ}
      → node < m.metadata.node_count
      → left_record m info node ≡ some node'
      → Zeros m info node' k value
      → Zeros m info node (suc k) value

-- The loop stopped: by its `break`, which does not count the bit that left the tree, or at its end.
abbrev Stopped : Mmdb → RecordInfo → ℕ → ℕ → ℕ → Ipv4StartNode → Type 0
Stopped m info rounds netmask node start =
    ((k : ℕ) × (k < rounds)
      × (start.netmask ≡ netmask + k)
      × (m.metadata.node_count ≤ start.node_value)
      × Zeros m info node (suc k) start.node_value)
    ⊎ ((start.netmask ≡ netmask + rounds)
        × (start.node_value < m.metadata.node_count)
        × Zeros m info node rounds start.node_value)

-- What the IPv4 addresses of an IPv6 tree begin with: the node behind 96 zero bits, or the record
-- where fewer than 96 zero bits and one more lead out of the tree.
abbrev pub IsStartNode : Mmdb → Ipv4StartNode → Type 0
IsStartNode m start =
    ((start.netmask < 96)
      × (m.metadata.node_count ≤ start.node_value)
      × Zeros m (record_info_for_database m) 0 (suc start.netmask) start.node_value)
    ⊎ ((start.netmask ≡ 96)
        × (start.node_value < m.metadata.node_count)
        × Zeros m (record_info_for_database m) 0 96 start.node_value)

ipv4_start_loop-Stopped :
    (m : Mmdb) (info : RecordInfo) (rounds netmask node : ℕ) (start : Ipv4StartNode)
    → node < m.metadata.node_count
    → netmask + rounds ≤ 96
    → ipv4_start_loop m info rounds netmask node ≡ some start
    → Stopped m info rounds netmask node start
unfolding ipv4_start_loop
ipv4_start_loop-Stopped m info zero netmask node start inside small h =
    let low : u16 netmask ≡ netmask + zero = omega arith in
    subst (Stopped m info zero netmask node) (some-eq h) (inr (low, inside, Zeros.stay))
ipv4_start_loop-Stopped m info (suc rounds) netmask node start inside small h =
    elim (Option-cases (left_record m info node)) [
      | inl gone ↦ let bad = rw gone at h in cc
      | inr (value, read) ↦ elim (Bool-cases (leb m.metadata.node_count value)) [
        | inl out ↦
            let low : u16 netmask ≡ netmask + zero = omega arith in
            subst (Stopped m info (suc rounds) netmask node) (some-eq (rw (read, out) at h))
              (inl (zero, omega arith, low, ground arith, Zeros.left inside read Zeros.stay))
        | inr below ↦
            let rest =
              ipv4_start_loop-Stopped m info rounds (netmask + 1) value start (ground arith)
                (omega arith) (rw (read, below) at h) in
            elim rest [
              | inl (k, fits, counted, out, zeros) ↦
                  inl (suc k, omega arith, omega arith, out, Zeros.left inside read zeros)
              | inr (counted, in_tree, zeros) ↦
                  inr (omega arith, in_tree, Zeros.left inside read zeros)
            ]
      ]
    ]

IsStartNode-of-Stopped :
    (m : Mmdb) (start : Ipv4StartNode)
    → Stopped m (record_info_for_database m) 96 0 0 start
    → IsStartNode m start
IsStartNode-of-Stopped m start (inl (k, fits, counted, out, zeros)) =
    let same : k ≡ start.netmask = omega arith in
    inl (
      omega arith,
      out,
      subst (λ n. Zeros m (record_info_for_database m) 0 (suc n) start.node_value) same zeros,
    )
IsStartNode-of-Stopped m start (inr (counted, inside, zeros)) = inr (omega arith, inside, zeros)

-- With an empty cache and a tree with a node, find_ipv4_start_node caches the node that 96 zero bits
-- lead to from the root, with netmask 96; or, where zero bits lead out of the tree before that, the
-- first record that is no node, with a netmask one less than the bits that lead to it. It changes
-- nothing but the cache, and a second call returns the same.
pub find_ipv4_start_node-IsStartNode :
    (m m' : Mmdb)
    → m.ipv4_start_node.node_value ≡ 0
    → 0 < m.metadata.node_count
    → find_ipv4_start_node m ≡ some m'
    → IsStartNode m m'.ipv4_start_node
      × (m' ≡ with_start_node m m'.ipv4_start_node)
      × (find_ipv4_start_node m' ≡ some m')
unfolding find_ipv4_start_node
find_ipv4_start_node-IsStartNode m m' empty nonempty h =
    elim (Option-cases (ipv4_start_loop m (record_info_for_database m) 96 0 0)) [
      | inl gone ↦ let bad = rw (eq→== _ 0 empty, gone) at h in cc
      | inr (start, found) ↦
          let same : with_start_node m start ≡ m' =
            some-eq (sym (find_ipv4_start_node_fresh m start empty found) ∙ h) in
          subst
            (λ x.
              IsStartNode m x.ipv4_start_node
              × (x ≡ with_start_node m x.ipv4_start_node)
              × (find_ipv4_start_node x ≡ some x))
            same
            (
              IsStartNode-of-Stopped m start
                  (ipv4_start_loop-Stopped m _ 96 0 0 start nonempty (omega arith) found),
              refl,
              find_ipv4_start_node_again m start found,
            )
    ]

IsStartNode-le : (m : Mmdb) (start : Ipv4StartNode) → IsStartNode m start → start.netmask ≤ 96
IsStartNode-le m start (inl (low, _, _)) = omega arith
IsStartNode-le m start (inr (last, _, _)) = omega arith

-- A cache that is empty, or that holds a netmask that find_ipv4_start_node stores.
abbrev pub HasLowStart : Mmdb → Type 0
HasLowStart m = (m.ipv4_start_node.node_value ≡ 0) ⊎ (m.ipv4_start_node.netmask ≤ 96)

pub find_ipv4_start_node-netmask :
    (m m' : Mmdb)
    → 0 < m.metadata.node_count
    → HasLowStart m
    → find_ipv4_start_node m ≡ some m'
    → m'.ipv4_start_node.netmask ≤ 96
unfolding find_ipv4_start_node
find_ipv4_start_node-netmask m m' nonempty low h =
    elim (Bool-cases (m.ipv4_start_node.node_value == 0)) [
      | inl empty ↦
          IsStartNode-le m m'.ipv4_start_node
            (find_ipv4_start_node-IsStartNode m m' (ground arith) nonempty h).0
      | inr full ↦ elim low [
        | inl empty ↦ ground arith
        | inr small ↦
            subst (λ (x : Mmdb). x.ipv4_start_node.netmask ≤ 96) (some-eq (rw full at h)) small
      ]
    ]
