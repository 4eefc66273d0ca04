-- ===== src/Tree/StartNode.antt =====
-- find_ipv4_start_node: the cache, and the search that begins at the cached node against the
-- search of the whole tree.
use node_geoip2c.Base.{ℕ, zero, suc, ◌+◌, ◌≤◌, ◌<◌, ◌≡◌, refl, sym, ap, ◌∙◌, arith}
use node_geoip2c.Types.{Mmdb, Ipv4StartNode}
use node_geoip2c.Bytes.{◌>>=◌}
use node_geoip2c.Tree.{
  RecordInfo, record_info_for_database, record_pointer, left_record, next_record,
}
use node_geoip2c.Tree.{ipv4_start_loop, find_ipv4_start_node, address_bit}
use node_geoip2c.Tree.Search.{Leads, last, step, HasBits}
use node_geoip2c.Base.{
  subst, inl, inr, Bool, true, false, Option, none, some, List, leb, ◌==◌, if◌then◌else◌, eq→==,
  Bool-cases, Option-cases, lt→not-leb, some-eq, length, u16,
}

-- The database with a start node in its cache.
abbrev pub with_start_node : Mmdb → Ipv4StartNode → Mmdb
with_start_node m start = record m { ipv4_start_node = start }

-- The loop reads only the tree.
ipv4_start_loop_uncached :
    (m : Mmdb) (start : Ipv4StartNode) (info : RecordInfo) (left netmask node : ℕ)
    → ipv4_start_loop (with_start_node m start) info left netmask node
      ≡ ipv4_start_loop m info left netmask node
unfolding ipv4_start_loop left_record record_pointer
ipv4_start_loop_uncached m start info zero netmask node = refl
ipv4_start_loop_uncached m start info (suc left) netmask node =
    ap (λ (k : ℕ → Option Ipv4StartNode). left_record m info node >>= k)
      (λ i value.
        if leb m.metadata.node_count value
        then some (record { netmask = u16 netmask; node_value = value })
        else ipv4_start_loop_uncached m start info left (netmask + 1) value i)

module _ (m : Mmdb) (start : Ipv4StartNode) where
  -- A first call, with an empty cache.
  pub find_ipv4_start_node_fresh :
      m.ipv4_start_node.node_value ≡ 0
      → ipv4_start_loop m (record_info_for_database m) 96 0 0 ≡ some start
      → find_ipv4_start_node m ≡ some (with_start_node m start)
  unfolding find_ipv4_start_node
  find_ipv4_start_node_fresh empty h = rw (eq→== _ _ empty, h) refl

  pub find_ipv4_start_node_again :
      ipv4_start_loop m (record_info_for_database m) 96 0 0 ≡ some start
      → find_ipv4_start_node (with_start_node m start) ≡ some (with_start_node m start)
  unfolding find_ipv4_start_node record_info_for_database
  find_ipv4_start_node_again h = elim (Bool-cases (start.node_value == 0)) [
    | inr full ↦ rw full refl
    | inl empty ↦ rw (empty, ipv4_start_loop_uncached m start _ 96 0 0, h) refl
  ]

find_ipv4_start_node_full :
    (m : Mmdb) → (m.ipv4_start_node.node_value == 0) ≡ false → find_ipv4_start_node m ≡ some m
unfolding find_ipv4_start_node
find_ipv4_start_node_full m full = rw full refl

find_ipv4_start_node_fault :
    (m : Mmdb)
    → (m.ipv4_start_node.node_value == 0) ≡ true
    → ipv4_start_loop m (record_info_for_database m) 96 0 0 ≡ none
    → find_ipv4_start_node m ≡ none
unfolding find_ipv4_start_node
find_ipv4_start_node_fault m empty fault = rw (empty, fault) refl

-- find_ipv4_start_node changes the cache only, and a second call returns what the first stored.
pub find_ipv4_start_node_cached :
    (m m' : Mmdb)
    → find_ipv4_start_node m ≡ some m'
    → (m' ≡ with_start_node m m'.ipv4_start_node) × (find_ipv4_start_node m' ≡ some m')
find_ipv4_start_node_cached m m' h = elim (Bool-cases (m.ipv4_start_node.node_value == 0)) [
  | inr full ↦
      let same : m ≡ m' = some-eq (sym (find_ipv4_start_node_full m full) ∙ h) in
      subst (λ x. (x ≡ with_start_node m x.ipv4_start_node) × (find_ipv4_start_node x ≡ some x))
        same (refl, find_ipv4_start_node_full m full)
  | inl empty ↦ elim (Option-cases (ipv4_start_loop m (record_info_for_database m) 96 0 0)) [
    | inl fault ↦ cc (h, find_ipv4_start_node_fault m empty fault)
    | inr (start, found) ↦
        let same : with_start_node m start ≡ m' =
          some-eq (sym (find_ipv4_start_node_fresh m start (ground arith) found) ∙ h) in
        subst (λ x. (x ≡ with_start_node m x.ipv4_start_node) × (find_ipv4_start_node x ≡ some x))
          same (refl, find_ipv4_start_node_again m start found)
  ]
]

pub zero_bit :
    (m : Mmdb) (info : RecordInfo) (node : ℕ) (bit : Bool) {v : ℕ}
    → bit ≡ false
    → next_record m info node bit ≡ some v
    → left_record m info node ≡ some v
unfolding next_record
zero_bit m info node bit z e = rw z at e

-- The node that `k` zero bits lead to from `node`, and what is left there of a path out of the
-- tree: the loop of find_ipv4_start_node gets there too.
pub record Descent (m : Mmdb) (info : RecordInfo) (address : List ℕ) (node k i : ℕ)
    (bits : List Bool) (value : ℕ) : Type 0 where
  pub node' : ℕ
  pub rest : List Bool
  pub leads : Leads m info node' rest value
  pub has : HasBits address (i + k) rest
  pub longer : length bits ≡ k + length rest
  pub inside : node' < m.metadata.node_count
  pub loop :
      (netmask : ℕ)
      → ipv4_start_loop m info k netmask node
        ≡ some (record { netmask = u16 (netmask + k); node_value = node' })

pub descend :
    (m : Mmdb) (info : RecordInfo) (address : List ℕ) (k i : ℕ) {node value : ℕ} {bits : List Bool}
    → Leads m info node bits value
    → node < m.metadata.node_count
    → HasBits address i bits
    → ((j : ℕ) → i ≤ j → j < i + k → address_bit address j ≡ some false)
    → k < length bits
    → Descent m info address node k i bits value
unfolding ipv4_start_loop
descend m info address zero i {node} {value} {bits} l inside has zeros longer = record {
  node' = node;
  rest = bits;
  leads = l;
  has = (let same : i + 0 ≡ i = omega arith in rw same has);
  longer = omega arith;
  inside = inside;
  loop = λ netmask. let same : netmask + 0 ≡ netmask = omega arith in rw same refl;
}
descend m info address (suc k) i (last e nz out) inside has zeros longer = absurd (omega arith)
descend m info address (suc k) i (step {node} {node'} {value} {bit} {bits} e nz below l) inside
      (h0, h) zeros longer =
    let is_zero : bit ≡ false = some-eq (sym h0 ∙ zeros i (omega arith) (omega arith)) in
    let left : left_record m info node ≡ some node' = zero_bit m info node bit is_zero e in
    let d =
      descend m info address k (i + 1) l below h (λ j p q. zeros j (omega arith) (omega arith))
        (omega arith) in
    record {
      node' = d.node';
      rest = d.rest;
      leads = d.leads;
      has = (let same : i + suc k ≡ i + 1 + k = omega arith in rw same d.has);
      longer = omega (arith, d.longer);
      inside = d.inside;
      loop = λ netmask.
          let same : netmask + suc k ≡ netmask + 1 + k = omega arith in
          rw (left, lt→not-leb _ _ below, same) (d.loop (netmask + 1));
    }
