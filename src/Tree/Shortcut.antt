-- ===== src/Tree/Shortcut.antt =====
-- IPv4 lookups in an IPv6 tree: beginning at the cached start node against searching the whole
-- tree.
use node_geoip2c.Base.{ℕ, zero, suc, ◌-◌, ◌<◌, ◌≡◌, ◌≢◌, refl, ap, ◌∙◌, arith}
use node_geoip2c.Base.{if◌then◌else◌, ne→not-==, eq→==, lt→not-leb}
use node_geoip2c.Tree.{
  RecordInfo, record_info_for_database, record_pointer, left_record, right_record,
}
use node_geoip2c.Tree.{
  next_record, find_ipv4_start_node, address_bit, depth_bit, populate_result, with_mmdb,
}
use node_geoip2c.Tree.{search_loop, search_from_start_node, Family, find_address_in_search_tree}
use node_geoip2c.Tree.Search.{search_loop-Leads}
use node_geoip2c.Tree.Network.{populate_result_lem, find_address-iff-IsNetwork}
use node_geoip2c.Tree.Ranges.{Leads-lt}
use node_geoip2c.Tree.Network.{same_found}
use node_geoip2c.Tree.StartNode.{
  with_start_node, find_ipv4_start_node_fresh, find_ipv4_start_node_again,
}
use node_geoip2c.Tree.StartNode.{descend}
use node_geoip2c.Base.{false, some, List, leb, ◌==◌, length, sub16}
use node_geoip2c.Types.{Error, Ipv4StartNode, LookupResult, Mmdb, failure, reading, success}

pub search_loop_uncached :
    (m : Mmdb) (start : Ipv4StartNode) (info : RecordInfo) (address : List ℕ)
    (result : LookupResult) (rounds node : ℕ)
    → search_loop (with_start_node m start) info address result rounds node
      ≡ search_loop m info address result rounds node
unfolding search_loop next_record left_record right_record record_pointer populate_result
search_loop_uncached m start info address result zero node = refl
search_loop_uncached m start info address result (suc current_bit) node =
    ap (λ k. reading (depth_bit address (sub16 m.depth 1) current_bit) k)
      λ i bit_is_true. reading (next_record m info node bit_is_true) λ value.
        if value == 0
        then failure Error.corrupt_search_tree result
        else if leb m.metadata.node_count value
        then populate_result m m.metadata.node_count value current_bit result
        else search_loop_uncached m start info address result current_bit value i

module _ (m : Mmdb) (address : List ℕ) (result : LookupResult) (v6 : m.metadata.ip_version ≡ 6)
    (depth : m.depth ≡ 128) (known : (record_info_for_database m).right_record_offset ≢ 0) where
  -- With `start` from the 96th bit in the cache, the last 32 bits are searched from there.
  search_cached :
      (node : ℕ)
      → node < m.metadata.node_count
      → search_from_start_node
          (with_start_node m (record { netmask = 96; node_value = node }))
          address
          result
        ≡ search_loop m (record_info_for_database m) address result 32 node
  unfolding search_from_start_node record_info_for_database
  search_cached node inside =
      let rounds : suc (sub16 (sub16 m.depth 1) 96) ≡ 32 = omega arith in
      rw (lt→not-leb _ _ inside, rounds) (search_loop_uncached m _ _ address result 32 node)

  pub find_address_start :
      (m' m'' : Mmdb)
      → m'.metadata.ip_version ≡ 6
      → (record_info_for_database m').right_record_offset ≢ 0
      → find_ipv4_start_node m' ≡ some m''
      → find_address_in_search_tree m' address Family.inet result
        ≡ with_mmdb m'' (search_from_start_node m'' address result)
  unfolding find_address_in_search_tree
  find_address_start m' m'' e k h = rw (ne→not-== _ 0 k, eq→== _ 6 e, h) refl

  -- A look-up of an IPv4 address in an IPv6 database of depth 128 with a node and records of a known
  -- size, with the cache empty and then with the cache that it fills, gives what the search of the
  -- whole tree gives for `::a.b.c.d`, where that finds an entry for a network of more than 96 bits.
  pub find_address-eq-whole_tree :
      (found : LookupResult)
      → m.ipv4_start_node.node_value ≡ 0
      → 0 < m.metadata.node_count
      → ((j : ℕ) → j < 96 → address_bit address j ≡ some false)
      → 96 < found.netmask
      → find_address_in_search_tree m address Family.inet6 result ≡ success (m, found)
      → (m' : Mmdb) × (find_address_in_search_tree m address Family.inet result
          ≡ success (m', found))
        × (find_address_in_search_tree m' address Family.inet result ≡ success (m', found))
  find_address-eq-whole_tree found empty nonempty zeros deep h =
      let n =
        (find_address-iff-IsNetwork m address Family.inet6 result known refl (omega arith)
            (omega arith) found).0
          h in
      let (out, fits, _) = Leads-lt m n.leads in
      let d =
        descend m (record_info_for_database m) address 96 0 n.leads nonempty n.has (λ j _. zeros j)
          (omega (arith, n.netmask)) in
      let start : Ipv4StartNode = record { netmask = 96; node_value = d.node' } in
      let short =
        search_loop-Leads m _ address result 96 32 d.leads d.has (omega arith)
          (omega (arith, d.longer, n.netmask-le)) in
      let same : 32 - length d.rest ≡ m.depth - length n.bits = omega (arith, d.longer) in
      let populated =
        populate_result_lem m result n.value (length n.bits) (omega arith) out fits n.netmask-le
          (omega (arith, n.offset, n.offset-le)) in
      let cached =
        search_cached d.node' d.inside
        ∙ rw same at short
        ∙ populated
        ∙ ap (λ r. success r) (same_found m address found n) in
      let ends = ap (with_mmdb (with_start_node m start)) cached in
      (
        with_start_node m start,
        find_address_start m _ v6 known (find_ipv4_start_node_fresh m start empty (d.loop 0))
            ∙ ends,
        find_address_start (with_start_node m start) _ v6 (unfold record_info_for_database in known)
              (find_ipv4_start_node_again m start (d.loop 0))
            ∙ ends,
      )
