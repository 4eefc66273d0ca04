-- ===== src/Tree/ShortSpine.antt =====
-- IPv4 lookups in an IPv6 tree whose zero bits lead out of the tree before the IPv4 part begins.
use node_geoip2c.Base.{ℕ, zero, suc, ◌+◌, ◌-◌, ◌≤◌, ◌<◌, ◌≡◌, ◌≢◌, refl, sym, ap, ◌∙◌, arith}
use node_geoip2c.Base.{u16, le→leb, lt→not-leb, some-eq}
use node_geoip2c.Types.{success, Mmdb, Ipv4StartNode, LookupResult}
use node_geoip2c.Tree.{RecordInfo, record_info_for_database, left_record}
use node_geoip2c.Tree.{ipv4_start_loop, address_bit, populate_result, with_mmdb}
use node_geoip2c.Tree.{search_from_start_node, Family, find_address_in_search_tree}
use node_geoip2c.Tree.Search.{Leads, last, step, HasBits}
use node_geoip2c.Tree.Network.{populate_result_lem, find_address-iff-IsNetwork}
use node_geoip2c.Tree.Ranges.{Leads-lt}
use node_geoip2c.Tree.Network.{same_found}
use node_geoip2c.Tree.StartNode.{with_start_node, find_ipv4_start_node_fresh, zero_bit}
use node_geoip2c.Tree.Shortcut.{find_address_start}
use node_geoip2c.Base.{Bool, false, some, List, length}

length-Leads :
    {m : Mmdb} {info : RecordInfo} {node value : ℕ} {bits : List Bool}
    → Leads m info node bits value
    → 1 ≤ length bits
length-Leads (last e nz out) = omega arith
length-Leads (step e nz below l) = omega arith

-- The loop of find_ipv4_start_node counts the zero bits before the last one.
leave :
    (m : Mmdb) (info : RecordInfo) (address : List ℕ) (k i netmask : ℕ) {node value : ℕ}
    {bits : List Bool}
    → Leads m info node bits value
    → HasBits address i bits
    → ((j : ℕ) → i ≤ j → j < i + k → address_bit address j ≡ some false)
    → length bits ≤ k
    → ipv4_start_loop m info k netmask node
      ≡ some (record { netmask = u16 (netmask + (length bits - 1)); node_value = value })
unfolding ipv4_start_loop
leave m info address zero i netmask (last e nz out) has zeros short = absurd (omega arith)
leave m info address zero i netmask (step e nz below l) has zeros short = absurd (omega arith)
leave m info address (suc k) i netmask (last {node} {value} {bit} e nz out) (h0, h) zeros short =
    let is_zero : bit ≡ false = some-eq (sym h0 ∙ zeros i (omega arith) (omega arith)) in
    let left : left_record m info node ≡ some value = zero_bit m info node bit is_zero e in
    let same : netmask + (1 - 1) ≡ netmask = omega arith in rw (left, le→leb _ _ out, same) refl
leave m info address (suc k) i netmask (step {node} {node'} {value} {bit} {bits} e nz below l)
      (h0, h) zeros short =
    let is_zero : bit ≡ false = some-eq (sym h0 ∙ zeros i (omega arith) (omega arith)) in
    let left : left_record m info node ≡ some node' = zero_bit m info node bit is_zero e in
    let some_bit : 1 ≤ length bits = length-Leads l in
    let same : netmask + (suc (length bits) - 1) ≡ netmask + 1 + (length bits - 1) = omega arith in
    rw (left, lt→not-leb _ _ below, same)
      (leave m info address k (i + 1) (netmask + 1) l h
        (λ j p q. zeros j (omega arith) (omega arith)) (omega arith))

module _ (m : Mmdb) (address : List ℕ) (result : LookupResult) (v6 : m.metadata.ip_version ≡ 6)
    (depth : m.depth ≡ 128) (known : (record_info_for_database m).right_record_offset ≢ 0) where
  search_outside :
      (start : Ipv4StartNode)
      → m.metadata.node_count ≤ start.node_value
      → search_from_start_node (with_start_node m start) address result
        ≡ populate_result m m.metadata.node_count start.node_value start.netmask result
  unfolding search_from_start_node populate_result
  search_outside start out = rw (le→leb _ _ out) refl

  -- In an IPv6 database of depth 128 with records of a known size and an empty cache: where the
  -- whole tree has an entry for `::a.b.c.d` with a netmask of at most 96, the lookup of the IPv4
  -- address gives that entry with 129 less the netmask in place of the netmask.
  pub find_address-netmask_reversed :
      (found : LookupResult)
      → m.ipv4_start_node.node_value ≡ 0
      → ((j : ℕ) → j < 96 → address_bit address j ≡ some false)
      → found.netmask ≤ 96
      → find_address_in_search_tree m address Family.inet6 result ≡ success (m, found)
      → (m' : Mmdb) × (find_address_in_search_tree m address Family.inet result
          ≡ success (m', record found { netmask = 129 - found.netmask }))
  find_address-netmask_reversed found empty zeros short h =
      let n =
        (find_address-iff-IsNetwork m address Family.inet6 result known refl (omega arith)
            (omega arith) found).0
          h in
      let (out, fits, some_bit) = Leads-lt m n.leads in
      let found_start =
        leave m (record_info_for_database m) address 96 0 0 n.leads n.has (λ j _. zeros j)
          (omega (arith, n.netmask)) in
      let start : Ipv4StartNode = record {
        netmask = u16 (0 + (length n.bits - 1));
        node_value = n.value;
      } in
      let counted : start.netmask ≡ m.depth - (129 - length n.bits) = omega (arith, n.netmask) in
      let populated =
        populate_result_lem m result n.value (129 - length n.bits) (omega arith) out fits
          (omega arith) (omega (arith, n.offset, n.offset-le)) in
      let reversed =
        ap (λ (r : LookupResult). record r { netmask = 129 - r.netmask })
          (same_found m address found n) in
      (
        with_start_node m start,
        find_address_start m address result v6 depth known m _ v6 known
              (find_ipv4_start_node_fresh m start empty found_start)
            ∙ ap (with_mmdb (with_start_node m start))
                (search_outside start out ∙ rw counted populated ∙ ap (λ r. success r) reversed),
      )
