-- ===== src/Tree/Safety.antt =====
-- The search reads nothing outside the tree, if the file holds the whole tree.
use node_geoip2c.Base.{none, List, length, get_elem?-lt, sub16}
use node_geoip2c.Base.{
  ◌==◌, leb, Bool-cases, Option-cases, inl, inr, shr, subst, sym, ◌∙◌, true, ◌≡◌,
}
use node_geoip2c.Types.{LookupResult}
use node_geoip2c.Tree.{record_info_for_database}
use node_geoip2c.Tree.{next_record, address_bit, depth_bit, search_loop, populate_result}
use node_geoip2c.Tree.{find_ipv4_start_node, search_from_start_node, with_mmdb, Family}
use node_geoip2c.Tree.StartNode.{with_start_node, find_ipv4_start_node_cached}
use node_geoip2c.Tree.Search.{depth_bit_at}
use node_geoip2c.Tree.Zeros.{HasLowStart, find_ipv4_start_node-netmask}
use node_geoip2c.Tree.Shortcut.{search_loop_uncached}
use node_geoip2c.Base.{ℕ, zero, suc, ◌-◌, ◌*◌, ◌^◌, ◌≤◌, ◌<◌, ◌≢◌, arith}
use node_geoip2c.Types.{Ipv4StartNode, Mmdb, Outcome, fault, reading, stuck}
use node_geoip2c.Tree.{find_address_in_search_tree, needs_start_node}
use node_geoip2c.Tree.Readable.{HoldsTree, next_record-ne-none, find_ipv4_start_node-ne-none}

-- The C function returns, and reads only what it may.
abbrev pub Ends {ℓ} : {A : Type ℓ} → Outcome A → Type ℓ
Ends r = (r ≢ fault) × (r ≢ stuck)

module _ (m : Mmdb) (base : ℕ) (h : HoldsTree m base) where
  module _ (address : List ℕ) (result : LookupResult) (nonempty : 0 < m.metadata.node_count)
      (deep : m.depth ≤ 8 * length address) (shallow : m.depth < 2 ^ 16)
      (some_bit : 0 < m.depth) where
    address_bit-ne-none : (i : ℕ) → i < m.depth → address_bit address i ≢ none
    unfolding address_bit
    address_bit-ne-none i inside =
        let (b, at) = get_elem?-lt address (shr i 3) (omega arith) in λ e. cc

    depth_bit-ne-none :
        (current_bit : ℕ)
        → suc current_bit ≤ m.depth
        → depth_bit address (sub16 m.depth 1) current_bit ≢ none
    depth_bit-ne-none current_bit within gone =
        address_bit-ne-none (sub16 m.depth 1 - current_bit) (omega arith)
          (sym (depth_bit_at address (sub16 m.depth 1) current_bit _ (omega arith)) ∙ gone)

    populate_result-Ends :
        (value n : ℕ) → Ends (populate_result m m.metadata.node_count value n result)
    unfolding populate_result
    populate_result-Ends value n = (λ e. ground arith, λ e. ground arith)

    search_loop-Ends :
        (rounds node : ℕ)
        → rounds ≤ m.depth
        → node < m.metadata.node_count
        → Ends (search_loop m (record_info_for_database m) address result rounds node)
    unfolding search_loop
    search_loop-Ends zero node within inside = (λ e. cc, λ e. cc)
    search_loop-Ends (suc current_bit) node within inside =
        elim (Option-cases (depth_bit address (sub16 m.depth 1) current_bit)) [
          | inl gone ↦ absurd (depth_bit-ne-none current_bit within gone)
          | inr (bit, at) ↦
              elim (Option-cases (next_record m (record_info_for_database m) node bit)) [
                | inl gone ↦ absurd (next_record-ne-none m base h node bit inside gone)
                | inr (value, read) ↦
                    rw (at, read)
                      (elim (Bool-cases (value == 0)) [
                        | inl z ↦ rw z (λ e. cc, λ e. cc)
                        | inr nz ↦ elim (Bool-cases (leb m.metadata.node_count value)) [
                          | inl out ↦ rw (nz, out) (populate_result-Ends value current_bit)
                          | inr below ↦
                              rw (nz, below)
                                (search_loop-Ends current_bit value (omega arith) (ground arith))
                        ]
                      ])
              ]
        ]

    with_mmdb-Ends : (m' : Mmdb) (r : Outcome LookupResult) → Ends r → Ends (with_mmdb m' r)
    with_mmdb-Ends m' r (nf, ns) = (λ e. ground arith, λ e. ground arith)

    search_from_start_node-Ends :
        (start : Ipv4StartNode)
        → start.netmask < m.depth
        → Ends (search_from_start_node (with_start_node m start) address result)
    unfolding search_from_start_node populate_result record_info_for_database
    search_from_start_node-Ends start low =
        elim (Bool-cases (leb m.metadata.node_count start.node_value)) [
          | inl out ↦ rw out (populate_result-Ends start.node_value start.netmask)
          | inr below ↦
              rw (below, search_loop_uncached m start _ address result _ _)
                (search_loop-Ends _ start.node_value (omega arith) (ground arith))
        ]

    start_node-Ends :
        96 < m.depth
        → HasLowStart m
        → Ends (
            reading
              (find_ipv4_start_node m)
              λ m'. with_mmdb m' (search_from_start_node m' address result))
    start_node-Ends room low = elim (Option-cases (find_ipv4_start_node m)) [
      | inl gone ↦ absurd (find_ipv4_start_node-ne-none m base h nonempty gone)
      | inr (m', found) ↦
          let (same, _) = find_ipv4_start_node_cached m m' found in
          rw found (
            with_mmdb-Ends m' _ (
              subst (λ x. Ends (search_from_start_node x address result)) (sym same)
                (search_from_start_node-Ends m'.ipv4_start_node
                  (omega (arith, find_ipv4_start_node-netmask m m' nonempty low found)))))
    ]

    -- A search of a tree with a node that the file holds in whole, for an address of at least `depth`
    -- bits and a depth from 1 to 65535, ends with a status, and reads neither outside the file nor
    -- before or behind the address. Where it begins at the IPv4 start node, the depth is above 96, and
    -- the cached start node is empty or has a netmask of at most 96, as find_ipv4_start_node leaves it.
    pub find_address-Ends :
        (family : Family)
        → (needs_start_node m family ≡ true → (96 < m.depth) × HasLowStart m)
        → Ends (find_address_in_search_tree m address family result)
    unfolding find_address_in_search_tree
    find_address-Ends family starts =
        elim (Bool-cases ((record_info_for_database m).right_record_offset == 0)) [
          | inl unknown ↦ rw unknown (λ e. cc, λ e. cc)
          | inr known ↦ elim (Bool-cases (needs_start_node m family)) [
            | inl start ↦
                let (room, low) = starts start in rw (known, start) (start_node-Ends room low)
            | inr direct ↦
                rw (known, direct)
                  (with_mmdb-Ends m _ (search_loop-Ends _ 0 (omega arith) nonempty))
          ]
        ]
