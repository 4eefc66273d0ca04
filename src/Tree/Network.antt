-- ===== src/Tree/Network.antt =====
-- What a found entry says of the address: the network that it belongs to.
use node_geoip2c.Base.{sub32, ne→not-==, le→not-ltb}
use node_geoip2c.Types.{Outcome, success, Mmdb, LookupResult}
use node_geoip2c.Tree.{record_info_for_database, address_bit}
use node_geoip2c.Tree.{search_loop, populate_result, with_mmdb, Family, needs_start_node}
use node_geoip2c.Tree.{find_address_in_search_tree}
use node_geoip2c.Tree.Search.{Leads, HasBits, search_loop-Leads, Found, search_loop-Found}
use mathlib.Core.Logic.{◌↔◌}
use node_geoip2c.Base.{
  ℕ, suc, ◌+◌, ◌-◌, ◌^◌, ◌≤◌, ◌<◌, ◌≡◌, refl, sym, ap, ◌∙◌, ◌≢◌, Bool, false, List, [], ◌∷◌, arith,
  ltb, length, sub16,
}
use node_geoip2c.Tree.Ranges.{Leads-lt}

-- The address lies in the network whose prefix is `bits`, and the tree gives it the entry.
pub record IsNetwork (m : Mmdb) (address : List ℕ) (found : LookupResult) : Type 0 where
  pub bits : List Bool
  pub value : ℕ
  pub leads : Leads m (record_info_for_database m) 0 bits value
  pub has : HasBits address 0 bits
  pub netmask : found.netmask ≡ length bits
  pub netmask-le : length bits ≤ m.depth
  pub offset : found.offset + m.metadata.node_count ≡ value
  pub offset-le : found.offset ≤ m.data_section_size
  pub found_entry : found.found_entry ≡ ltb 0 found.offset

with_mmdb-success :
    (m : Mmdb) (r : Outcome LookupResult) {found : LookupResult}
    → with_mmdb m r ≡ success (m, found)
    → r ≡ success found
with_mmdb-success m r h = ground arith

pub populate_result_lem :
    (m : Mmdb) (result : LookupResult) (value n : ℕ)
    → m.depth < 2 ^ 16
    → m.metadata.node_count ≤ value
    → value < 2 ^ 32
    → n ≤ m.depth
    → value - m.metadata.node_count ≤ m.data_section_size
    → populate_result m m.metadata.node_count value (m.depth - n) result
      ≡ success (record {
        found_entry = ltb 0 (value - m.metadata.node_count);
        offset = value - m.metadata.node_count;
        netmask = n;
      })
unfolding populate_result
populate_result_lem m result value n shallow out fits short inside =
    let offset : sub32 value m.metadata.node_count ≡ value - m.metadata.node_count = omega arith in
    let netmask : sub16 m.depth (m.depth - n) ≡ n = omega arith in
    rw (offset, netmask, le→not-ltb _ _ inside) refl

-- The entry that populate_result gives is the one that IsNetwork describes.
pub same_found :
    (m : Mmdb) (address : List ℕ) (found : LookupResult) (n : IsNetwork m address found)
    → ◌≡◌ {A = LookupResult}
        (record {
          found_entry = ltb 0 (n.value - m.metadata.node_count);
          offset = n.value - m.metadata.node_count;
          netmask = length n.bits;
        })
        found
same_found m address found n =
    let e : n.value - m.metadata.node_count ≡ found.offset = omega (arith, n.offset) in
    ground (arith, e, n.netmask, n.found_entry)

module _ (m : Mmdb) (address : List ℕ) (family : Family) (result : LookupResult)
    (known : (record_info_for_database m).right_record_offset ≢ 0)
    (direct : needs_start_node m family ≡ false) (shallow : m.depth < 2 ^ 16)
    (deep : 0 < m.depth) where
  -- Without the start node the search begins at the root, with the first bit.
  search_direct :
      find_address_in_search_tree m address family result
      ≡ with_mmdb m (search_loop m (record_info_for_database m) address result m.depth 0)
  unfolding find_address_in_search_tree
  search_direct =
      let rounds : suc (sub16 m.depth 1) ≡ m.depth = omega arith in
      rw (ne→not-== _ 0 known, direct, rounds) refl

  populate_result-success :
      (value n : ℕ) (found : LookupResult)
      → m.metadata.node_count ≤ value
      → value < 2 ^ 32
      → n ≤ m.depth
      → populate_result m m.metadata.node_count value (m.depth - n) result ≡ success found
      → (found.netmask ≡ n)
        × (found.offset + m.metadata.node_count ≡ value)
        × (found.offset ≤ m.data_section_size)
        × (found.found_entry ≡ ltb 0 found.offset)
  unfolding populate_result
  populate_result-success value n found out fits short h = ground arith

  IsNetwork-of-Found :
      (found : LookupResult)
      → Found m (record_info_for_database m) address result 0 0 m.depth found
      → IsNetwork m address found
  IsNetwork-of-Found found f =
      let (out, fits, _) = Leads-lt m f.leads in
      let (netmask, offset, inside, has_entry) =
        populate_result-success f.value (length f.bits) found out fits f.fits f.populated in
      record {
        bits = f.bits;
        value = f.value;
        leads = f.leads;
        has = f.has;
        netmask = netmask;
        netmask-le = f.fits;
        offset = offset;
        offset-le = inside;
        found_entry = has_entry;
      }

  -- With records of a known size, a depth from 1 to 65535 and no use of the IPv4 start node, the
  -- search succeeds with an entry exactly when the first `netmask` bits of the address lead out of
  -- the tree, with no record 0 on the way, to a record that is the entry's offset plus node_count,
  -- and that offset is not behind the data section; `found_entry` then says whether it is above 0.
  pub find_address-iff-IsNetwork :
      (found : LookupResult)
      → (find_address_in_search_tree m address family result ≡ success (m, found))
        ↔ IsNetwork m address found
  find_address-iff-IsNetwork found = (
    (λ h.
        let direct_h : search_loop m (record_info_for_database m) address result m.depth 0
            ≡ success found =
          with_mmdb-success m _ (sym search_direct ∙ h) in
        IsNetwork-of-Found found
          (search_loop-Found m _ address result m.depth 0 0 found (omega arith) direct_h)),
    (λ n.
        let (out, fits, _) = Leads-lt m n.leads in
        search_direct
        ∙ ap (with_mmdb m) (
            search_loop-Leads m _ address result 0 m.depth n.leads n.has (omega arith) n.netmask-le)
        ∙ ap (with_mmdb m) (
            populate_result_lem m result n.value (length n.bits) shallow out fits n.netmask-le
              (omega (arith, n.offset)))
        ∙ ap (λ r. success (m, r)) (same_found m address found n)),
  )

HasBits-agree :
    (a b : List ℕ) (i : ℕ) (bits : List Bool)
    → ((j : ℕ) → j < length bits → address_bit a (i + j) ≡ address_bit b (i + j))
    → HasBits a i bits
    → HasBits b i bits
HasBits-agree a b i [] same h = tt
HasBits-agree a b i (bit ∷ bits) same (h0, h) =
    let here : i + 0 ≡ i = omega arith in
    let head : address_bit a i ≡ address_bit b i = rw here at (same 0 (omega arith)) in
    (
      sym head ∙ h0,
      HasBits-agree a b (i + 1) bits
          (λ j hj.
            let there : i + suc j ≡ i + 1 + j = omega arith in
            rw there at (same (suc j) (omega arith)))
          h,
    )

IsNetwork-agree :
    (m : Mmdb) (a b : List ℕ) (found : LookupResult)
    → ((j : ℕ) → j < found.netmask → address_bit a j ≡ address_bit b j)
    → IsNetwork m a found
    → IsNetwork m b found
IsNetwork-agree m a b found same n = record {
  bits = n.bits;
  value = n.value;
  leads = n.leads;
  has =
      HasBits-agree a b 0 n.bits
        (λ j hj.
          let zero_j : 0 + j ≡ j = omega arith in rw zero_j (same j (omega (arith, n.netmask))))
        n.has;
  netmask = n.netmask;
  netmask-le = n.netmask-le;
  offset = n.offset;
  offset-le = n.offset-le;
  found_entry = n.found_entry;
}

-- The netmask of a found entry is sound: with records of a known size, a depth from 1 to 65535 and
-- no use of the IPv4 start node, an address that agrees with the one looked up on its first
-- `netmask` bits is given the same entry and netmask.
pub find_address-agree :
    (m : Mmdb) (a b : List ℕ) (family : Family) (result found : LookupResult)
    → (record_info_for_database m).right_record_offset ≢ 0
    → needs_start_node m family ≡ false
    → m.depth < 2 ^ 16
    → 0 < m.depth
    → ((j : ℕ) → j < found.netmask → address_bit a j ≡ address_bit b j)
    → find_address_in_search_tree m a family result ≡ success (m, found)
    → find_address_in_search_tree m b family result ≡ success (m, found)
find_address-agree m a b family result found known direct shallow deep same h =
    (find_address-iff-IsNetwork m b family result known direct shallow deep found).1 (
      IsNetwork-agree m a b found same
        ((find_address-iff-IsNetwork m a family result known direct shallow deep found).0 h))
