-- ===== src/Tests/Trees.antt =====
-- Runs on the trees of the test databases.
use node_geoip2c.Base.{some, List, [], ◌∷◌, ◌++◌, length, ◌==◌, get_elem?, shr}
use node_geoip2c.Types.{Error, success, failure, Mmdb, LookupResult, SearchNode}
use node_geoip2c.Bytes.{get_uint24}
use node_geoip2c.Bytes.RoundTrip.{to_bytes}
use node_geoip2c.Tree.{
  record_info_for_database, left_record, right_record, record_pointer, next_record,
}
use node_geoip2c.Tree.{
  depth_bit, address_bit, search_loop, populate_result, Family, find_ipv4_start_node,
}
use node_geoip2c.Tree.{find_address_in_search_tree, read_node, ipv4_start_loop}
use node_geoip2c.Tree.Network.{IsNetwork, find_address-iff-IsNetwork, find_address-agree}
use node_geoip2c.Tree.StartNode.{with_start_node}
use node_geoip2c.Tree.Zeros.{IsStartNode, find_ipv4_start_node-IsStartNode}
use node_geoip2c.Tree.Shortcut.{find_address-eq-whole_tree}
use node_geoip2c.Tree.ShortSpine.{find_address-netmask_reversed}
use node_geoip2c.Tree.Safety.{Ends, find_address-Ends}
use node_geoip2c.Tree.Readable.{HoldsTree}
use node_geoip2c.Tree.Records.{
  HoldsNode, node_24, node_bytes_24, read_node-HoldsNode, read_node-invalid_iff,
}
use node_geoip2c.Lookup.{zero_bytes_12}
use node_geoip2c.Tests.{ipv4_db, ipv6_db, junk}
use mathlib.Core.Logic.{◌↔◌}
use node_geoip2c.Base.{ℕ, zero, suc, ◌-◌, ◌<◌, ◌≡◌, refl, ◌≢◌, Bool, true, false, ◌&&◌, arith, inl}

abbrev low_address : List ℕ
low_address = 1 ∷ 2 ∷ 3 ∷ 4 ∷ []

abbrev other_address : List ℕ
other_address = 100 ∷ 2 ∷ 3 ∷ 4 ∷ []

abbrev low_found : LookupResult
low_found = record { found_entry = true; offset = 16; netmask = 1 }

ipv4_db_known : (record_info_for_database ipv4_db).right_record_offset ≢ 0
unfolding record_info_for_database
ipv4_db_known h = omega arith

ipv4_db_search :
    find_address_in_search_tree ipv4_db low_address Family.inet junk ≡ success (ipv4_db, low_found)
unfolding find_address_in_search_tree record_info_for_database search_loop depth_bit address_bit
    next_record left_record right_record record_pointer get_uint24 populate_result
ipv4_db_search = refl

find_address-iff-IsNetwork_example :
    (find_address_in_search_tree ipv4_db low_address Family.inet junk
      ≡ success (ipv4_db, low_found))
    ↔ IsNetwork ipv4_db low_address low_found
find_address-iff-IsNetwork_example =
    find_address-iff-IsNetwork ipv4_db low_address Family.inet junk ipv4_db_known refl (omega arith)
      (omega arith) low_found

low_and_other : (j : ℕ) → j < 1 → address_bit low_address j ≡ address_bit other_address j
unfolding address_bit
low_and_other zero h = refl
low_and_other (suc j) h = absurd (omega arith)

find_address-agree_example :
    find_address_in_search_tree ipv4_db other_address Family.inet junk
    ≡ success (ipv4_db, low_found)
find_address-agree_example =
    find_address-agree ipv4_db low_address other_address Family.inet junk low_found ipv4_db_known
      refl (omega arith) (omega arith) low_and_other ipv4_db_search

some_node : SearchNode
some_node = record { left_record = 0; right_record = 0 }

ipv4_db_node : HoldsNode ipv4_db 0 17 1
unfolding record_pointer node_bytes_24 to_bytes
ipv4_db_node =
    node_24 refl (omega arith) (omega arith) (refl, (refl, (refl, (refl, (refl, (refl, tt))))))

read_node-HoldsNode_example :
    read_node ipv4_db 0 some_node ≡ success (record { left_record = 17; right_record = 1 })
read_node-HoldsNode_example =
    read_node-HoldsNode ipv4_db 0 17 1 some_node ipv4_db_node (omega arith)

read_node-invalid_iff_example :
    (read_node ipv4_db 2 some_node ≡ failure Error.invalid_node_number some_node)
    ↔ (ipv4_db.metadata.node_count < 2)
read_node-invalid_iff_example = read_node-invalid_iff ipv4_db 2 some_node ipv4_db_known

-- The address ::1.2.3.4 in the layout of an IPv6 address.
abbrev long_address : List ℕ
long_address = zero_bytes_12 ++ low_address

abbrev all_zero : List ℕ → Bool
all_zero [] = true
all_zero (b ∷ bs) = (b == 0) && all_zero bs

zero_byte :
    (zeros rest : List ℕ) (i : ℕ)
    → all_zero zeros ≡ true
    → i < length zeros
    → get_elem? (zeros ++ rest) i ≡ some 0
zero_byte [] rest i h inside = absurd (omega arith)
zero_byte (b ∷ bs) rest zero h inside = ground arith
zero_byte (b ∷ bs) rest (suc i) h inside = ground (arith, zero_byte bs rest i)

long_address_zeros : (j : ℕ) → j < 96 → address_bit long_address j ≡ some false
unfolding address_bit
long_address_zeros j h =
    rw (zero_byte zero_bytes_12 low_address (shr j 3) refl (omega arith)) (ground arith)

abbrev long_found : ℕ → LookupResult
long_found netmask = record { found_entry = true; offset = 16; netmask = netmask }

ipv6_db_97 :
    find_address_in_search_tree (ipv6_db 97) long_address Family.inet6 junk
    ≡ success (ipv6_db 97, long_found 97)
unfolding find_address_in_search_tree record_info_for_database search_loop depth_bit address_bit
    next_record left_record right_record record_pointer get_uint24 populate_result
ipv6_db_97 = refl

ipv6_db_3 :
    find_address_in_search_tree (ipv6_db 3) long_address Family.inet6 junk
    ≡ success (ipv6_db 3, long_found 3)
unfolding find_address_in_search_tree record_info_for_database search_loop depth_bit address_bit
    next_record left_record right_record record_pointer get_uint24 populate_result
ipv6_db_3 = refl

ipv6_db_97_known : (record_info_for_database (ipv6_db 97)).right_record_offset ≢ 0
unfolding record_info_for_database
ipv6_db_97_known h = omega arith

ipv6_db_3_known : (record_info_for_database (ipv6_db 3)).right_record_offset ≢ 0
unfolding record_info_for_database
ipv6_db_3_known h = omega arith

find_address-eq-whole_tree_example :
    (m : Mmdb) × (find_address_in_search_tree (ipv6_db 97) long_address Family.inet junk
      ≡ success (m, long_found 97))
    × (find_address_in_search_tree m long_address Family.inet junk ≡ success (m, long_found 97))
find_address-eq-whole_tree_example =
    find_address-eq-whole_tree (ipv6_db 97) long_address junk refl refl ipv6_db_97_known
      (long_found 97) refl (omega arith) long_address_zeros (omega arith) ipv6_db_97

find_address-netmask_reversed_example :
    (m : Mmdb) × (find_address_in_search_tree (ipv6_db 3) long_address Family.inet junk
      ≡ success (m, record (long_found 3) { netmask = 129 - 3 }))
find_address-netmask_reversed_example =
    find_address-netmask_reversed (ipv6_db 3) long_address junk refl refl ipv6_db_3_known
      (long_found 3) refl long_address_zeros (omega arith) ipv6_db_3

ipv6_db_3_start :
    find_ipv4_start_node (ipv6_db 3)
    ≡ some (with_start_node (ipv6_db 3) (record { netmask = 2; node_value = 19 }))
unfolding find_ipv4_start_node ipv4_start_loop record_info_for_database left_record record_pointer
    get_uint24
ipv6_db_3_start = refl

find_ipv4_start_node-IsStartNode_example :
    IsStartNode (ipv6_db 3) (record { netmask = 2; node_value = 19 })
    × (with_start_node (ipv6_db 3) (record { netmask = 2; node_value = 19 })
        ≡ with_start_node
            (with_start_node (ipv6_db 3) (record { netmask = 2; node_value = 19 }))
            (record { netmask = 2; node_value = 19 }))
    × (find_ipv4_start_node (with_start_node (ipv6_db 3) (record { netmask = 2; node_value = 19 }))
        ≡ some (with_start_node (ipv6_db 3) (record { netmask = 2; node_value = 19 })))
find_ipv4_start_node-IsStartNode_example =
    find_ipv4_start_node-IsStartNode (ipv6_db 3)
      (with_start_node (ipv6_db 3) (record { netmask = 2; node_value = 19 })) refl (omega arith)
      ipv6_db_3_start

ipv6_db_3_tree : HoldsTree (ipv6_db 3) 0
ipv6_db_3_tree = record {
  mapped = refl;
  low = omega arith;
  high = omega arith;
  fits = omega arith;
  whole = omega arith;
}

find_address-Ends_example :
    Ends (find_address_in_search_tree (ipv6_db 3) long_address Family.inet junk)
find_address-Ends_example =
    find_address-Ends (ipv6_db 3) 0 ipv6_db_3_tree long_address junk (omega arith) (omega arith)
      (omega arith) (omega arith) Family.inet (λ s. (omega arith, inl refl))
