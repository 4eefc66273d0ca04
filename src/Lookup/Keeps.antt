-- ===== src/Lookup/Keeps.antt =====
-- A lookup changes nothing of the database but its IPv4 start node, and needs no fuel.
use node_geoip2c.Base.{
  ℕ, zero, suc, ◌≡◌, ◌≢◌, refl, arith, ◌&&◌, Option, List, ◌++◌, ◌==◌, Bool-cases, Option-cases,
  inl, inr, sub16,
}
use node_geoip2c.Types.{Error, Outcome, success, failure, fault, stuck, Mmdb, LookupResult}
use node_geoip2c.Tree.{
  Family, RecordInfo, record_info_for_database, find_address_in_search_tree, search_loop,
  search_from_start_node, populate_result, find_ipv4_start_node, needs_start_node, with_mmdb,
  next_record, depth_bit,
}
use node_geoip2c.Tree.StartNode.{with_start_node, find_ipv4_start_node_cached}
use node_geoip2c.Lookup.{
  SockAddr, sockaddr_in, sockaddr_in6, Hints, Resolved, Answer, no_result, answer, lookup_sockaddr,
  StringAnswer, is_inet6, with_gai_error, resolve_any_address, lookup_string, zero_bytes_12,
}

-- The other database differs in its cached start node at most.
abbrev pub DiffersInStartNode : Mmdb → Mmdb → Type 0
DiffersInStartNode m m' = m' ≡ with_start_node m m'.ipv4_start_node

abbrev Leaves : Mmdb → Outcome (Mmdb × LookupResult) → Type 0
Leaves m (success (m', r)) = DiffersInStartNode m m'
Leaves m (failure e (m', r)) = DiffersInStartNode m m'
Leaves m fault = Unit {0}
Leaves m stuck = ⊥

abbrev LeavesAnswer : Mmdb → Outcome Answer → Type 0
LeavesAnswer m (success a) = DiffersInStartNode m a.mmdb
LeavesAnswer m (failure e a) = DiffersInStartNode m a.mmdb
LeavesAnswer m fault = Unit {0}
LeavesAnswer m stuck = ⊥

-- What a lookup by name leaves.
abbrev pub LeavesFound : Mmdb → Outcome StringAnswer → Type 0
LeavesFound m (success a) = DiffersInStartNode m a.found.mmdb
LeavesFound m (failure e a) = DiffersInStartNode m a.found.mmdb
LeavesFound m fault = Unit {0}
LeavesFound m stuck = ⊥

populate_result-ne-stuck :
    (m : Mmdb) (n value netmask : ℕ) (r : LookupResult)
    → populate_result m n value netmask r ≢ stuck
unfolding populate_result
populate_result-ne-stuck m n value netmask r h = ground arith

search_loop-ne-stuck :
    (m : Mmdb) (info : RecordInfo) (address : List ℕ) (r : LookupResult) (rounds value : ℕ)
    → search_loop m info address r rounds value ≢ stuck
unfolding search_loop
search_loop-ne-stuck m info address r zero value h = cc
search_loop-ne-stuck m info address r (suc rounds) value h =
    elim (Option-cases (depth_bit address (sub16 m.depth 1) rounds)) [
      | inl gone ↦ let bad = rw gone at h in cc
      | inr (bit, chosen) ↦ elim (Option-cases (next_record m info value bit)) [
        | inl gone ↦ let bad = rw (chosen, gone) at h in cc
        | inr (value', next) ↦
            let h' = rw (chosen, next) at h in
            ground (
              arith,
              search_loop-ne-stuck m info address r rounds value',
              populate_result-ne-stuck m m.metadata.node_count value' rounds r,
            )
      ]
    ]

with_mmdb-Leaves :
    (m m' : Mmdb) (o : Outcome LookupResult)
    → DiffersInStartNode m m'
    → o ≢ stuck
    → Leaves m (with_mmdb m' o)
with_mmdb-Leaves m m' (success r) same ends = same
with_mmdb-Leaves m m' (failure e r) same ends = same
with_mmdb-Leaves m m' fault same ends = _
with_mmdb-Leaves m m' stuck same ends = absurd (ends refl)

search_from_start_node-ne-stuck :
    (m : Mmdb) (address : List ℕ) (r : LookupResult) → search_from_start_node m address r ≢ stuck
unfolding search_from_start_node
search_from_start_node-ne-stuck m address r h = ground (
  arith,
  populate_result-ne-stuck m m.metadata.node_count m.ipv4_start_node.node_value
      m.ipv4_start_node.netmask r,
  search_loop-ne-stuck m (record_info_for_database m) address r
      (suc (sub16 (sub16 m.depth 1) m.ipv4_start_node.netmask)) m.ipv4_start_node.node_value,
)

find_address-Leaves :
    (m : Mmdb) (address : List ℕ) (family : Family) (r : LookupResult)
    → Leaves m (find_address_in_search_tree m address family r)
unfolding find_address_in_search_tree
find_address-Leaves m address family r =
    elim (Bool-cases ((record_info_for_database m).right_record_offset == 0)) [
      | inl unknown ↦ rw unknown refl
      | inr known ↦ elim (Bool-cases (needs_start_node m family)) [
        | inr direct ↦
            rw (known, direct)
              (with_mmdb-Leaves m m _ refl (
                search_loop-ne-stuck m (record_info_for_database m) address r
                  (suc (sub16 m.depth 1)) 0))
        | inl start ↦ elim (Option-cases (find_ipv4_start_node m)) [
          | inl gone ↦ rw (known, start, gone) _
          | inr (m', found) ↦
              rw (known, start, found)
                (with_mmdb-Leaves m m' _ (find_ipv4_start_node_cached m m' found).0
                  (search_from_start_node-ne-stuck m' address r))
        ]
      ]
    ]

answer-Leaves :
    (m : Mmdb) (o : Outcome (Mmdb × LookupResult)) → Leaves m o → LeavesAnswer m (answer o)
answer-Leaves m (success (m', r)) h = h
answer-Leaves m (failure e (m', r)) h = h
answer-Leaves m fault h = h
answer-Leaves m stuck h = h

lookup_sockaddr-Leaves :
    (m : Mmdb) (sockaddr : SockAddr) (mmdb_error : Option Error)
    → LeavesAnswer m (lookup_sockaddr m sockaddr mmdb_error)
unfolding lookup_sockaddr
lookup_sockaddr-Leaves m (sockaddr_in6 a) mmdb_error =
    elim (Bool-cases (m.metadata.ip_version == 4)) [
      | inl v4 ↦ rw v4 refl
      | inr v6 ↦ rw v6 (answer-Leaves m _ (find_address-Leaves m a Family.inet6 no_result))
    ]
lookup_sockaddr-Leaves m (sockaddr_in a) mmdb_error =
    elim (Bool-cases (m.metadata.ip_version == 4)) [
      | inl v4 ↦ rw v4 (answer-Leaves m _ (find_address-Leaves m a Family.inet no_result))
      | inr v6 ↦
          rw v6
            (answer-Leaves m _ (find_address-Leaves m (zero_bytes_12 ++ a) Family.inet no_result))
    ]

with_gai_error-Leaves :
    (n : ℕ) (m : Mmdb) (o : Outcome Answer) → LeavesAnswer m o → LeavesFound m (with_gai_error n o)
with_gai_error-Leaves n m (success a) h = h
with_gai_error-Leaves n m (failure e a) h = h
with_gai_error-Leaves n m fault h = h
with_gai_error-Leaves n m stuck h = h

-- MMDB_lookup_string leaves the database as it was but for its IPv4 start node, on every branch, and
-- does not run out of fuel, for any database and any getaddrinfo.
pub lookup_string-LeavesFound :
    (getaddrinfo : List ℕ → Hints → Resolved) (m : Mmdb) (ipstr : List ℕ)
    (mmdb_error : Option Error)
    → LeavesFound m (lookup_string getaddrinfo m ipstr mmdb_error)
unfolding lookup_string
lookup_string-LeavesFound getaddrinfo m ipstr mmdb_error =
    elim (Bool-cases ((resolve_any_address getaddrinfo ipstr).gai_status == 0)) [
      | inr failed ↦ rw failed refl
      | inl ok ↦ elim (Option-cases (resolve_any_address getaddrinfo ipstr).addresses) [
        | inl gone ↦ rw (ok, gone) _
        | inr (a, at) ↦ elim (Bool-cases ((m.metadata.ip_version == 4) && is_inet6 a)) [
          | inl refused ↦ rw (ok, at) (rw refused refl)
          | inr searched ↦
              rw (ok, at)
                (rw searched (with_gai_error-Leaves 0 m _ (lookup_sockaddr-Leaves m a mmdb_error)))
        ]
      ]
    ]
