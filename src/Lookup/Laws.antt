-- ===== src/Lookup/Laws.antt =====
-- Lookups by address and by name, on every kind of database and address.
use node_geoip2c.Base.{Option, some, List, ◌++◌, length, ◌==◌}
use node_geoip2c.Base.{Bool-cases, inl, inr, eq→==, ne→not-==}
use node_geoip2c.Types.{Error, Outcome, success, Mmdb, LookupResult}
use node_geoip2c.Tree.{inet, inet6}
use node_geoip2c.Tree.Safety.{Ends, find_address-Ends}
use node_geoip2c.Tree.Zeros.{HasLowStart}
use node_geoip2c.Tree.Readable.{HoldsTree}
use node_geoip2c.Lookup.{SockAddr, sockaddr_in, sockaddr_in6, family_of, Hints, Resolved, Answer}
use node_geoip2c.Lookup.{no_result, answer, lookup_sockaddr, has_colon, StringAnswer, is_inet6}
use node_geoip2c.Lookup.{with_gai_error, resolve_any_address, lookup_string, zero_bytes_12}
use node_geoip2c.Base.{ℕ, ◌<◌, ◌≡◌, refl, sym, ◌⊎◌, Bool, true, false, ◌&&◌, arith}

-- An address has 4 bytes in a sockaddr_in and 16 in a sockaddr_in6.
abbrev pub IsSized : SockAddr → Type 0
IsSized (sockaddr_in a) = length a ≡ 4
IsSized (sockaddr_in6 a) = length a ≡ 16

-- The depth fits the IP version, as read_metadata sets it.
abbrev pub HasDepth : Mmdb → Type 0
HasDepth m =
    ((m.metadata.ip_version ≡ 4) × (m.depth ≡ 32)) ⊎ ((m.metadata.ip_version ≡ 6) × (m.depth ≡ 128))

answer-Ends : (r : Outcome (Mmdb × LookupResult)) → Ends r → Ends (answer r)
answer-Ends r (nf, ns) = (λ e. ground arith, λ e. ground arith)

with_gai_error-Ends : (n : ℕ) (r : Outcome Answer) → Ends r → Ends (with_gai_error n r)
with_gai_error-Ends n r (nf, ns) = (λ e. ground arith, λ e. ground arith)

module _ (m : Mmdb) (base : ℕ) (h : HoldsTree m base) (nonempty : 0 < m.metadata.node_count)
    (has_depth : HasDepth m) (low : HasLowStart m) where
  -- MMDB_lookup_sockaddr ends, and reads neither outside the file nor before or behind the address.
  pub lookup_sockaddr-Ends :
      (sockaddr : SockAddr) (mmdb_error : Option Error)
      → IsSized sockaddr
      → Ends (lookup_sockaddr m sockaddr mmdb_error)
  unfolding lookup_sockaddr
  lookup_sockaddr-Ends (sockaddr_in6 a) mmdb_error sized = elim has_depth [
    | inl (v4, depth) ↦ rw (eq→== _ 4 v4) (λ e. cc, λ e. cc)
    | inr (v6, depth) ↦ rw (ne→not-== m.metadata.ip_version 4 (omega arith)) (
        answer-Ends _ (
          find_address-Ends m base h a no_result nonempty (omega arith) (omega arith) (omega arith)
            inet6 (λ s. cc)))
  ]
  lookup_sockaddr-Ends (sockaddr_in a) mmdb_error sized = elim has_depth [
    | inl (v4, depth) ↦ rw (eq→== _ 4 v4) (
        answer-Ends _ (
          find_address-Ends m base h a no_result nonempty (omega arith) (omega arith) (omega arith)
            inet (λ s. absurd (ground arith))))
    | inr (v6, depth) ↦ rw (ne→not-== m.metadata.ip_version 4 (omega arith)) (
        answer-Ends _ (
          find_address-Ends m base h (zero_bytes_12 ++ a) no_result nonempty (omega arith)
            (omega arith) (omega arith) inet (λ s. (omega arith, low))))
  ]

-- A lookup that has not searched the database.
abbrev pub not_searched : Mmdb → ℕ → Option Error → Outcome StringAnswer
not_searched m gai_error mmdb_error = success (record {
  gai_error = gai_error;
  found = record { mmdb = m; result = no_result; mmdb_error = mmdb_error };
})

-- What getaddrinfo documents for a numeric host: where it returns 0 it gives an address of the
-- family that the hints ask for, of that family's size.
pub record GivesAddress (getaddrinfo : List ℕ → Hints → Resolved) : Type 0 where
  pub sockaddr :
      (host : List ℕ) (hints : Hints)
      → (getaddrinfo host hints).gai_status ≡ 0
      → (a : SockAddr) × ((getaddrinfo host hints).addresses ≡ some a)
        × (family_of a ≡ hints.family)
        × IsSized a

module _ (getaddrinfo : List ℕ → Hints → Resolved) (documented : GivesAddress getaddrinfo) where
  resolved_sockaddr :
      (ipstr : List ℕ)
      → (resolve_any_address getaddrinfo ipstr).gai_status ≡ 0
      → (a : SockAddr) × ((resolve_any_address getaddrinfo ipstr).addresses ≡ some a)
        × (is_inet6 a ≡ has_colon ipstr)
        × IsSized a
  unfolding resolve_any_address
  resolved_sockaddr ipstr ok = elim (Bool-cases (has_colon ipstr)) [
    | inl colon ↦
        let (a, at, family, sized) = documented.sockaddr ipstr _ (rw colon at ok) in
        (a, rw colon at, is_inet6-family a true colon family, sized)
    | inr plain ↦
        let (a, at, family, sized) = documented.sockaddr ipstr _ (rw plain at ok) in
        (a, rw plain at, is_inet6-family a false plain family, sized)
  ]
    where
      is_inet6-family :
          (a : SockAddr) (b : Bool)
          → has_colon ipstr ≡ b
          → family_of a ≡ (elim b [ true ↦ inet6 | false ↦ inet ])
          → is_inet6 a ≡ has_colon ipstr
      is_inet6-family (sockaddr_in a) true e f = cc
      is_inet6-family (sockaddr_in a) false e f = sym e
      is_inet6-family (sockaddr_in6 a) true e f = sym e
      is_inet6-family (sockaddr_in6 a) false e f = cc

  -- Where the file holds the whole tree of an IPv4 or IPv6 database, the cached IPv4 start node is
  -- empty or has a netmask of at most 96, and getaddrinfo gives an address of the family and size it
  -- is asked for, MMDB_lookup_string ends for every string, and reads neither outside the file nor
  -- before or behind the address.
  pub lookup_string-Ends :
      (m : Mmdb) (base : ℕ)
      → HoldsTree m base
      → 0 < m.metadata.node_count
      → HasDepth m
      → HasLowStart m
      → (ipstr : List ℕ) (mmdb_error : Option Error)
      → Ends (lookup_string getaddrinfo m ipstr mmdb_error)
  unfolding lookup_string
  lookup_string-Ends m base h nonempty has_depth low ipstr mmdb_error =
      elim (Bool-cases ((resolve_any_address getaddrinfo ipstr).gai_status == 0)) [
        | inr failed ↦ rw failed (λ e. cc, λ e. cc)
        | inl ok ↦
            let (a, at, _, sized) = resolved_sockaddr ipstr (ground arith) in
            let ends = lookup_sockaddr-Ends m base h nonempty has_depth low a mmdb_error sized in
            rw (ok, at)
              (elim (Bool-cases ((m.metadata.ip_version == 4) && is_inet6 a)) [
                | inl refused ↦ rw refused (λ e. cc, λ e. cc)
                | inr searched ↦ rw searched (with_gai_error-Ends 0 _ ends)
              ])
      ]

  -- Where getaddrinfo gives an address, a name with a colon is refused by an IPv4 database with
  -- MMDB_IPV6_LOOKUP_IN_IPV4_DATABASE_ERROR, and nothing is found.
  pub lookup_string-ipv6_in_ipv4 :
      (m : Mmdb) (ipstr : List ℕ) (mmdb_error : Option Error)
      → (resolve_any_address getaddrinfo ipstr).gai_status ≡ 0
      → m.metadata.ip_version ≡ 4
      → has_colon ipstr ≡ true
      → lookup_string getaddrinfo m ipstr mmdb_error
        ≡ not_searched m 0 (some Error.ipv6_lookup_in_ipv4_database)
  unfolding lookup_string
  lookup_string-ipv6_in_ipv4 m ipstr mmdb_error ok v4 colon =
      let (a, at, six, _) = resolved_sockaddr ipstr ok in
      rw (eq→== _ 0 ok, at, eq→== m.metadata.ip_version 4 v4, six, colon) refl
