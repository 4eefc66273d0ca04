-- ===== src/Lookup.antt =====
-- resolve_any_address, MMDB_lookup_sockaddr and MMDB_lookup_string of
-- libmaxminddb/src/maxminddb.c. getaddrinfo is a parameter.
pub mod Keeps
pub mod Laws
use node_geoip2c.Base.{
  ℕ, zero, suc, Bool, true, false, ◌&&◌, Option, none, some, List, [], ◌∷◌, ◌++◌,
}
use node_geoip2c.Base.{◌==◌, if◌then◌else◌}
use node_geoip2c.Types.{Error, Outcome, success, failure, fault, stuck, reading, Mmdb, LookupResult}
use node_geoip2c.Tree.{Family, inet, inet6, find_address_in_search_tree}

-- A struct sockaddr_in or sockaddr_in6, as the bytes of its address in network order.
pub data SockAddr : Type 0 where
  sockaddr_in : List ℕ → SockAddr
  sockaddr_in6 : List ℕ → SockAddr

abbrev pub family_of : SockAddr → Family
family_of (sockaddr_in a) = inet
family_of (sockaddr_in6 a) = inet6

-- The hints of resolve_any_address; the socket type is always SOCK_STREAM.
pub record Hints : Type 0 where
  pub numeric_host : Bool
  pub v4_mapped : Bool
  pub family : Family

-- What getaddrinfo returns: 0 or an error code, and the first address of its list.
pub record Resolved : Type 0 where
  pub gai_status : ℕ
  pub addresses : Option SockAddr

-- What a lookup leaves behind: the database, its result and `*mmdb_error` (none is MMDB_SUCCESS).
pub record Answer : Type 0 where
  pub mmdb : Mmdb
  pub result : LookupResult
  pub mmdb_error : Option Error

abbrev pub no_result : LookupResult
no_result = record { found_entry = false; offset = 0; netmask = 0 }

-- `*mmdb_error = find_address_in_search_tree(...)`
abbrev pub answer : Outcome (Mmdb × LookupResult) → Outcome Answer
answer (success (m, r)) = success (record { mmdb = m; result = r; mmdb_error = none })
answer (failure e (m, r)) = success (record { mmdb = m; result = r; mmdb_error = some e })
answer fault = fault
answer stuck = stuck

abbrev pub zero_bytes_12 : List ℕ
zero_bytes_12 = 0 ∷ 0 ∷ 0 ∷ 0 ∷ 0 ∷ 0 ∷ 0 ∷ 0 ∷ 0 ∷ 0 ∷ 0 ∷ 0 ∷ []

-- `mmdb_error` is what `*mmdb_error` holds before: an IPv6 address and an IPv4 database leave it.
unfoldable pub lookup_sockaddr : Mmdb → SockAddr → Option Error → Outcome Answer
lookup_sockaddr m (sockaddr_in6 address) mmdb_error =
    if m.metadata.ip_version == 4
    then success (record { mmdb = m; result = no_result; mmdb_error = mmdb_error })
    else answer (find_address_in_search_tree m address inet6 no_result)
lookup_sockaddr m (sockaddr_in address) mmdb_error =
    if m.metadata.ip_version == 4
    then answer (find_address_in_search_tree m address inet no_result)
    else answer (find_address_in_search_tree m (zero_bytes_12 ++ address) inet no_result)

-- `NULL != strchr(s, ':')`
unfoldable pub has_colon : List ℕ → Bool
has_colon [] = false
has_colon (c ∷ s) = if c == b':' then true else has_colon s

-- A lookup by name has the status of getaddrinfo too.
pub record StringAnswer : Type 0 where
  pub gai_error : ℕ
  pub found : Answer

abbrev pub is_inet6 : SockAddr → Bool
is_inet6 (sockaddr_in a) = false
is_inet6 (sockaddr_in6 a) = true

abbrev pub with_gai_error : ℕ → Outcome Answer → Outcome StringAnswer
with_gai_error n (success a) = success (record { gai_error = n; found = a })
with_gai_error n (failure e a) = failure e (record { gai_error = n; found = a })
with_gai_error n fault = fault
with_gai_error n stuck = stuck

module _ (getaddrinfo : List ℕ → Hints → Resolved) where
  unfoldable pub resolve_any_address : List ℕ → Resolved
  resolve_any_address ipstr =
      if has_colon ipstr
      then getaddrinfo ipstr (record { numeric_host = true; v4_mapped = true; family = inet6 })
      else getaddrinfo ipstr (record { numeric_host = true; v4_mapped = false; family = inet })

  unfoldable pub lookup_string : Mmdb → List ℕ → Option Error → Outcome StringAnswer
  lookup_string m ipstr mmdb_error =
      let resolved = resolve_any_address ipstr in
      let unset : Answer = record { mmdb = m; result = no_result; mmdb_error = mmdb_error } in
      if resolved.gai_status == 0
      then (reading resolved.addresses λ sockaddr.
          if (m.metadata.ip_version == 4) && is_inet6 sockaddr
          then success (record {
            gai_error = 0;
            found = record unset { mmdb_error = some Error.ipv6_lookup_in_ipv4_database };
          })
          else with_gai_error 0 (lookup_sockaddr m sockaddr mmdb_error))
      else success (record { gai_error = resolved.gai_status; found = unset })
