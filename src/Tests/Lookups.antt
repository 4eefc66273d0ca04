-- ===== src/Tests/Lookups.antt =====
-- Runs of the lookups by address and by name on the test databases.
use node_geoip2c.Base.{List, [], ◌∷◌, inl}
use node_geoip2c.Types.{Error}
use node_geoip2c.Tree.Safety.{Ends}
use node_geoip2c.Tree.Readable.{HoldsTree}
use node_geoip2c.Lookup.{sockaddr_in, has_colon, lookup_sockaddr}
use node_geoip2c.Lookup.{lookup_string, resolve_any_address}
use node_geoip2c.Lookup.Laws.{HasDepth, not_searched, lookup_sockaddr-Ends, lookup_string-Ends}
use node_geoip2c.Lookup.Laws.{lookup_string-ipv6_in_ipv4}
use node_geoip2c.Tests.{ipv4_db, one_host, one_host-GivesAddress}
use node_geoip2c.Base.{ℕ, ◌≡◌, refl, true, none, some, arith}

ipv4_db-HoldsTree : HoldsTree ipv4_db 0
ipv4_db-HoldsTree = record {
  mapped = refl;
  low = omega arith;
  high = omega arith;
  fits = omega arith;
  whole = omega arith;
}

ipv4_db-HasDepth : HasDepth ipv4_db
ipv4_db-HasDepth = inl (refl, refl)

abbrev colons : List ℕ
colons = 58 ∷ 58 ∷ 49 ∷ []

lookup_sockaddr-Ends_example :
    Ends (lookup_sockaddr ipv4_db (sockaddr_in (1 ∷ 2 ∷ 3 ∷ 4 ∷ [])) none)
lookup_sockaddr-Ends_example =
    lookup_sockaddr-Ends ipv4_db 0 ipv4_db-HoldsTree (omega arith) ipv4_db-HasDepth (inl refl)
      (sockaddr_in (1 ∷ 2 ∷ 3 ∷ 4 ∷ [])) none refl

lookup_string-Ends_example : Ends (lookup_string one_host ipv4_db (49 ∷ []) none)
lookup_string-Ends_example =
    lookup_string-Ends one_host one_host-GivesAddress ipv4_db 0 ipv4_db-HoldsTree (omega arith)
      ipv4_db-HasDepth (inl refl) (49 ∷ []) none

one_host_resolves : (resolve_any_address one_host colons).gai_status ≡ 0
unfolding resolve_any_address has_colon
one_host_resolves = refl

colons-has_colon : has_colon colons ≡ true
unfolding has_colon
colons-has_colon = refl

lookup_string-ipv6_in_ipv4_example :
    lookup_string one_host ipv4_db colons none
    ≡ not_searched ipv4_db 0 (some Error.ipv6_lookup_in_ipv4_database)
lookup_string-ipv6_in_ipv4_example =
    lookup_string-ipv6_in_ipv4 one_host one_host-GivesAddress ipv4_db colons none one_host_resolves
      refl colons-has_colon
