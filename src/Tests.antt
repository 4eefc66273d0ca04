-- ===== src/Tests.antt =====
-- Databases for the tests, small enough to write out.
pub mod Readers
pub mod Sections
pub mod Trees
pub mod Lookups
pub mod Openings
pub mod Bindings
pub mod Commands
pub mod Dumps
pub mod Runs
pub mod Loads
pub mod Refusals
pub mod Displays
use node_geoip2c.Base.{
  ℕ, zero, suc, ◌+◌, ◌<◌, ◌≡◌, refl, arith, Bool, true, false, ◌&&◌, Option, none, some,
}
use node_geoip2c.Base.{List, [], ◌∷◌, ◌++◌, ltb, get_elem?}
use node_geoip2c.Types.{
  Mmdb, Metadata, Ipv4StartNode, LookupResult, SearchNode, EntryData, zeroed_entry,
}
use node_geoip2c.Lookup.{
  zero_bytes_12, SockAddr, sockaddr_in, sockaddr_in6, Hints, Resolved, family_of,
}
use node_geoip2c.Lookup.Laws.{GivesAddress, IsSized}
use node_geoip2c.Tree.{Family}

-- A map {"a": [5]}, with 5 as a uint16, and a pointer to it; the map begins at offset 16.
abbrev pub section : List ℕ
section = 225 ∷ 65 ∷ 97 ∷ 1 ∷ 4 ∷ 161 ∷ 5 ∷ 32 ∷ 0 ∷ []

abbrev pub separator : List ℕ
separator = zero_bytes_12 ++ (0 ∷ 0 ∷ 0 ∷ 0 ∷ [])

abbrev pub metadata_of : ℕ → ℕ → Metadata
metadata_of node_count ip_version = record {
  node_count = node_count;
  record_size = 24;
  ip_version = ip_version;
  database_type = none;
  languages = [];
  binary_format_major_version = 2;
  binary_format_minor_version = 0;
  build_epoch = 0;
  description = [];
}

abbrev pub no_start_node : Ipv4StartNode
no_start_node = record { netmask = 0; node_value = 0 }

-- One node of 24-bit records: the addresses of the left half have the map, the others nothing.
abbrev pub ipv4_db : Mmdb
ipv4_db = record {
  mapping = (0 ∷ 0 ∷ 17 ∷ 0 ∷ 0 ∷ 1 ∷ []) ++ (separator ++ section);
  flags = 0;
  filename = none;
  file_size = 31;
  file_content = some 0;
  data_section = some 6;
  data_section_size = 25;
  metadata_section = none;
  metadata_section_size = 0;
  full_record_byte_size = 6;
  depth = 32;
  ipv4_start_node = no_start_node;
  metadata = metadata_of 1 4;
}

-- `n` nodes from the one numbered `i` on, each with the next on its left and nothing, which is
-- `count`, on its right.
abbrev pub chain : ℕ → ℕ → ℕ → List ℕ
chain count zero i = []
chain count (suc n) i = 0 ∷ 0 ∷ (i + 1) ∷ 0 ∷ 0 ∷ count ∷ chain count n (i + 1)

-- A tree whose networks of `n` zero bits have the map, with `n` nodes.
abbrev pub ipv6_db : ℕ → Mmdb
ipv6_db zero = ipv4_db
ipv6_db (suc n) = record {
  mapping =
      chain (suc n) n 0 ++ ((0 ∷ 0 ∷ (suc n + 16) ∷ 0 ∷ 0 ∷ suc n ∷ []) ++ (separator ++ section));
  flags = 0;
  filename = none;
  file_size = 0;
  file_content = some 0;
  data_section = none;
  data_section_size = 25;
  metadata_section = none;
  metadata_section_size = 0;
  full_record_byte_size = 6;
  depth = 128;
  ipv4_start_node = no_start_node;
  metadata = metadata_of (suc n) 6;
}

abbrev pub junk : LookupResult
junk = record { found_entry = false; offset = 7; netmask = 7 }

-- The bytes of a list are bytes.
abbrev pub all_bytes : List ℕ → Bool
all_bytes [] = true
all_bytes (b ∷ bs) = ltb b 256 && all_bytes bs

pub all_bytes-get_elem? :
    (bs : List ℕ) (i b : ℕ) → all_bytes bs ≡ true → get_elem? bs i ≡ some b → b < 256
all_bytes-get_elem? [] i b h e = cc
all_bytes-get_elem? (x ∷ bs) zero b h e = ground arith
all_bytes-get_elem? (x ∷ bs) (suc i) b h e = ground (arith, all_bytes-get_elem? bs i b)

-- A getaddrinfo that knows one host: 1.2.3.4, and ::1.2.3.4 where an IPv6 address is asked for.
abbrev pub one_host : List ℕ → Hints → Resolved
one_host host hints = elim hints.family [
  | Family.inet ↦ record { gai_status = 0; addresses = some (sockaddr_in (1 ∷ 2 ∷ 3 ∷ 4 ∷ [])) }
  | Family.inet6 ↦ record {
    gai_status = 0;
    addresses =
        some (sockaddr_in6 (0 ∷ 0 ∷ 0 ∷ 0 ∷ 0 ∷ 0 ∷ 0 ∷ 0 ∷ 0 ∷ 0 ∷ 0 ∷ 0 ∷ 1 ∷ 2 ∷ 3 ∷ 4 ∷ []));
  }
]

one_host_gives :
    (host : List ℕ) (numeric v4_mapped : Bool) (family : Family)
    → (a : SockAddr) × ((one_host host
          (record { numeric_host = numeric; v4_mapped = v4_mapped; family = family })).addresses
        ≡ some a)
      × (family_of a ≡ family)
      × IsSized a
one_host_gives host numeric v4_mapped Family.inet =
    (sockaddr_in (1 ∷ 2 ∷ 3 ∷ 4 ∷ []), refl, refl, refl)
one_host_gives host numeric v4_mapped Family.inet6 = (_, refl, refl, refl)

pub one_host-GivesAddress : GivesAddress one_host
one_host-GivesAddress = record {
  sockaddr = λ host hints ok. one_host_gives host hints.numeric_host hints.v4_mapped hints.family;
}

abbrev pub always : ℕ → Bool
always n = true
