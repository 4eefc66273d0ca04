-- ===== src/Tree.antt =====
-- The search tree: record_info_for_database, find_ipv4_start_node, populate_result,
-- find_address_in_search_tree and MMDB_read_node of libmaxminddb/src/maxminddb.c.
--
-- find_ipv4_start_node stores its answer in the MMDB_s, so what calls it returns the new MMDB_s.
pub mod Search
pub mod Records
pub mod Safety
pub mod StartNode
pub mod Zeros
pub mod Shortcut
pub mod ShortSpine
pub mod Network
pub mod Ranges
pub mod Readable
use node_geoip2c.Base.{ℕ, zero, suc, ◌+◌, ◌-◌, ◌*◌, ◌/◌, ◌%◌, ◌^◌, Bool, true, false, ◌&&◌, not}
use node_geoip2c.Base.{Option, none, some, List, ◌==◌, ltb, leb, if◌then◌else◌, u16, u32, sub16}
use node_geoip2c.Base.{sub32, shr, get_elem?}
use node_geoip2c.Types.{Error, Outcome, success, failure, reading, SearchNode, Ipv4StartNode, Mmdb}
use node_geoip2c.Types.{LookupResult, load}
use node_geoip2c.Bytes.{Pointer, ◌>>=◌, advance, get_uint24, get_uint32, get_left_28_bit_record}
use node_geoip2c.Bytes.{get_right_28_bit_record}

-- record_info_s. A getter that is not set is a NULL function pointer.
pub record RecordInfo : Type 0 where
  pub record_length : ℕ
  pub left_record_getter : Pointer → Option ℕ
  pub right_record_getter : Pointer → Option ℕ
  pub right_record_offset : ℕ

-- The getters for records of 24, 28 and 32 bits, and where they are left NULL.
abbrev pub records_24 : ℕ → RecordInfo
records_24 length = record {
  record_length = length;
  left_record_getter = get_uint24;
  right_record_getter = get_uint24;
  right_record_offset = 3;
}

abbrev pub records_28 : ℕ → RecordInfo
records_28 length = record {
  record_length = length;
  left_record_getter = get_left_28_bit_record;
  right_record_getter = get_right_28_bit_record;
  right_record_offset = 3;
}

abbrev pub records_32 : ℕ → RecordInfo
records_32 length = record {
  record_length = length;
  left_record_getter = get_uint32;
  right_record_getter = get_uint32;
  right_record_offset = 4;
}

abbrev pub records_unknown : ℕ → RecordInfo
records_unknown length = record {
  record_length = length;
  left_record_getter = (λ p. none);
  right_record_getter = (λ p. none);
  right_record_offset = 0;
}

unfoldable pub record_info_for_database : Mmdb → RecordInfo
record_info_for_database m =
    let length = m.full_record_byte_size in
    if length == 6
    then records_24 length
    else if length == 7
    then records_28 length
    else if length == 8
    then records_32 length
    else records_unknown length

-- `&search_tree[node * record_info.record_length]`; the index is a uint32_t.
unfoldable pub record_pointer : Mmdb → RecordInfo → ℕ → Pointer
record_pointer m info node i = load m.mapping m.file_content (u32 (node * info.record_length) + i)

unfoldable pub left_record : Mmdb → RecordInfo → ℕ → Option ℕ
left_record m info node = info.left_record_getter (record_pointer m info node)

unfoldable pub right_record : Mmdb → RecordInfo → ℕ → Option ℕ
right_record m info node =
    info.right_record_getter (advance (record_pointer m info node) info.right_record_offset)

-- The `for` loop of find_ipv4_start_node with the rounds that are left: the node and the netmask
-- where it stops.
unfoldable pub ipv4_start_loop : Mmdb → RecordInfo → ℕ → ℕ → ℕ → Option Ipv4StartNode
ipv4_start_loop m info zero netmask node_value =
    some (record { netmask = u16 netmask; node_value = node_value })
ipv4_start_loop m info (suc left) netmask node_value = left_record m info node_value >>= λ value.
    let rest = ipv4_start_loop m info left (netmask + 1) value in
    if leb m.metadata.node_count value
    then some (record { netmask = u16 netmask; node_value = value })
    else rest

-- The MMDB_s with its start node, which is also what the C function returns.
unfoldable pub find_ipv4_start_node : Mmdb → Option Mmdb
find_ipv4_start_node m =
    if not (m.ipv4_start_node.node_value == 0)
    then some m
    else (ipv4_start_loop m (record_info_for_database m) 96 0 0 >>= λ found.
        some (record m { ipv4_start_node = found }))

unfoldable pub populate_result : Mmdb → ℕ → ℕ → ℕ → LookupResult → Outcome LookupResult
populate_result m node_count value netmask result =
    let offset = sub32 value node_count in
    if ltb m.data_section_size offset
    then failure Error.corrupt_search_tree result
    else success (record result {
      netmask = sub16 m.depth netmask;
      offset = offset;
      found_entry = ltb 0 offset;
    })

-- `address[i >> 3] & (1U << (~i & 7)) ? 1 : 0`
unfoldable pub address_bit : List ℕ → ℕ → Option Bool
address_bit address i = get_elem? address (shr i 3) >>= λ b. some ((b / 2 ^ (7 - i % 8)) % 2 == 1)

-- The bit that the loop of find_address_in_search_tree looks at: `max_depth0 - current_bit` is an
-- int, and where it is negative the byte is read before the address.
unfoldable pub depth_bit : List ℕ → ℕ → ℕ → Option Bool
depth_bit address max_depth0 current_bit =
    if ltb max_depth0 current_bit then none else address_bit address (max_depth0 - current_bit)

unfoldable pub next_record : Mmdb → RecordInfo → ℕ → Bool → Option ℕ
next_record m info node bit_is_true =
    if bit_is_true then right_record m info node else left_record m info node

-- The `for` loop of find_address_in_search_tree; its first number is `current_bit + 1`.
unfoldable pub search_loop :
    Mmdb → RecordInfo → List ℕ → LookupResult → ℕ → ℕ → Outcome LookupResult
search_loop m info address result zero value = failure Error.corrupt_search_tree result
search_loop m info address result (suc current_bit) value =
    reading (depth_bit address (sub16 m.depth 1) current_bit) λ bit_is_true.
      reading (next_record m info value bit_is_true) λ value'.
        let rest = search_loop m info address result current_bit value' in
        if value' == 0
        then failure Error.corrupt_search_tree result
        else if leb m.metadata.node_count value'
        then populate_result m m.metadata.node_count value' current_bit result
        else rest

pub data Family : Type 0 where
  inet inet6 : Family

-- `ip_version == 6 && address_family == AF_INET`
abbrev pub needs_start_node : Mmdb → Family → Bool
needs_start_node m Family.inet = m.metadata.ip_version == 6
needs_start_node m Family.inet6 = false

-- The status with the MMDB_s at hand.
abbrev pub with_mmdb : Mmdb → Outcome LookupResult → Outcome (Mmdb × LookupResult)
with_mmdb m (success r) = success (m, r)
with_mmdb m (failure e r) = failure e (m, r)
with_mmdb m Outcome.fault = Outcome.fault
with_mmdb m Outcome.stuck = Outcome.stuck

-- find_address_in_search_tree behind find_ipv4_start_node, whose MMDB_s is `m`.
unfoldable pub search_from_start_node : Mmdb → List ℕ → LookupResult → Outcome LookupResult
search_from_start_node m address result =
    let start = m.ipv4_start_node in
    if leb m.metadata.node_count start.node_value
    then populate_result m m.metadata.node_count start.node_value start.netmask result
    else search_loop m (record_info_for_database m) address result
        (suc (sub16 (sub16 m.depth 1) start.netmask)) start.node_value

unfoldable pub find_address_in_search_tree :
    Mmdb → List ℕ → Family → LookupResult → Outcome (Mmdb × LookupResult)
find_address_in_search_tree m address address_family result =
    let info = record_info_for_database m in
    if info.right_record_offset == 0
    then failure Error.unknown_database_format (m, result)
    else if needs_start_node m address_family
    then (reading (find_ipv4_start_node m)
        λ m'. with_mmdb m' (search_from_start_node m' address result))
    else with_mmdb m (search_loop m info address result (suc (sub16 m.depth 1)) 0)

unfoldable pub read_node : Mmdb → ℕ → SearchNode → Outcome SearchNode
read_node m node_number node =
    let info = record_info_for_database m in
    if info.right_record_offset == 0
    then failure Error.unknown_database_format node
    else if ltb m.metadata.node_count node_number
    then failure Error.invalid_node_number node
    else (reading (left_record m info node_number) λ left.
        reading (right_record m info node_number)
          λ right. success (record { left_record = left; right_record = right }))
