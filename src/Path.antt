-- ===== src/Path.antt =====
-- Finding a value by its path: skip_map_or_array, lookup_path_in_array, lookup_path_in_map,
-- MMDB_aget_value, path_length, MMDB_vget_value and MMDB_get_value of
-- libmaxminddb/src/maxminddb.c.
--
-- `stale` is what the uninitialised local structs hold. A path is the list of its elements, in
-- place of the NULL at its end.
pub mod Fuel
pub mod HasData
pub mod Total
pub mod Varargs
use node_geoip2c.Base.{
  ℕ, zero, suc, ◌+◌, ◌*◌, ◌^◌, Bool, true, false, ◌&&◌, ◌||◌, not, Option, none, some,
}
use node_geoip2c.Base.{List, [], ◌∷◌, ◌==◌, ltb, leb, if◌then◌else◌, length, bytes_eq, get_elem?}
use node_geoip2c.Types.DataType
use node_geoip2c.Types.{Error, Outcome, success, failure, fault, stuck, ◌>>=◌, into, reading, Value}
use node_geoip2c.Types.{EntryData, zeroed_entry, Mmdb}
use node_geoip2c.Decode.{decode_one, decode_one_follow}
use node_geoip2c.Strtol.{strtol, int_bits}
use mathlib.Core.Option

-- The two loops of skip_map_or_array; `skip_value` is its recursive call.
unfoldable pub skip_pairs :
    (EntryData → Outcome EntryData) → Mmdb → ℕ → EntryData → Outcome EntryData
skip_pairs skip_value m zero e = success e
skip_pairs skip_value m (suc size) e = do
  key ← decode_one m e.offset_to_next e
  value ← decode_one m key.offset_to_next key
  skipped ← skip_value value
  skip_pairs skip_value m size skipped

unfoldable pub skip_items :
    (EntryData → Outcome EntryData) → Mmdb → ℕ → EntryData → Outcome EntryData
skip_items skip_value m zero e = success e
skip_items skip_value m (suc size) e = do
  value ← decode_one m e.offset_to_next e
  skipped ← skip_value value
  skip_items skip_value m size skipped

-- The fuel bounds how deep maps and arrays nest.
unfoldable pub skip_nested : ℕ → Mmdb → EntryData → Outcome EntryData
skip_nested zero m e = stuck
skip_nested (suc fuel) m e =
    if e.type == DataType.map
    then skip_pairs (λ v. skip_nested fuel m v) m e.data_size e
    else if e.type == DataType.array
    then skip_items (λ v. skip_nested fuel m v) m e.data_size e
    else success e

-- Each level begins behind the one around it, so the size of the section is fuel enough.
unfoldable pub skip_map_or_array : Mmdb → EntryData → Outcome EntryData
skip_map_or_array m e = skip_nested (suc (suc m.data_section_size)) m e

-- The `for` loop of lookup_path_in_array, with the rounds that are left.
unfoldable pub skip_to_index : Mmdb → ℕ → EntryData → Outcome EntryData
skip_to_index m zero e = success e
skip_to_index m (suc left) e = do
  value ← decode_one m e.offset_to_next e
  skipped ← skip_map_or_array m value
  skip_to_index m left skipped

-- The rest of lookup_path_in_array at a given index.
unfoldable pub element_at : EntryData → Mmdb → ℕ → EntryData → Outcome EntryData
element_at stale m index e = do
  at ← skip_to_index m index e
  into at (decode_one_follow m at.offset_to_next stale) λ value. success value

unfoldable pub lookup_path_in_array : EntryData → List ℕ → Mmdb → EntryData → Outcome EntryData
lookup_path_in_array stale path_elem m e =
    let parsed = strtol path_elem in
    let array_index = int_bits parsed in
    if leb (2 ^ 31) array_index || parsed.erange
    then failure Error.invalid_lookup_path e
    else if not (length parsed.first_invalid == 0) || leb e.data_size array_index
    then failure Error.lookup_path_does_not_match_data e
    else element_at stale m array_index e

-- The `n` bytes at the position `p` of the file.
unfoldable pub bytes_at : List ℕ → ℕ → ℕ → Option (List ℕ)
bytes_at mapping p zero = some []
bytes_at mapping p (suc n) = elim (get_elem? mapping p) [
  | none ↦ none
  | some b ↦ elim (bytes_at mapping (p + 1) n) [ none ↦ none | some bs ↦ some (b ∷ bs) ]
]

-- The `n` bytes at `utf8_string`.
unfoldable pub text_of : Mmdb → Value → ℕ → Option (List ℕ)
text_of m (Value.utf8_string (some p)) n = bytes_at m.mapping p n
text_of m (Value.utf8_string none) n = if n == 0 then some [] else none
text_of m _ n = none

-- `key.data_size == path_elem_len && !memcmp(path_elem, key.utf8_string, path_elem_len)`
unfoldable pub key_matches : Mmdb → List ℕ → EntryData → Option Bool
key_matches m path_elem key =
    if key.data_size == length path_elem
    then (elim (text_of m key.value key.data_size) [
      | none ↦ none
      | some text ↦ some (bytes_eq path_elem text)
    ])
    else some false

-- The `while (size-- > 0)` of lookup_path_in_map; `e` is the map's entry.
unfoldable pub find_key : EntryData → List ℕ → Mmdb → EntryData → ℕ → ℕ → Outcome EntryData
find_key stale path_elem m e zero offset =
    failure Error.lookup_path_does_not_match_data zeroed_entry
find_key stale path_elem m e (suc size) offset = into e (decode_one_follow m offset stale) λ key.
    let rest = λ (next : ℕ). find_key stale path_elem m e size next in
    if not (key.type == DataType.utf8_string)
    then failure Error.invalid_data e
    else (reading (key_matches m path_elem key) λ found.
        if found
        then into e (decode_one_follow m key.offset_to_next stale) (λ value. success value)
        else (into e (decode_one m key.offset_to_next stale)
            λ value. into e (skip_map_or_array m value) λ skipped. rest skipped.offset_to_next))

unfoldable pub lookup_path_in_map : EntryData → List ℕ → Mmdb → EntryData → Outcome EntryData
lookup_path_in_map stale path_elem m e = find_key stale path_elem m e e.data_size e.offset_to_next

-- `memset(entry_data, 0, ...); return status;`
abbrev pub zero_on_failure : Outcome EntryData → Outcome EntryData
zero_on_failure (success e) = success e
zero_on_failure (failure x e) = failure x zeroed_entry
zero_on_failure fault = fault
zero_on_failure stuck = stuck

-- One round of the `while` of MMDB_aget_value.
unfoldable pub path_step : EntryData → Mmdb → List ℕ → EntryData → Outcome EntryData
path_step stale m path_elem e =
    if e.type == DataType.array
    then zero_on_failure (lookup_path_in_array stale path_elem m e)
    else if e.type == DataType.map
    then zero_on_failure (lookup_path_in_map stale path_elem m e)
    else failure Error.lookup_path_does_not_match_data zeroed_entry

unfoldable pub walk_path : EntryData → Mmdb → List (List ℕ) → EntryData → Outcome EntryData
walk_path stale m [] e = success e
walk_path stale m (path_elem ∷ path) e = do
  found ← path_step stale m path_elem e
  walk_path stale m path found

unfoldable pub aget_value : EntryData → Mmdb → ℕ → List (List ℕ) → Outcome EntryData
aget_value stale m offset path = do
  e ← decode_one_follow m offset zeroed_entry
  if e.has_data then walk_path stale m path e else failure Error.invalid_lookup_path e

-- A va_list: its arguments from here on, with `none` for a NULL. Behind its last argument nothing
-- may be read.
abbrev pub VaList : Type 0
VaList = List (Option (List ℕ))

unfoldable pub path_length : VaList → Option ℕ
path_length [] = none
path_length (none ∷ va_path) = some 0
path_length (some path_elem ∷ va_path) = Option.map (λ i. i + 1) (path_length va_path)

-- The `while` of MMDB_vget_value, which fills `path`.
unfoldable pub read_path : VaList → Option (List (List ℕ))
read_path [] = none
read_path (none ∷ va_path) = some []
read_path (some path_elem ∷ va_path) = Option.map (λ path. path_elem ∷ path) (read_path va_path)

-- `malloc` says whether a request for so many bytes is granted; a pointer has 8 bytes.
unfoldable pub vget_value :
    (ℕ → Bool) → EntryData → Mmdb → ℕ → EntryData → VaList → Outcome EntryData
vget_value malloc stale m offset entry_data va_path = reading (path_length va_path) λ length.
    if malloc ((length + 1) * 8)
    then (reading (read_path va_path) λ path. aget_value stale m offset path)
    else failure Error.out_of_memory entry_data

unfoldable pub get_value :
    (ℕ → Bool) → EntryData → Mmdb → ℕ → EntryData → VaList → Outcome EntryData
get_value malloc stale m offset entry_data path = vget_value malloc stale m offset entry_data path
