-- ===== src/Metadata.antt =====
-- The metadata at the end of a file: find_metadata, value_for_key_as_uint16, _uint32, _uint64 and
-- _string, populate_languages_metadata, populate_description_metadata and read_metadata of
-- libmaxminddb/src/maxminddb.c.
--
-- The statuses of the value_for_key functions are ignored by the code: what a failed look-up leaves
-- in the entry is read.
pub mod Keys
pub mod Marker
pub mod Read
use node_geoip2c.Base.{
  ℕ, zero, suc, ◌+◌, ◌-◌, ◌*◌, ◌/◌, ◌^◌, Bool, true, false, ◌&&◌, ◌||◌, not, Option, none, some,
}
use node_geoip2c.Base.{
  List, [], ◌∷◌, ◌++◌, ◌==◌, ltb, if◌then◌else◌, length, take, drop, u16, u32, u64,
}
use node_geoip2c.Types.DataType
use node_geoip2c.Types.{Error, Outcome, success, failure, fault, stuck, ◌>>=◌, into, reading, Value}
use node_geoip2c.Types.{EntryData, Mmdb, Metadata, Description}
use node_geoip2c.Path.{aget_value}
use node_geoip2c.Compat.{memmem, strndup}
use node_geoip2c.EntryList.{EntryDataList, get_entry_data_list, make_fake_metadata_db}
use node_geoip2c.Metadata.Keys.{metadata_marker}
use node_geoip2c.Metadata.Keys
use mathlib.Core.Option

abbrev pub metadata_block_max_size : ℕ
metadata_block_max_size = 131072

-- The body of the `do` loop behind mmdb_memmem, and its condition; `again` is the next round.
abbrev pub next_round : (ℕ → Option ℕ) → ℕ → Option ℕ → Option ℕ
next_round again search_area none = some search_area
next_round again search_area (some tmp) =
    let moved = tmp in if not (tmp == moved) then again moved else some moved

-- The `do` loop of find_metadata, which begins at `search_area` and reaches `max_size` bytes.
unfoldable pub find_loop : ℕ → List ℕ → ℕ → ℕ → Option ℕ
find_loop zero file search_area max_size = none
find_loop (suc fuel) file search_area max_size =
    next_round (λ moved. find_loop fuel file moved (max_size - (moved - search_area))) search_area
      (memmem metadata_marker (take max_size (drop search_area file)) search_area)

abbrev pub search_size : ℕ → ℕ
search_size file_size =
    if ltb metadata_block_max_size file_size then metadata_block_max_size else file_size

-- Where the metadata begins, and its size. One round of the loop is all that it makes.
unfoldable pub find_metadata : List ℕ → ℕ → Option (ℕ × ℕ)
find_metadata file file_size =
    Option.map
      (λ search_area. (search_area + length metadata_marker, u32 (file_size - search_area)))
      (find_loop 1 file (file_size - search_size file_size) (search_size file_size))

-- The struct that is filled, and the allocations so far.
pub record Opening : Type 0 where
  pub mmdb : Mmdb
  pub allocations : ℕ

-- The status of a call is not looked at.
abbrev pub ignoring_status {ℓ} : {A : Type ℓ} → Outcome A → Outcome A
ignoring_status (success a) = success a
ignoring_status (failure x a) = success a
ignoring_status fault = fault
ignoring_status stuck = stuck

abbrev pub with_metadata : Opening → Metadata → Opening
with_metadata s metadata = record s { mmdb = record s.mmdb { metadata = metadata } }

-- The struct after the assignment of a value, which is refused where `bad` says so.
abbrev pub checked : Bool → Opening → Outcome Opening
checked bad s = if bad then failure Error.invalid_metadata s else success s

abbrev pub add_language : Opening → Option (List ℕ) → Opening
add_language s none = s
add_language s (some name) =
    with_metadata s
      (record s.mmdb.metadata { languages = s.mmdb.metadata.languages ++ (name ∷ []) })

-- `word` is the first eight bytes of the union as a little-endian number, whichever member was
-- written; `granted` says which allocations are granted.
module _ (word : Value → ℕ) (granted : ℕ → Bool) (stale : EntryData) where
  unfoldable pub value_for_key_as_uint16 : Mmdb → List ℕ → Outcome ℕ
  value_for_key_as_uint16 db key =
      into 0 (ignoring_status (aget_value stale db 0 (key ∷ []))) λ e. success (u16 (word e.value))

  unfoldable pub value_for_key_as_uint32 : Mmdb → List ℕ → Outcome ℕ
  value_for_key_as_uint32 db key =
      into 0 (ignoring_status (aget_value stale db 0 (key ∷ []))) λ e. success (u32 (word e.value))

  unfoldable pub value_for_key_as_uint64 : Mmdb → List ℕ → Outcome ℕ
  value_for_key_as_uint64 db key =
      into 0 (ignoring_status (aget_value stale db 0 (key ∷ []))) λ e. success (u64 (word e.value))

  -- The copied string, or `none` for the NULL of an allocation that is refused.
  unfoldable pub value_for_key_as_string : Mmdb → List ℕ → ℕ → Outcome (Option (List ℕ))
  value_for_key_as_string db key allocations =
      into none (ignoring_status (aget_value stale db 0 (key ∷ []))) λ e.
        reading (strndup db.mapping e.value e.data_size)
          λ text. success (if granted allocations then some text else none)

  -- One copy of a string member into the struct.
  unfoldable pub copy_string :
      EntryData → (Opening → Option (List ℕ) → Opening) → Opening → Outcome Opening
  copy_string member store s =
      if not (member.type == DataType.utf8_string)
      then failure Error.invalid_metadata s
      else (reading (strndup s.mmdb.mapping member.value member.data_size) λ text.
          let counted = record s { allocations = s.allocations + 1 } in
          if granted s.allocations
          then success (store counted (some text))
          else failure Error.out_of_memory (store counted none))

  -- The `for` loop of populate_languages_metadata, with the members behind the current one.
  unfoldable pub language_names : ℕ → List EntryData → Opening → Outcome Opening
  language_names zero members s = success s
  language_names (suc left) [] s = fault
  language_names (suc left) (member ∷ members) s = do
    copied ← copy_string member add_language s
    language_names left members copied

  -- The list of an array or a map of the metadata, whose own status is ignored too; where its first
  -- allocation is refused, NULL is read. Then the array for its members is allocated.
  unfoldable pub metadata_members :
      ℕ → Mmdb → ℕ → Opening → (EntryDataList → Opening → Outcome Opening) → Outcome Opening
  metadata_members fuel db offset s fill =
      if granted s.allocations
      then (into s (ignoring_status (get_entry_data_list granted fuel db offset s.allocations)) λ l.
          let counted = record s { allocations = l.allocations + 1 } in
          if granted l.allocations then fill l counted else failure Error.out_of_memory counted)
      else fault

  unfoldable pub populate_languages_metadata : ℕ → Mmdb → Opening → Outcome Opening
  populate_languages_metadata fuel db s =
      into s (ignoring_status (aget_value stale db 0 (Keys.languages ∷ []))) λ e.
        if not (e.type == DataType.array)
        then failure Error.invalid_metadata s
        else metadata_members fuel db e.offset
            (with_metadata s (record s.mmdb.metadata { languages = [] }))
            (λ l s'. language_names l.entry_data.data_size l.next s')
