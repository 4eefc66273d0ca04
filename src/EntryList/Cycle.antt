-- ===== src/EntryList/Cycle.antt =====
-- A pointer that leads to itself.
use node_geoip2c.Base.{ℕ, zero, suc, ◌+◌, ◌≡◌, refl, Bool, true, ◌==◌, eq→==, [], ap}
use node_geoip2c.Types.{Outcome, success, stuck, Value, EntryData, Mmdb, zeroed_entry}
use node_geoip2c.Decode.{decode_one, pointer_of}
use node_geoip2c.EntryList.{EntryDataList, decode_head, follow_pointers, list_type, list_nested}
use node_geoip2c.EntryList.{get_entry_data_list}

-- decode_one reads at `offset` a pointer to `offset`, whatever is in the entry before.
abbrev pub PointsToItself : Mmdb → ℕ → Type 0
PointsToItself m offset =
    (e : EntryData)
    → (e' : EntryData) × (decode_one m offset e ≡ success e')
      × (e'.type ≡ 1)
      × (e'.value ≡ Value.pointer offset)

pub decode_head-success :
    (m : Mmdb) (offset : ℕ) (l : EntryDataList) (e : EntryData)
    → decode_one m offset l.entry_data ≡ success e
    → decode_head m offset l ≡ success (record l { entry_data = e })
unfolding decode_head
decode_head-success m offset l e h = rw h refl

follow_pointers-stuck :
    (fuel : ℕ) (m : Mmdb) (behind : ℕ → EntryDataList → Outcome EntryDataList) (l : EntryDataList)
    (offset last_offset : ℕ)
    → PointsToItself m offset
    → l.entry_data.type ≡ 1
    → l.entry_data.value ≡ Value.pointer offset
    → follow_pointers fuel m behind l last_offset ≡ stuck
unfolding follow_pointers
follow_pointers-stuck zero m behind l offset last_offset cycle type value = refl
follow_pointers-stuck (suc fuel) m behind l offset last_offset cycle type value =
    let (e', ends, type', value') = cycle l.entry_data in
    let is_pointer : (l.entry_data.type == 1) ≡ true = eq→== _ 1 type in
    rw (is_pointer, ap pointer_of value)
      (rw (decode_head-success m offset l e' ends) (
        follow_pointers-stuck fuel m behind (record l { entry_data = e' }) offset offset cycle type'
          value'))

-- MMDB_get_entry_data_list on a pointer that points to itself follows it for ever: no amount of
-- fuel is enough. The entry is allocated first, and that allocation is taken to be granted.
pub get_entry_data_list-PointsToItself :
    (granted : ℕ → Bool) (fuel : ℕ) (m : Mmdb) (offset allocations : ℕ)
    → granted allocations ≡ true
    → PointsToItself m offset
    → get_entry_data_list granted fuel m offset allocations ≡ stuck
unfolding get_entry_data_list list_nested list_type
get_entry_data_list-PointsToItself granted zero m offset allocations ok cycle = rw ok refl
get_entry_data_list-PointsToItself granted (suc fuel) m offset allocations ok cycle =
    let (e', ends, type, value) = cycle zeroed_entry in
    let is_pointer : (e'.type == 1) ≡ true = eq→== _ 1 type in
    let endless = λ (behind : ℕ → EntryDataList → Outcome EntryDataList).
      follow_pointers-stuck fuel m behind
        (record { entry_data = e'; next = []; allocations = allocations + 1 }) offset 0 cycle type
        value in
    let fresh : EntryDataList = record {
      entry_data = zeroed_entry;
      next = [];
      allocations = allocations + 1;
    } in
    rw ok (rw (decode_head-success m offset fresh e' ends) (rw (is_pointer, endless _) refl))
