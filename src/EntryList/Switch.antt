-- ===== src/EntryList/Switch.antt =====
-- The `switch` of get_entry_data_list on the entry of a value.
use node_geoip2c.Base.{
  ℕ, suc, ◌≤◌, ◌<◌, ◌≡◌, refl, sym, ap, subst, arith, Bool, true, false, List, [],
}
use node_geoip2c.Base.{eq→==, ◌==◌}
use node_geoip2c.Types.{Outcome, success, Value, EntryData, Mmdb}
use node_geoip2c.Decode.{decode_one, pointer_of}
use node_geoip2c.Format.Datum.{Datum, Field, Describes}
use node_geoip2c.Format.Field.{is_simple, Describes-type}
use node_geoip2c.EntryList.{EntryDataList, Members, follow_pointers, add_head}
use node_geoip2c.EntryList.{array_members, map_members, list_type}
use node_geoip2c.EntryList.Cycle.{decode_head-success}
use node_geoip2c.EntryList.Loops.{Gives, array_members-HoldsItems, map_members-HoldsPairs}
use node_geoip2c.EntryList.Listed.{Listed, ListedItems, ListedPairs, nesting, Shows-Describes}

pub simple_after :
    (m : Mmdb) (e : EntryData) (d : Datum) (beyond : ℕ)
    → is_simple d ≡ true
    → Describes m e d beyond
    → e.offset_to_next ≡ beyond
simple_after m e (Datum.text bs) beyond s (_, _, _, at) = at
simple_after m e (Datum.blob bs) beyond s (_, _, _, at) = at
simple_after m e (Datum.number t v) beyond s (_, _, at) = at
simple_after m e (Datum.float v) beyond s (_, _, at) = at
simple_after m e (Datum.double v) beyond s (_, _, at) = at
simple_after m e (Datum.boolean b) beyond s (_, _, at) = at
simple_after m e (Datum.map ps) beyond s h = cc
simple_after m e (Datum.array ds) beyond s h = cc

pub follow_pointers-once :
    (m : Mmdb) (fuel : ℕ) (behind : ℕ → EntryDataList → Outcome EntryDataList) (l : EntryDataList)
    (target last_offset : ℕ) (e : EntryData)
    → l.entry_data.type ≡ 1
    → l.entry_data.value ≡ Value.pointer target
    → decode_one m target l.entry_data ≡ success e
    → (e.type == 1) ≡ false
    → follow_pointers (suc (suc fuel)) m behind l last_offset
      ≡ behind target (record l { entry_data = e })
unfolding follow_pointers
follow_pointers-once m fuel behind l target last_offset e type value ends no_pointer =
    let is_pointer : (l.entry_data.type == 1) ≡ true = eq→== _ 1 type in
    rw (is_pointer, ap pointer_of value)
      (rw (decode_head-success m target l e ends) (rw no_pointer refl))

module _ (m : Mmdb) where
  module _ (granted : ℕ → Bool) (grants : (n : ℕ) → granted n ≡ true)
      (get : ℕ → EntryDataList → Outcome EntryDataList) (bound : ℕ)
      (gets : (d : Datum) (offset next : ℕ) (l : EntryDataList)
        → Field m d offset next
        → nesting d < bound
        → l.next ≡ []
        → Gives m d next (get offset l)) where
    -- The `switch` on the entry of a value.
    module _ (fuel : ℕ) where
      list_simple :
          (d : Datum) (next : ℕ) (l : EntryDataList)
          → is_simple d ≡ true
          → Describes m l.entry_data d next
          → l.entry_data.offset_to_next ≡ next
          → l.next ≡ []
          → Gives m d next (list_type granted fuel m get l)
      unfolding list_type
      list_simple d next l simple describes at no_next =
          let (no_pointer, compound) = Describes-type m l.entry_data d next describes in
          let no_array : (l.entry_data.type == 11) ≡ false = ground arith in
          let no_map : (l.entry_data.type == 7) ≡ false = ground arith in
          rw (no_pointer, no_array, no_map)
            (record {
              result = l;
              ends = refl;
              listed =
                  subst (λ (es : List EntryData). Listed m d l.entry_data es) (sym no_next)
                    (Listed.simple simple (
                      Shows-Describes m l.entry_data d next l.entry_data.offset_to_next describes));
              after = at;
            })

      pub list_type-Describes :
          (d : Datum) (next : ℕ) (l : EntryDataList)
          → Describes m l.entry_data d next
          → nesting d ≤ suc bound
          → l.next ≡ []
          → Gives m d next (list_type granted fuel m get l)
      unfolding list_type
      list_type-Describes (Datum.text bs) next l (a, b, c, at) fits no_next =
          list_simple (Datum.text bs) next l refl (a, b, c, at) at no_next
      list_type-Describes (Datum.blob bs) next l (a, b, c, at) fits no_next =
          list_simple (Datum.blob bs) next l refl (a, b, c, at) at no_next
      list_type-Describes (Datum.number t v) next l (a, b, at) fits no_next =
          list_simple (Datum.number t v) next l refl (a, b, at) at no_next
      list_type-Describes (Datum.float v) next l (a, b, at) fits no_next =
          list_simple (Datum.float v) next l refl (a, b, at) at no_next
      list_type-Describes (Datum.double v) next l (a, b, at) fits no_next =
          list_simple (Datum.double v) next l refl (a, b, at) at no_next
      list_type-Describes (Datum.boolean x) next l (a, b, at) fits no_next =
          list_simple (Datum.boolean x) next l refl (a, b, at) at no_next
      list_type-Describes (Datum.array ds) next l (type, size, items) fits no_next =
          let no_pointer : (l.entry_data.type == 1) ≡ false = ground arith in
          let is_array : (l.entry_data.type == 11) ≡ true = ground arith in
          let start : Members = record {
            members = [];
            offset = l.entry_data.offset_to_next;
            allocations = l.allocations;
          } in
          let all =
            array_members-HoldsItems m granted grants get bound gets start items (omega arith)
              refl in
          rw (no_pointer, is_array)
            (subst
              (λ n. Gives m (Datum.array ds) next (add_head l (array_members granted get n start)))
              (sym size)
              (rw all.ends (record {
                result = record {
                  entry_data = record l.entry_data { offset_to_next = all.result.offset };
                  next = all.result.members;
                  allocations = all.result.allocations;
                };
                ends = refl;
                listed =
                    Listed.array (type, size)
                      (subst (λ (es : List EntryData). ListedItems m ds es) (sym all.behind)
                        all.holds);
                after = all.after;
              })))
      list_type-Describes (Datum.map ps) next l (type, size, pairs) fits no_next =
          let no_pointer : (l.entry_data.type == 1) ≡ false = ground arith in
          let no_array : (l.entry_data.type == 11) ≡ false = ground arith in
          let is_map : (l.entry_data.type == 7) ≡ true = ground arith in
          let start : Members = record {
            members = [];
            offset = l.entry_data.offset_to_next;
            allocations = l.allocations;
          } in
          let all =
            map_members-HoldsPairs m granted grants get bound gets start pairs (omega arith) refl in
          rw (no_pointer, no_array, is_map)
            (subst (λ n. Gives m (Datum.map ps) next (add_head l (map_members granted get n start)))
              (sym size)
              (rw all.ends (record {
                result = record {
                  entry_data = record l.entry_data { offset_to_next = all.result.offset };
                  next = all.result.members;
                  allocations = all.result.allocations;
                };
                ends = refl;
                listed =
                    Listed.map (type, size)
                      (subst (λ (es : List EntryData). ListedPairs m ps es) (sym all.behind)
                        all.holds);
                after = all.after;
              })))
