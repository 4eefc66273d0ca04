-- ===== src/EntryList/Flatten.antt =====
-- get_entry_data_list lists every value of the format.
use node_geoip2c.Base.{ℕ, zero, suc, ◌≤◌, ◌<◌, ◌≡◌, refl, sym, subst, arith, Bool, true, List, []}
use node_geoip2c.Base.{if◌then◌else◌, eq→==, ◌==◌, Bool-cases, inl, inr}
use node_geoip2c.Types.{success, EntryData, Mmdb}
use node_geoip2c.Decode.{is_compound}
use node_geoip2c.Decode.Bounds.{data_section_limit}
use node_geoip2c.Format.Datum.{Datum, HasPointer, Holds, Field, Describes}
use node_geoip2c.Format.Field.{is_simple, Describes-type}
use node_geoip2c.Format.Value.{decode_one-Holds, decode_one-HasPointer}
use node_geoip2c.EntryList.{EntryDataList, with_next_offset}
use node_geoip2c.EntryList.{list_type, list_nested, get_entry_data_list}
use node_geoip2c.EntryList.Cycle.{decode_head-success}
use node_geoip2c.EntryList.Loops.{Gives}
use node_geoip2c.EntryList.Listed.{Listed, nesting, le-nesting, Shows-Describes, Listed-moved}
use node_geoip2c.EntryList.Switch.{simple_after, follow_pointers-once, list_type-Describes}

module _ (m : Mmdb) where
  module _ (limit : m.data_section_size ≤ data_section_limit) (granted : ℕ → Bool)
      (grants : (n : ℕ) → granted n ≡ true) where
    -- A value that is not pointed to, where the recursive calls list its members.
    list_nested-Holds :
        (fuel : ℕ) (d : Datum) (offset next : ℕ) (l : EntryDataList)
        → ((d' : Datum) (offset' next' : ℕ) (l' : EntryDataList)
            → Field m d' offset' next'
            → nesting d' < fuel
            → l'.next ≡ []
            → Gives m d' next' (list_nested granted fuel m offset' l'))
        → Holds m d offset next
        → nesting d ≤ suc fuel
        → l.next ≡ []
        → Gives m d next (list_nested granted (suc fuel) m offset l)
    unfolding list_nested
    list_nested-Holds fuel d offset next l gets holds fits no_next =
        let (e, ends, describes) = decode_one-Holds m limit l.entry_data holds in
        rw (decode_head-success m offset l e ends) (
          list_type-Describes m granted grants (λ o l'. list_nested granted fuel m o l') fuel gets
            fuel d next (record l { entry_data = e }) describes fits no_next)

    -- Behind the pointer the entry is decoded, and a map or an array is listed from there.
    behind_pointer :
        (fuel : ℕ) (d : Datum) (target beyond : ℕ) (l : EntryDataList)
        → ((l' : EntryDataList)
            → l'.next ≡ []
            → Gives m d beyond (list_nested granted fuel m target l'))
        → Describes m l.entry_data d beyond
        → l.next ≡ []
        → Gives m d beyond (
            if is_compound l.entry_data.type
            then list_nested granted fuel m target l
            else success l)
    behind_pointer fuel d target beyond l gets describes no_next =
        let (_, compound) = Describes-type m l.entry_data d beyond describes in
        elim (Bool-cases (is_simple d)) [
          | inr c ↦ rw (compound, c) (gets l no_next)
          | inl s ↦
              rw (compound, s)
                (record {
                  result = l;
                  ends = refl;
                  listed =
                      subst (λ (es : List EntryData). Listed m d l.entry_data es) (sym no_next)
                        (Listed.simple s (
                          Shows-Describes m l.entry_data d beyond l.entry_data.offset_to_next
                            describes));
                  after = simple_after m l.entry_data d beyond s describes;
                })
        ]

    list_nested-pointed :
        (fuel : ℕ) (d : Datum) (target beyond offset next : ℕ) (l : EntryDataList)
        → ((l' : EntryDataList)
            → l'.next ≡ []
            → Gives m d beyond (list_nested granted (suc (suc fuel)) m target l'))
        → HasPointer m target offset next
        → Holds m d target beyond
        → l.next ≡ []
        → Gives m d next (list_nested granted (suc (suc (suc fuel))) m offset l)
    unfolding list_nested list_type
    list_nested-pointed fuel d target beyond offset next l gets p holds no_next =
        let (e1, ends1, type1, value1, after1) = decode_one-HasPointer m limit l.entry_data p in
        let l1 : EntryDataList = record l { entry_data = e1 } in
        let (e2, ends2, describes2) = decode_one-Holds m limit e1 holds in
        let l2 : EntryDataList = record l { entry_data = e2 } in
        let (no_pointer2, _) = Describes-type m e2 d beyond describes2 in
        let g = behind_pointer (suc (suc fuel)) d target beyond l2 gets describes2 no_next in
        rw (decode_head-success m offset l e1 ends1) (
          let is_pointer : (e1.type == 1) ≡ true = eq→== _ 1 type1 in
          rw is_pointer (
            rw (follow_pointers-once m fuel _ l1 target 0 e2 type1 value1 ends2 no_pointer2) (
              rw g.ends (record {
                result = with_next_offset e1.offset_to_next g.result;
                ends = refl;
                listed =
                    Listed-moved m d g.result.entry_data g.result.next e1.offset_to_next g.listed;
                after = after1;
              }))))

    list_nested-Field :
        (fuel : ℕ) (d : Datum) (offset next : ℕ) (l : EntryDataList)
        → Field m d offset next
        → nesting d < fuel
        → l.next ≡ []
        → Gives m d next (list_nested granted fuel m offset l)
    list_nested-Field zero d offset next l field fits no_next = absurd (omega arith)
    list_nested-Field (suc fuel) d offset next l (Field.direct holds) fits no_next =
        list_nested-Holds fuel d offset next l (list_nested-Field fuel) holds (omega arith) no_next
    list_nested-Field (suc zero) d offset next l (Field.pointed p holds) fits no_next =
        absurd (omega (arith, le-nesting d))
    list_nested-Field (suc (suc zero)) d offset next l (Field.pointed p holds) fits no_next =
        absurd (omega (arith, le-nesting d))
    list_nested-Field (suc (suc (suc fuel))) d offset next l
          (Field.pointed {target = target} {beyond = beyond} p holds) fits no_next =
        list_nested-pointed fuel d target beyond offset next l
          (λ l' no_next'.
            list_nested-Holds (suc fuel) d target beyond l' (list_nested-Field (suc fuel)) holds
              (omega arith) no_next')
          p holds no_next

    -- Where the data section holds the value d at `offset` as the format lays it out, directly or
    -- behind a pointer, is 32 MiB short of the range of uint32_t, and every allocation is granted:
    -- with any fuel above the nesting of d MMDB_get_entry_data_list succeeds with the entries of d in
    -- their order, a map or an array before its members and a key before its value, each with the
    -- type and the size or content of what it stands for, and the first says what follows the field.
    pub get_entry_data_list-Field :
        (fuel : ℕ) (d : Datum) (offset next allocations : ℕ)
        → Field m d offset next
        → nesting d < fuel
        → Gives m d next (get_entry_data_list granted fuel m offset allocations)
    unfolding get_entry_data_list
    get_entry_data_list-Field fuel d offset next allocations field fits =
        rw (grants allocations) (list_nested-Field fuel d offset next _ field fits refl)
