-- ===== src/EntryList/Loops.antt =====
-- The loops of get_entry_data_list over the members of a map or an array.
use node_geoip2c.Base.{
  ℕ, ◌+◌, ◌<◌, ◌≡◌, refl, sym, ap, ◌∙◌, subst, arith, Bool, true, List, [], ◌∷◌, ◌++◌,
}
use node_geoip2c.Types.{Outcome, success, EntryData, Mmdb, zeroed_entry}
use node_geoip2c.Format.Datum.{
  Datum, Items, Pairs, Field, HoldsItems, HoldsPairs, items_count, pairs_count,
}
use node_geoip2c.EntryList.{EntryDataList, Members}
use node_geoip2c.EntryList.{new_member, array_members, map_members}
use node_geoip2c.EntryList.Listed.{
  Listed, ListedItems, ListedPairs, nesting, items_nesting, pairs_nesting,
}

append_assoc : (xs ys zs : List EntryData) → (xs ++ ys) ++ zs ≡ xs ++ (ys ++ zs)
append_assoc [] ys zs = refl
append_assoc (x ∷ xs) ys zs = ap (λ (l : List EntryData). x ∷ l) (append_assoc xs ys zs)

append_nil : (xs : List EntryData) → xs ++ [] ≡ xs
append_nil [] = refl
append_nil (x ∷ xs) = ap (λ (l : List EntryData). x ∷ l) (append_nil xs)

module _ (m : Mmdb) where
  -- The call succeeds with the entries of the value, and the offset of what follows the field.
  pub record Gives (d : Datum) (next : ℕ) (r : Outcome EntryDataList) : Type 0 where
    pub result : EntryDataList
    pub ends : r ≡ success result
    pub listed : Listed m d result.entry_data result.next
    pub after : result.entry_data.offset_to_next ≡ next

  -- The loop succeeds with some more entries, of which `listed` speaks.
  pub record Adds (listed : List EntryData → Type 0) (ms : Members) (next : ℕ) (r : Outcome Members)
      : Type 0 where
    pub result : Members
    pub ends : r ≡ success result
    pub added : List EntryData
    pub behind : result.members ≡ ms.members ++ added
    pub holds : listed added
    pub after : result.offset ≡ next

  -- The entries of one value, as a list.
  abbrev ListedOne : Datum → List EntryData → Type 0
  ListedOne d es = (e : EntryData) × (rest : List EntryData) × (es ≡ e ∷ rest) × Listed m d e rest

  module _ (granted : ℕ → Bool) (grants : (n : ℕ) → granted n ≡ true)
      (get : ℕ → EntryDataList → Outcome EntryDataList) (bound : ℕ)
      (gets : (d : Datum) (offset next : ℕ) (l : EntryDataList)
        → Field m d offset next
        → nesting d < bound
        → l.next ≡ []
        → Gives d next (get offset l)) where
    new_member-Field :
        (d : Datum) (offset next : ℕ) (ms : Members)
        → Field m d offset next
        → nesting d < bound
        → ms.offset ≡ offset
        → Adds (ListedOne d) ms next (new_member granted get ms)
    unfolding new_member
    new_member-Field d offset next ms field fits at =
        let fresh : EntryDataList = record {
          entry_data = zeroed_entry;
          next = [];
          allocations = ms.allocations + 1;
        } in
        let g =
          gets d ms.offset next fresh (subst (λ o. Field m d o next) (sym at) field) fits refl in
        rw (grants ms.allocations, g.ends)
          (record {
            result = record {
              members = ms.members ++ (g.result.entry_data ∷ g.result.next);
              offset = g.result.entry_data.offset_to_next;
              allocations = g.result.allocations;
            };
            ends = refl;
            added = g.result.entry_data ∷ g.result.next;
            behind = refl;
            holds = (g.result.entry_data, g.result.next, refl, g.listed);
            after = g.after;
          })

    pub array_members-HoldsItems :
        {ds : Items} {offset next : ℕ} (ms : Members)
        → HoldsItems m ds offset next
        → items_nesting ds < bound
        → ms.offset ≡ offset
        → Adds (ListedItems m ds) ms next (array_members granted get (items_count ds) ms)
    unfolding array_members
    array_members-HoldsItems ms HoldsItems.nil fits at = record {
      result = ms;
      ends = refl;
      added = [];
      behind = sym (append_nil ms.members);
      holds = ListedItems.nil;
      after = at;
    }
    array_members-HoldsItems ms (HoldsItems.cons {d} {ds} {offset} {next} field items) fits at =
        let one = new_member-Field d offset next ms field (omega arith) at in
        let others = array_members-HoldsItems one.result items (omega arith) one.after in
        let (e, rest, same, listed) = one.holds in
        rw one.ends (record {
          result = others.result;
          ends = others.ends;
          added = (e ∷ rest) ++ others.added;
          behind =
              others.behind
              ∙ ap (λ (l : List EntryData). l ++ others.added)
                  (one.behind ∙ ap (λ (l : List EntryData). ms.members ++ l) same)
              ∙ append_assoc ms.members (e ∷ rest) others.added;
          holds = ListedItems.cons listed others.holds;
          after = others.after;
        })

    pub map_members-HoldsPairs :
        {ps : Pairs} {offset next : ℕ} (ms : Members)
        → HoldsPairs m ps offset next
        → pairs_nesting ps < bound
        → ms.offset ≡ offset
        → Adds (ListedPairs m ps) ms next (map_members granted get (pairs_count ps) ms)
    unfolding map_members
    map_members-HoldsPairs ms HoldsPairs.end fits at = record {
      result = ms;
      ends = refl;
      added = [];
      behind = sym (append_nil ms.members);
      holds = ListedPairs.end;
      after = at;
    }
    map_members-HoldsPairs ms (HoldsPairs.pair {k} {d} {ps} {offset} {value} {next} key field pairs)
          fits at =
        let one = new_member-Field (Datum.text k) offset value ms key (omega arith) at in
        let two = new_member-Field d value next one.result field (omega arith) one.after in
        let others = map_members-HoldsPairs two.result pairs (omega arith) two.after in
        let (ke, keys, same, listed) = one.holds in
        let (e, rest, same', listed') = two.holds in
        rw one.ends (
          rw two.ends (record {
            result = others.result;
            ends = others.ends;
            added = (ke ∷ keys) ++ ((e ∷ rest) ++ others.added);
            behind =
                others.behind
                ∙ ap (λ (l : List EntryData). l ++ others.added)
                    (two.behind
                      ∙ ap (λ (l : List EntryData). l ++ two.added)
                          (one.behind ∙ ap (λ (l : List EntryData). ms.members ++ l) same)
                      ∙ ap (λ (l : List EntryData). (ms.members ++ (ke ∷ keys)) ++ l) same')
                ∙ append_assoc (ms.members ++ (ke ∷ keys)) (e ∷ rest) others.added
                ∙ append_assoc ms.members (ke ∷ keys) ((e ∷ rest) ++ others.added);
            holds = ListedPairs.pair listed listed' others.holds;
            after = others.after;
          }))
