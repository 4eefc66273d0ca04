-- ===== src/Dump/Listed.antt =====
-- Printing the list of entries of a value of the format.
use node_geoip2c.Base.{
  ℕ, zero, suc, ◌+◌, ◌≤◌, ◌≡◌, refl, sym, ap, ◌∙◌, subst, arith, true, false, some, List, [], ◌∷◌,
  ◌++◌, ◌==◌, length, length-append,
}
use node_geoip2c.Types.{Outcome, success, EntryData, Mmdb}
use node_geoip2c.Path.{text_of}
use node_geoip2c.Format.Datum.{NumberType, code_of, Datum, Items, Pairs, items_count, pairs_count}
use node_geoip2c.Format.Field.{is_simple}
use node_geoip2c.EntryList.Listed.{Shows, Listed, ListedItems, ListedPairs}
use node_geoip2c.Dump.{
  Printer, Dump, newline, indentation, dump_pairs, dump_items, dump_typed, dump_nested,
  dump_entry_data_list,
}
use node_geoip2c.Dump.Render.{
  render, render_items, render_pairs, simple_text, pair_line, ReadsUnion, HasPrintableBlobs,
  ItemsHavePrintableBlobs, PairsHavePrintableBlobs,
}
use node_geoip2c.Dump.Lines.{copied-text, simple_line-Shows}

append_assoc {ℓ} : {A : Type ℓ} (a b c : List A) → (a ++ b) ++ c ≡ a ++ (b ++ c)
append_assoc [] b c = refl
append_assoc (x ∷ a) b c = ap (λ r. x ∷ r) (append_assoc a b c)

append_nil {ℓ} : {A : Type ℓ} (a : List A) → a ≡ a ++ []
append_nil [] = refl
append_nil (x ∷ a) = ap (λ r. x ∷ r) (append_nil a)

-- An entry of a value without members is no map and no array.
no_members :
    (m : Mmdb) (e : EntryData) (d : Datum)
    → is_simple d ≡ true
    → Shows m e d
    → ((e.type == 7) ≡ false) × ((e.type == 11) ≡ false)
no_members m e (Datum.text bs) s (type, _, _) = (rw type refl, rw type refl)
no_members m e (Datum.blob bs) s (type, _, _) = (rw type refl, rw type refl)
no_members m e (Datum.number t v) s (type, _) = rw type (number t)
  where
    number : (t : NumberType) → ((code_of t == 7) ≡ false) × ((code_of t == 11) ≡ false)
    number NumberType.uint16 = (refl, refl)
    number NumberType.uint32 = (refl, refl)
    number NumberType.int32 = (refl, refl)
    number NumberType.uint64 = (refl, refl)
    number NumberType.uint128 = (refl, refl)
no_members m e (Datum.float v) s (type, _) = (rw type refl, rw type refl)
no_members m e (Datum.double v) s (type, _) = (rw type refl, rw type refl)
no_members m e (Datum.boolean b) s (type, _) = (rw type refl, rw type refl)
no_members m e (Datum.map ps) s h = cc
no_members m e (Datum.array ds) s h = cc

render_simple :
    (printer : Printer) (indent : ℕ) (d : Datum)
    → is_simple d ≡ true
    → simple_text printer indent d ≡ render printer indent d
render_simple printer indent (Datum.text bs) s = refl
render_simple printer indent (Datum.blob bs) s = refl
render_simple printer indent (Datum.number t v) s = refl
render_simple printer indent (Datum.float v) s = refl
render_simple printer indent (Datum.double v) s = refl
render_simple printer indent (Datum.boolean b) s = refl
render_simple printer indent (Datum.map ps) s = cc
render_simple printer indent (Datum.array ds) s = cc

module _ (printer : Printer) (union : ReadsUnion printer)
    (grants : (n : ℕ) → printer.malloc n ≡ true) (m : Mmdb) where
  -- A printed list: the text is behind what was printed before, and the rest of the list is left.
  abbrev Printed : List ℕ → List EntryData → List ℕ → Outcome Dump → Type 0
  Printed stream rest text r = r ≡ success (record { stream = stream ++ text; entries = rest })

  module _ (dump : ℕ → Dump → Outcome Dump) (bound : ℕ)
      (prints : (indent : ℕ) (stream : List ℕ) (d : Datum) (e : EntryData)
          (es rest : List EntryData)
        → Listed m d e es
        → HasPrintableBlobs d
        → length (e ∷ es) ≤ bound
        → Printed stream rest
            (render printer indent d)
            (dump indent (record { stream = stream; entries = (e ∷ es) ++ rest }))) where
    dump_items-ListedItems :
        (indent : ℕ) (stream : List ℕ) {ds : Items} {es : List EntryData} (rest : List EntryData)
        → ListedItems m ds es
        → ItemsHavePrintableBlobs ds
        → length es ≤ bound
        → Printed stream rest (render_items printer indent ds) (
            dump_items printer m.mapping dump indent
              (items_count ds)
              (record { stream = stream; entries = es ++ rest }))
    unfolding dump_items
    dump_items-ListedItems indent stream rest ListedItems.nil short fits =
        ap (λ x. success (record { stream = x; entries = rest })) (append_nil stream)
    dump_items-ListedItems indent stream rest
          (ListedItems.cons {d} {ds} {e} {es} {rest = more} listed items) (short, shorts) fits =
        let size = length-append (e ∷ es) more in
        let first =
          prints indent stream d e es (more ++ rest) listed short (omega (arith, size, fits)) in
        let later =
          dump_items-ListedItems indent (stream ++ render printer indent d) rest items shorts
            (omega (arith, size, fits)) in
        rw (append_assoc es more rest, first)
          (later
            ∙ ap (λ x. success (record { stream = x; entries = rest }))
                (append_assoc stream (render printer indent d) (render_items printer indent ds)))

    dump_pairs-ListedPairs :
        (indent : ℕ) (stream : List ℕ) {ps : Pairs} {es : List EntryData} (rest : List EntryData)
        → ListedPairs m ps es
        → PairsHavePrintableBlobs ps
        → length es ≤ bound
        → Printed stream rest (render_pairs printer indent ps) (
            dump_pairs printer m.mapping dump indent
              (pairs_count ps)
              (record { stream = stream; entries = es ++ rest }))
    unfolding dump_pairs
    dump_pairs-ListedPairs indent stream rest ListedPairs.end short fits =
        ap (λ x. success (record { stream = x; entries = rest })) (append_nil stream)
    dump_pairs-ListedPairs indent stream rest
          (ListedPairs.pair {k} {d} {ps} {key} {e} {keys} {es} {rest = more}
            (Listed.simple simple (type, size, read))
            listed
            pairs)
          (short, shorts) fits =
        let total = length-append (e ∷ es) more in
        let head = stream ++ pair_line indent k in
        let text = subst (λ n. text_of m key.value n ≡ some k) (sym size) read in
        let first =
          prints (indent + 2) head d e es (more ++ rest) listed short
            (omega (arith, total, fits)) in
        let later =
          dump_pairs-ListedPairs indent (head ++ render printer (indent + 2) d) rest pairs shorts
            (omega (arith, total, fits)) in
        copied-text printer union grants m _ key.value key.data_size k _ text
        ∙ rw (append_assoc es more rest, first)
            (later
              ∙ ap (λ x. success (record { stream = x; entries = rest }))
                  (append_assoc head (render printer (indent + 2) d)
                      (render_pairs printer indent ps)
                    ∙ append_assoc stream (pair_line indent k)
                        (render printer (indent + 2) d ++ render_pairs printer indent ps)))

    dump_typed-simple :
        (indent : ℕ) (stream : List ℕ) (d : Datum) (e : EntryData) (rest : List EntryData)
        → is_simple d ≡ true
        → Shows m e d
        → HasPrintableBlobs d
        → Printed stream rest (simple_text printer indent d) (
            dump_typed printer m.mapping dump indent e.type e.data_size e.value
              (record { stream = stream; entries = rest }))
    unfolding dump_typed
    dump_typed-simple indent stream d e rest simple shows short =
        let (no_map, no_array) = no_members m e d simple shows in
        rw (no_map, no_array, simple_line-Shows printer union grants m e d simple shows short) refl

    wrapped :
        (stream before text after : List ℕ) (bracket : List ℕ)
        → ((stream ++ (before ++ bracket)) ++ text) ++ after
          ≡ stream ++ (before ++ (bracket ++ (text ++ after)))
    wrapped stream before text after bracket =
        append_assoc (stream ++ (before ++ bracket)) text after
        ∙ append_assoc stream (before ++ bracket) (text ++ after)
        ∙ ap (λ x. stream ++ x) (append_assoc before bracket (text ++ after))

    dump_typed-Listed :
        (indent : ℕ) (stream : List ℕ) (d : Datum) (e : EntryData) (es rest : List EntryData)
        → Listed m d e es
        → HasPrintableBlobs d
        → length es ≤ bound
        → Printed stream rest (render printer indent d) (
            dump_typed printer m.mapping dump indent e.type e.data_size e.value
              (record { stream = stream; entries = es ++ rest }))
    unfolding dump_typed
    dump_typed-Listed indent stream d e es rest (Listed.simple simple shows) short fits =
        dump_typed-simple indent stream d e rest simple shows short
        ∙ ap (λ x. success (record { stream = stream ++ x; entries = rest }))
            (render_simple printer indent d simple)
    dump_typed-Listed indent stream d e es rest (Listed.array {ds} (type, size) items) short fits =
        rw
          (
            type,
            size,
            dump_items-ListedItems (indent + 2) (stream ++ (indentation indent ++ (b'[' ∷ newline)))
                rest items short fits,
          )
          (ap (λ x. success (record { stream = x; entries = rest }))
            (wrapped stream (indentation indent) (render_items printer (indent + 2) ds)
              (indentation indent ++ (b']' ∷ newline)) (b'[' ∷ newline)))
    dump_typed-Listed indent stream d e es rest (Listed.map {ps} (type, size) pairs) short fits =
        rw
          (
            type,
            size,
            dump_pairs-ListedPairs (indent + 2) (stream ++ (indentation indent ++ (b'{' ∷ newline)))
                rest pairs short fits,
          )
          (ap (λ x. success (record { stream = x; entries = rest }))
            (wrapped stream (indentation indent) (render_pairs printer (indent + 2) ps)
              (indentation indent ++ (b'}' ∷ newline)) (b'{' ∷ newline)))

  dump_nested-Listed :
      (fuel indent : ℕ) (stream : List ℕ) (d : Datum) (e : EntryData) (es rest : List EntryData)
      → Listed m d e es
      → HasPrintableBlobs d
      → length (e ∷ es) ≤ fuel
      → Printed stream rest (render printer indent d) (
          dump_nested printer m.mapping fuel indent
            (record { stream = stream; entries = (e ∷ es) ++ rest }))
  unfolding dump_nested
  dump_nested-Listed zero indent stream d e es rest listed short fits = absurd (omega arith)
  dump_nested-Listed (suc fuel) indent stream d e es rest listed short fits =
      dump_typed-Listed (λ i s. dump_nested printer m.mapping fuel i s) fuel
        (dump_nested-Listed fuel) indent stream d e es rest listed short (omega arith)

  -- A list of the entries of a value d, in their order, is printed as d: where malloc grants every
  -- request, the union is little-endian and no byte string has 2^31 bytes, MMDB_dump_entry_data_list
  -- succeeds, and writes the text that d has by its structure: a map and an array in brackets around
  -- their keys and items, which are two columns to the right, with the value of a key two columns
  -- further. The recursion is not deeper than the list is long.
  pub dump_entry_data_list-Listed :
      (indent : ℕ) (stream : List ℕ) (d : Datum) (e : EntryData) (es : List EntryData)
      → Listed m d e es
      → HasPrintableBlobs d
      → dump_entry_data_list printer m.mapping indent (record { stream = stream; entries = e ∷ es })
        ≡ success (record { stream = stream ++ render printer indent d; entries = [] })
  unfolding dump_entry_data_list
  dump_entry_data_list-Listed indent stream d e es listed short =
      let printed =
        dump_nested-Listed (suc (length (e ∷ es))) indent stream d e es [] listed short
          (omega arith) in
      subst
        (λ (rest : List EntryData).
          dump_nested printer m.mapping (suc (length (e ∷ es))) indent
            (record { stream = stream; entries = e ∷ rest })
          ≡ success (record { stream = stream ++ render printer indent d; entries = [] }))
        (sym (append_nil es)) printed
