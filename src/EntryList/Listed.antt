-- ===== src/EntryList/Listed.antt =====
-- The entries of a value of the format in the order of a list of entries: a map or an array before
-- its members, a key before its value.
use node_geoip2c.Base.{ℕ, ◌+◌, ◌≤◌, ◌≡◌, arith, true, some, List, [], ◌∷◌, ◌++◌, length}
use node_geoip2c.Types.{Value, EntryData, Mmdb}
use node_geoip2c.Path.{text_of, bytes_at}
use node_geoip2c.Format.Datum.{
  Datum, Items, Pairs, Describes, items_count, pairs_count, code_of, member_of,
}
use node_geoip2c.Format.Field.{is_simple}

-- The entry has the value's type, and its size or content.
abbrev pub Shows : Mmdb → EntryData → Datum → Type 0
Shows m e (Datum.text bs) =
    (e.type ≡ 2) × (e.data_size ≡ length bs) × (text_of m e.value (length bs) ≡ some bs)
Shows m e (Datum.blob bs) =
    (e.type ≡ 4)
    × (e.data_size ≡ length bs)
    × ((p : ℕ) × (e.value ≡ Value.bytes p) × (bytes_at m.mapping p (length bs) ≡ some bs))
Shows m e (Datum.number t v) = (e.type ≡ code_of t) × (e.value ≡ member_of t v)
Shows m e (Datum.float v) = (e.type ≡ 15) × (e.value ≡ Value.float_value v)
Shows m e (Datum.double v) = (e.type ≡ 3) × (e.value ≡ Value.double_value v)
Shows m e (Datum.boolean b) = (e.type ≡ 14) × (e.value ≡ Value.boolean b)
Shows m e (Datum.map ps) = (e.type ≡ 7) × (e.data_size ≡ pairs_count ps)
Shows m e (Datum.array ds) = (e.type ≡ 11) × (e.data_size ≡ items_count ds)

mutual
  pub data Listed (m : Mmdb) : Datum → EntryData → List EntryData → Type 0 where
    simple : {d : Datum} {e : EntryData} → is_simple d ≡ true → Shows m e d → Listed m d e []
    array :
        {ds : Items} {e : EntryData} {es : List EntryData}
        → Shows m e (Datum.array ds)
        → ListedItems m ds es
        → Listed m (Datum.array ds) e es
    map :
        {ps : Pairs} {e : EntryData} {es : List EntryData}
        → Shows m e (Datum.map ps)
        → ListedPairs m ps es
        → Listed m (Datum.map ps) e es

  pub data ListedItems (m : Mmdb) : Items → List EntryData → Type 0 where
    nil : ListedItems m Items.nil []
    cons :
        {d : Datum} {ds : Items} {e : EntryData} {es rest : List EntryData}
        → Listed m d e es
        → ListedItems m ds rest
        → ListedItems m (Items.cons d ds) ((e ∷ es) ++ rest)

  pub data ListedPairs (m : Mmdb) : Pairs → List EntryData → Type 0 where
    end : ListedPairs m Pairs.end []
    pair :
        {k : List ℕ} {d : Datum} {ps : Pairs} {key e : EntryData} {keys es rest : List EntryData}
        → Listed m (Datum.text k) key keys
        → Listed m d e es
        → ListedPairs m ps rest
        → ListedPairs m (Pairs.pair k d ps) ((key ∷ keys) ++ ((e ∷ es) ++ rest))

-- A fuel that is enough for the value, whether it is pointed to or not.
abbrev mutual
  pub nesting : Datum → ℕ
  nesting (Datum.array ds) = 2 + items_nesting ds
  nesting (Datum.map ps) = 2 + pairs_nesting ps
  nesting (Datum.text bs) = 2
  nesting (Datum.blob bs) = 2
  nesting (Datum.number t v) = 2
  nesting (Datum.float v) = 2
  nesting (Datum.double v) = 2
  nesting (Datum.boolean b) = 2

  pub items_nesting : Items → ℕ
  items_nesting Items.nil = 0
  items_nesting (Items.cons d ds) = nesting d + items_nesting ds

  pub pairs_nesting : Pairs → ℕ
  pairs_nesting Pairs.end = 0
  pairs_nesting (Pairs.pair k d ps) = 2 + nesting d + pairs_nesting ps

pub le-nesting : (d : Datum) → 2 ≤ nesting d
le-nesting (Datum.array ds) = omega arith
le-nesting (Datum.map ps) = omega arith
le-nesting (Datum.text bs) = omega arith
le-nesting (Datum.blob bs) = omega arith
le-nesting (Datum.number t v) = omega arith
le-nesting (Datum.float v) = omega arith
le-nesting (Datum.double v) = omega arith
le-nesting (Datum.boolean b) = omega arith

-- What the decoder gives for a value shows it, and still does with another offset.
pub Shows-Describes :
    (m : Mmdb) (e : EntryData) (d : Datum) (next beyond : ℕ)
    → Describes m e d next
    → Shows m (record e { offset_to_next = beyond }) d
Shows-Describes m e (Datum.text bs) next beyond (a, b, c, _) = (a, b, c)
Shows-Describes m e (Datum.blob bs) next beyond (a, b, c, _) = (a, b, c)
Shows-Describes m e (Datum.number t v) next beyond (a, b, _) = (a, b)
Shows-Describes m e (Datum.float v) next beyond (a, b, _) = (a, b)
Shows-Describes m e (Datum.double v) next beyond (a, b, _) = (a, b)
Shows-Describes m e (Datum.boolean b) next beyond (x, y, _) = (x, y)
Shows-Describes m e (Datum.map ps) next beyond (a, b, _) = (a, b)
Shows-Describes m e (Datum.array ds) next beyond (a, b, _) = (a, b)

Shows-moved :
    (m : Mmdb) (e : EntryData) (d : Datum) (beyond : ℕ)
    → Shows m e d
    → Shows m (record e { offset_to_next = beyond }) d
Shows-moved m e (Datum.text bs) beyond h = h
Shows-moved m e (Datum.blob bs) beyond h = h
Shows-moved m e (Datum.number t v) beyond h = h
Shows-moved m e (Datum.float v) beyond h = h
Shows-moved m e (Datum.double v) beyond h = h
Shows-moved m e (Datum.boolean b) beyond h = h
Shows-moved m e (Datum.map ps) beyond h = h
Shows-moved m e (Datum.array ds) beyond h = h

pub Listed-moved :
    (m : Mmdb) (d : Datum) (e : EntryData) (es : List EntryData) (beyond : ℕ)
    → Listed m d e es
    → Listed m d (record e { offset_to_next = beyond }) es
Listed-moved m d e es beyond (Listed.simple s shows) =
    Listed.simple s (Shows-moved m e d beyond shows)
Listed-moved m d e es beyond (Listed.array shows items) = Listed.array shows items
Listed-moved m d e es beyond (Listed.map shows pairs) = Listed.map shows pairs
