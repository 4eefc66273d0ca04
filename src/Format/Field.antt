-- ===== src/Format/Field.antt =====
-- decode_one_follow reads back every field of the format.
use node_geoip2c.Types.{Outcome, success, Mmdb, EntryData}
use node_geoip2c.Decode.{is_compound, follow, decode_one_follow, pointer_of}
use node_geoip2c.Decode.Bounds.{data_section_limit}
use node_geoip2c.Format.Datum.{Datum, Field}
use node_geoip2c.Format.Datum.{Describes}
use node_geoip2c.Base.{
  ℕ, ◌≤◌, ◌≡◌, refl, sym, ap, subst, inl, inr, Bool, true, false, not, arith, ◌==◌, Bool-cases,
}
use node_geoip2c.Format.Value.{decode_one-Holds, decode_one-HasPointer}

abbrev pub is_simple : Datum → Bool
is_simple (Datum.map ps) = false
is_simple (Datum.array ds) = false
is_simple (Datum.text bs) = true
is_simple (Datum.blob bs) = true
is_simple (Datum.number t v) = true
is_simple (Datum.float v) = true
is_simple (Datum.double v) = true
is_simple (Datum.boolean b) = true

pub Describes-type :
    (m : Mmdb) (e : EntryData) (d : Datum) (next : ℕ)
    → Describes m e d next
    → ((e.type == 1) ≡ false) × (is_compound e.type ≡ not (is_simple d))
Describes-type m e (Datum.text bs) next h = ground arith
Describes-type m e (Datum.blob bs) next h = ground arith
Describes-type m e (Datum.number t v) next h = ground arith
Describes-type m e (Datum.float v) next h = ground arith
Describes-type m e (Datum.double v) next h = ground arith
Describes-type m e (Datum.boolean b) next h = ground arith
Describes-type m e (Datum.map ps) next h = ground arith
Describes-type m e (Datum.array ds) next h = ground arith

Describes-moved :
    (m : Mmdb) (e : EntryData) (d : Datum) (beyond next : ℕ)
    → is_simple d ≡ true
    → Describes m e d beyond
    → Describes m (record e { offset_to_next = next }) d next
Describes-moved m e (Datum.text bs) beyond next s (a, b, c, _) = (a, b, c, refl)
Describes-moved m e (Datum.blob bs) beyond next s (a, b, c, _) = (a, b, c, refl)
Describes-moved m e (Datum.number t v) beyond next s (a, b, _) = (a, b, refl)
Describes-moved m e (Datum.float v) beyond next s (a, b, _) = (a, b, refl)
Describes-moved m e (Datum.double v) beyond next s (a, b, _) = (a, b, refl)
Describes-moved m e (Datum.boolean b) beyond next s (x, y, _) = (x, y, refl)
Describes-moved m e (Datum.map ps) beyond next s h = cc
Describes-moved m e (Datum.array ds) beyond next s h = cc

module _ (m : Mmdb) (limit : m.data_section_size ≤ data_section_limit) where
  -- An entry for a value read through a field; a simple value is followed by what follows the field.
  pub record Reads (offset next : ℕ) (d : Datum) (r : Outcome EntryData) : Type 0 where
    pub entry : EntryData
    pub beyond : ℕ
    pub ends : r ≡ success entry
    pub describes : Describes m entry d beyond
    pub simple : is_simple d ≡ true → beyond ≡ next

  -- Where the data section holds a field at `offset`, a value or a pointer to one, and is 32 MiB
  -- short of the range of uint32_t, decode_one_follow succeeds with an entry for the value, and for
  -- a value that is no map and no array the next entry is the one behind the field.
  pub decode_one_follow-Field :
      {d : Datum} {offset next : ℕ} (e : EntryData)
      → Field m d offset next
      → Reads offset next d (decode_one_follow m offset e)
  unfolding decode_one_follow follow
  decode_one_follow-Field {d} {offset} {next} e (Field.direct holds) =
      let (e', ends, describes) = decode_one-Holds m limit e holds in
      let (plain, _) = Describes-type m e' d next describes in
      record {
        entry = e';
        beyond = next;
        ends = rw (ends, plain) refl;
        describes = describes;
        simple = λ _. refl;
      }
  decode_one_follow-Field {d} {offset} {next} e
        (Field.pointed {target = target} {beyond = beyond} p holds) =
      let (first, ends, type, value, after) = decode_one-HasPointer m limit e p in
      let (second, read, describes) = decode_one-Holds m limit first holds in
      let (_, compound) = Describes-type m second d beyond describes in
      let is_pointer : (first.type == 1) ≡ true = ground arith in
      let leads = ap pointer_of value in
      elim (Bool-cases (is_simple d)) [
        | inl s ↦ record {
          entry = record second { offset_to_next = first.offset_to_next };
          beyond = next;
          ends = rw (ends, is_pointer, leads, read, compound, s) refl;
          describes =
              subst (λ n. Describes m (record second { offset_to_next = n }) d next) (sym after)
                (Describes-moved m second d beyond next s describes);
          simple = λ _. refl;
        }
        | inr c ↦ record {
          entry = second;
          beyond = beyond;
          ends = rw (ends, is_pointer, leads, read, compound, c) refl;
          describes = describes;
          simple = λ s. cc;
        }
      ]
