-- ===== src/Format/At.antt =====
-- The offset of an entry that is read through a field.
use node_geoip2c.Base.{ℕ, ◌≤◌, ◌≡◌, sym, ap, subst, arith, true, ◌==◌, Bool-cases, inl, inr}
use node_geoip2c.Types.{success, EntryData, Mmdb, data_byte}
use node_geoip2c.Decode.{decode_one_follow, follow, pointer_of, is_compound}
use node_geoip2c.Decode.Bounds.{ReadsBytes, data_section_limit, decode_one-progress}
use node_geoip2c.Format.Datum.{Datum, Field}
use node_geoip2c.Format.Field.{Describes-type}
use node_geoip2c.Format.Value.{decode_one-Holds, decode_one-HasPointer}

same_entry : {a b : EntryData} → success a ≡ success b → a ≡ b
same_entry h = cc

-- The value is in the data section at the offset of the entry.
abbrev pub LiesAt : Mmdb → Datum → EntryData → Type 0
LiesAt m d e = (after : ℕ) × Field m d e.offset after

module _ (m : Mmdb) (limit : m.data_section_size ≤ data_section_limit)
    (bytes : ReadsBytes (data_byte m)) where
  -- An entry that is read through a field has the offset of the value, behind a pointer too.
  pub decode_one_follow-LiesAt :
      {d : Datum} {offset next : ℕ} (e e' : EntryData)
      → Field m d offset next
      → decode_one_follow m offset e ≡ success e'
      → LiesAt m d e'
  unfolding decode_one_follow follow
  decode_one_follow-LiesAt {d} {offset} {next} e e' (Field.direct holds) h =
      let (first, ends, describes) = decode_one-Holds m limit e holds in
      let (plain, _) = Describes-type m first d next describes in
      let (_, here_at, _, _, _) = decode_one-progress m bytes offset e first limit ends in
      let same = same_entry (rw (ends, plain) at h) in
      (
        next,
        subst (λ (x : EntryData). Field m d x.offset next) same
            (subst (λ o. Field m d o next) (sym here_at) (Field.direct holds)),
      )
  decode_one_follow-LiesAt {d} {offset} {next} e e'
        (Field.pointed {target = target} {beyond = beyond} p holds) h =
      let (first, ends, type, value, after) = decode_one-HasPointer m limit e p in
      let (second, read, describes) = decode_one-Holds m limit first holds in
      let (_, here_at, _, _, _) = decode_one-progress m bytes target first second limit read in
      let is_pointer : (first.type == 1) ≡ true = ground arith in
      let leads = ap pointer_of value in
      let here = subst (λ o. Field m d o beyond) (sym here_at) (Field.direct holds) in
      (
        beyond,
        elim (Bool-cases (is_compound second.type)) [
          | inl c ↦
              subst (λ (x : EntryData). Field m d x.offset beyond)
                (same_entry (rw (ends, is_pointer, leads, read, c) at h)) here
          | inr c ↦
              subst (λ (x : EntryData). Field m d x.offset beyond)
                (same_entry (rw (ends, is_pointer, leads, read, c) at h)) here
        ],
      )
