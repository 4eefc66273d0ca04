-- ===== src/Open/Keeps.antt =====
-- What the loops of read_metadata over languages and descriptions leave alone.
use node_geoip2c.Base.{ℕ, zero, suc, ◌+◌, ◌≡◌, refl, ◌∙◌, arith, Bool}
use node_geoip2c.Base.{Option, none, some, List, [], ◌∷◌, ◌==◌, Bool-cases, inl, inr, not}
use node_geoip2c.Types.{Outcome, success, Value, EntryData, Mmdb}
use node_geoip2c.Types.{>>=-eq-success, into-eq-success, reading-eq-success}
use node_geoip2c.Metadata.{Opening, copy_string, add_language, language_names, metadata_members}
use node_geoip2c.Metadata.{populate_languages_metadata, with_metadata}
use node_geoip2c.EntryList.{EntryDataList, get_entry_data_list}
use node_geoip2c.Metadata.{ignoring_status}
use node_geoip2c.Metadata.Keys
use node_geoip2c.Path.{aget_value}
use node_geoip2c.Compat.{strndup}
use node_geoip2c.Base.{subst}
use node_geoip2c.Metadata.Read

-- The fields of the metadata that later assignments leave alone.
abbrev pub Keeps : Opening → Opening → Type 0
Keeps s s' =
    (s'.mmdb.metadata.node_count ≡ s.mmdb.metadata.node_count)
    × (s'.mmdb.metadata.record_size ≡ s.mmdb.metadata.record_size)
    × (s'.mmdb.metadata.ip_version ≡ s.mmdb.metadata.ip_version)
    × (s'.mmdb.file_content ≡ s.mmdb.file_content)
    × (s'.mmdb.file_size ≡ s.mmdb.file_size)

pub Keeps-trans : (a b c : Opening) → Keeps a b → Keeps b c → Keeps a c
Keeps-trans a b c (p0, p1, p2, p3, p4) (q0, q1, q2, q3, q4) =
    (q0 ∙ p0, q1 ∙ p1, q2 ∙ p2, q3 ∙ p3, q4 ∙ p4)

pub Keeps-refl : (a : Opening) → Keeps a a
Keeps-refl a = (refl, refl, refl, refl, refl)

pub success-eq {ℓ} : {A : Type ℓ} {a b : A} → success a ≡ success b → a ≡ b
success-eq h = cc

module _ (word : Value → ℕ) (granted : ℕ → Bool) (stale : EntryData) where
  copy_string-Keeps :
      (member : EntryData) (store : Opening → Option (List ℕ) → Opening) (s s' : Opening)
      → ((s0 : Opening) (text : Option (List ℕ)) → Keeps s0 (store s0 text))
      → copy_string word granted stale member store s ≡ success s'
      → Keeps s s'
  unfolding copy_string
  copy_string-Keeps member store s s' keeps h = elim (Bool-cases (not (member.type == 2))) [
    | inl other ↦ let no = rw other at h in cc
    | inr string ↦
        let counted : Opening = record s { allocations = s.allocations + 1 } in
        let (text, _, rest) =
          reading-eq-success (strndup s.mmdb.mapping member.value member.data_size) _
            (rw string at h) in
        elim (Bool-cases (granted s.allocations)) [
          | inl ok ↦
              let same : store counted (some text) ≡ s' = success-eq (rw ok at rest) in
              subst (λ x. Keeps s x) same (keeps counted (some text))
          | inr refused ↦ let no = rw refused at rest in cc
        ]
  ]

  add_language-Keeps : (s : Opening) (text : Option (List ℕ)) → Keeps s (add_language s text)
  add_language-Keeps s none = Keeps-refl s
  add_language-Keeps s (some t) = (refl, refl, refl, refl, refl)

  language_names-Keeps :
      (left : ℕ) (members : List EntryData) (s s' : Opening)
      → language_names word granted stale left members s ≡ success s'
      → Keeps s s'
  unfolding language_names
  language_names-Keeps zero members s s' h = ground arith
  language_names-Keeps (suc left) [] s s' h = cc
  language_names-Keeps (suc left) (member ∷ members) s s' h =
      let (copied, hc, rest) =
        >>=-eq-success (copy_string word granted stale member add_language s) _ h in
      Keeps-trans s copied s' (copy_string-Keeps member add_language s copied add_language-Keeps hc)
        (language_names-Keeps left members copied s' rest)

  update_language-Keeps :
      (s : Opening) (text : Option (List ℕ)) → Keeps s (Read.store_language s text)
  update_language-Keeps s text = Keeps-refl s

  update_description-Keeps :
      (s : Opening) (text : Option (List ℕ)) → Keeps s (Read.store_description s text)
  update_description-Keeps s text = Keeps-refl s

  new_description-Keeps :
      (s s' : Opening) → Read.new_description word granted stale s ≡ success s' → Keeps s s'
  unfolding Read.new_description
  new_description-Keeps s s' h = elim (Bool-cases (granted s.allocations)) [
    | inl ok ↦ subst (λ x. Keeps s x) (success-eq (rw ok at h)) (Keeps-refl s)
    | inr refused ↦ let no = rw refused at h in cc
  ]

  descriptions-Keeps :
      (left : ℕ) (members : List EntryData) (s s' : Opening)
      → Read.descriptions word granted stale left members s ≡ success s'
      → Keeps s s'
  unfolding Read.descriptions
  descriptions-Keeps zero members s s' h = subst (λ x. Keeps s x) (success-eq h) (Keeps-refl s)
  descriptions-Keeps (suc left) [] s s' h =
      let (_, _, faulted) = >>=-eq-success (Read.new_description word granted stale s) _ h in cc
  descriptions-Keeps (suc left) (key ∷ []) s s' h =
      let (a, _, rest) = >>=-eq-success (Read.new_description word granted stale s) _ h in
      let (_, _, faulted) =
        >>=-eq-success (copy_string word granted stale key Read.store_language a) _ rest in
      cc
  descriptions-Keeps (suc left) (key ∷ value ∷ members) s s' h =
      let (a, ha, r1) = >>=-eq-success (Read.new_description word granted stale s) _ h in
      let (b, hb, r2) =
        >>=-eq-success (copy_string word granted stale key Read.store_language a) _ r1 in
      let (c, hc, r3) =
        >>=-eq-success (copy_string word granted stale value Read.store_description b) _ r2 in
      Keeps-trans s a s' (new_description-Keeps s a ha) (
        Keeps-trans a b s' (copy_string-Keeps key Read.store_language a b update_language-Keeps hb)
          (Keeps-trans b c s'
            (copy_string-Keeps value Read.store_description b c update_description-Keeps hc)
            (descriptions-Keeps left members c s' r3)))

  metadata_members-Keeps :
      (fuel : ℕ) (db : Mmdb) (offset : ℕ) (s s' : Opening)
      (fill : EntryDataList → Opening → Outcome Opening)
      → ((l : EntryDataList) (a b : Opening) → fill l a ≡ success b → Keeps a b)
      → metadata_members word granted stale fuel db offset s fill ≡ success s'
      → Keeps s s'
  unfolding metadata_members
  metadata_members-Keeps fuel db offset s s' fill keeps h =
      elim (Bool-cases (granted s.allocations)) [
        | inr refused ↦ let no = rw refused at h in cc
        | inl ok ↦
            let (l, _, rest) =
              into-eq-success s
                (ignoring_status (get_entry_data_list granted fuel db offset s.allocations)) _
                (rw ok at h) in
            elim (Bool-cases (granted l.allocations)) [
              | inr refused ↦ let no = rw refused at rest in cc
              | inl ok' ↦ keeps l (record s { allocations = l.allocations + 1 }) s' (rw ok' at rest)
            ]
      ]

  pub populate_languages_metadata-Keeps :
      (fuel : ℕ) (db : Mmdb) (s s' : Opening)
      → populate_languages_metadata word granted stale fuel db s ≡ success s'
      → Keeps s s'
  unfolding populate_languages_metadata
  populate_languages_metadata-Keeps fuel db s s' h =
      let (e, _, rest) =
        into-eq-success s (ignoring_status (aget_value stale db 0 (Keys.languages ∷ []))) _ h in
      elim (Bool-cases (not (e.type == 11))) [
        | inl other ↦ let no = rw other at rest in cc
        | inr array ↦
            metadata_members-Keeps fuel db e.offset
              (with_metadata s (record s.mmdb.metadata { languages = [] })) s' _
              (λ l. language_names-Keeps l.entry_data.data_size l.next) (rw array at rest)
      ]

  pub populate_description_metadata-Keeps :
      (fuel : ℕ) (db : Mmdb) (s s' : Opening)
      → Read.populate_description_metadata word granted stale fuel db s ≡ success s'
      → Keeps s s'
  unfolding Read.populate_description_metadata
  populate_description_metadata-Keeps fuel db s s' h =
      let (e, _, rest) =
        into-eq-success s (ignoring_status (aget_value stale db 0 (Keys.description ∷ []))) _ h in
      elim (Bool-cases (not (e.type == 7))) [
        | inl other ↦ let no = rw other at rest in cc
        | inr map ↦
            metadata_members-Keeps fuel db e.offset (Read.with_descriptions s []) s' _
              (λ l. descriptions-Keeps l.entry_data.data_size l.next) (rw map at rest)
      ]
