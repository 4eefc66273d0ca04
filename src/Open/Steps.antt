-- ===== src/Open/Steps.antt =====
-- What each assignment of read_metadata establishes and leaves alone.
use node_geoip2c.Base.{ℕ, ◌≡◌, ◌≢◌, ◌⊎◌, refl, arith, Bool, true, false}
use node_geoip2c.Base.{◌==◌, Bool-cases, Option-cases, inl, inr, ◌||◌, subst}
use node_geoip2c.Types.{success, Value, EntryData, Mmdb}
use node_geoip2c.Types.{into-eq-success}
use node_geoip2c.Metadata.{Opening, checked, value_for_key_as_uint16, value_for_key_as_uint32}
use node_geoip2c.Metadata.{value_for_key_as_uint64, value_for_key_as_string}
use node_geoip2c.Metadata.Read
use node_geoip2c.Open.Keeps.{Keeps, Keeps-refl, success-eq}

pub checked-success :
    (bad : Bool) (s s' : Opening) → checked bad s ≡ success s' → (bad ≡ false) × (s ≡ s')
checked-success true s s' h = cc
checked-success false s s' h = (refl, success-eq h)

abbrev pub IsSize : ℕ → Type 0
IsSize v = (v ≡ 24) ⊎ ((v ≡ 28) ⊎ (v ≡ 32))

abbrev pub IsVersion : ℕ → Type 0
IsVersion v = (v ≡ 4) ⊎ (v ≡ 6)

-- Another step that is no assignment of the three numbers.
module _ (word : Value → ℕ) (granted : ℕ → Bool) (stale : EntryData) (db : Mmdb)
    (s s' : Opening) where
  pub read_node_count-success :
      Read.read_node_count word granted stale db s ≡ success s'
      → (s'.mmdb.metadata.node_count ≢ 0) × (s'.mmdb.file_content ≡ s.mmdb.file_content)
  unfolding Read.read_node_count
  read_node_count-success h =
      let (v, _, rest) = into-eq-success s (value_for_key_as_uint32 word granted stale db _) _ h in
      let (ok, same) = checked-success _ _ _ rest in
      subst
        (λ (x : Opening).
          (x.mmdb.metadata.node_count ≢ 0) × (x.mmdb.file_content ≡ s.mmdb.file_content))
        same (ground arith, refl)

  pub read_record_size-success :
      Read.read_record_size word granted stale db s ≡ success s'
      → IsSize s'.mmdb.metadata.record_size
        × (s'.mmdb.metadata.node_count ≡ s.mmdb.metadata.node_count)
        × (s'.mmdb.file_content ≡ s.mmdb.file_content)
  unfolding Read.read_record_size
  read_record_size-success h =
      let (v, _, rest) = into-eq-success s (value_for_key_as_uint16 word granted stale db _) _ h in
      elim (Bool-cases (v == 0)) [
        | inl empty ↦ let bad = rw empty at rest in cc
        | inr nonzero ↦ elim (Bool-cases ((v == 24) || ((v == 28) || (v == 32)))) [
          | inr other ↦ let bad = rw (nonzero, other) at rest in cc
          | inl known ↦
              subst
                (λ (x : Opening).
                  IsSize x.mmdb.metadata.record_size
                  × (x.mmdb.metadata.node_count ≡ s.mmdb.metadata.node_count)
                  × (x.mmdb.file_content ≡ s.mmdb.file_content))
                (success-eq (rw (nonzero, known) at rest)) (ground arith, refl, refl)
        ]
      ]

  pub read_ip_version-success :
      Read.read_ip_version word granted stale db s ≡ success s'
      → IsVersion s'.mmdb.metadata.ip_version
        × (s'.mmdb.metadata.node_count ≡ s.mmdb.metadata.node_count)
        × (s'.mmdb.metadata.record_size ≡ s.mmdb.metadata.record_size)
        × (s'.mmdb.file_content ≡ s.mmdb.file_content)
  unfolding Read.read_ip_version
  read_ip_version-success h =
      let (v, _, rest) = into-eq-success s (value_for_key_as_uint16 word granted stale db _) _ h in
      let (ok, same) = checked-success _ _ _ rest in
      subst
        (λ (x : Opening).
          IsVersion x.mmdb.metadata.ip_version
          × (x.mmdb.metadata.node_count ≡ s.mmdb.metadata.node_count)
          × (x.mmdb.metadata.record_size ≡ s.mmdb.metadata.record_size)
          × (x.mmdb.file_content ≡ s.mmdb.file_content))
        same (ground arith, refl, refl, refl)

  pub read_database_type-Keeps :
      Read.read_database_type word granted stale db s ≡ success s' → Keeps s s'
  unfolding Read.read_database_type
  read_database_type-Keeps h =
      let (text, _, rest) =
        into-eq-success s (value_for_key_as_string word granted stale db _ s.allocations) _ h in
      elim (Option-cases text) [
        | inl null ↦ let bad = rw null at rest in cc
        | inr (t, some_text) ↦
            subst (λ x. Keeps s x) (success-eq (rw some_text at rest)) (Keeps-refl s)
      ]

  pub read_major_version-Keeps :
      Read.read_major_version word granted stale db s ≡ success s' → Keeps s s'
  unfolding Read.read_major_version
  read_major_version-Keeps h =
      let (v, _, rest) = into-eq-success s (value_for_key_as_uint16 word granted stale db _) _ h in
      let (_, same) = checked-success _ _ _ rest in subst (λ x. Keeps s x) same (Keeps-refl s)

  pub read_minor_version-Keeps :
      Read.read_minor_version word granted stale db s ≡ success s' → Keeps s s'
  unfolding Read.read_minor_version
  read_minor_version-Keeps h =
      let (v, _, rest) = into-eq-success s (value_for_key_as_uint16 word granted stale db _) _ h in
      subst (λ x. Keeps s x) (success-eq rest) (Keeps-refl s)

  pub read_build_epoch-Keeps :
      Read.read_build_epoch word granted stale db s ≡ success s' → Keeps s s'
  unfolding Read.read_build_epoch
  read_build_epoch-Keeps h =
      let (v, _, rest) = into-eq-success s (value_for_key_as_uint64 word granted stale db _) _ h in
      let (_, same) = checked-success _ _ _ rest in subst (λ x. Keeps s x) same (Keeps-refl s)
