-- ===== src/Open/WellFormed.antt =====
-- What a database that MMDB_open has opened is like: what the search of its tree relies on.
use node_geoip2c.Base.{ℕ, ◌+◌, ◌*◌, ◌/◌, ◌^◌, ◌≤◌, ◌<◌, ◌≡◌, ◌≢◌, ◌⊎◌, refl, sym, ◌∙◌, arith, Bool}
use node_geoip2c.Base.{
  Option, some, List, ◌==◌, length, Bool-cases, inl, inr, u16, u32, if◌then◌else◌, not, subst,
}
use node_geoip2c.Types.{Error, success, Value, EntryData, Mmdb}
use node_geoip2c.Types.{>>=-eq-success, reading-eq-success}
use node_geoip2c.Tree.{record_info_for_database}
use node_geoip2c.Tree.Safety.{Ends}
use node_geoip2c.Tree.Readable.{HoldsTree}
use node_geoip2c.Lookup.{Hints, Resolved, lookup_string}
use node_geoip2c.Lookup.Laws.{HasDepth, GivesAddress, lookup_string-Ends}
use node_geoip2c.Metadata.{Opening, find_metadata, populate_languages_metadata}
use node_geoip2c.EntryList.{make_fake_metadata_db}
use node_geoip2c.Metadata.Read
use mathlib.Core.Option
use node_geoip2c.Open.{Mapping, map_file, locate_sections, open_metadata, mmdb_open}
use node_geoip2c.Open.Keeps.{Keeps, Keeps-trans, success-eq, populate_languages_metadata-Keeps}
use node_geoip2c.Open.Keeps.{populate_description_metadata-Keeps}
use node_geoip2c.Open.Steps.{IsSize, IsVersion, read_node_count-success, read_record_size-success}
use node_geoip2c.Open.Steps.{
  read_ip_version-success, read_database_type-Keeps, read_major_version-Keeps,
}
use node_geoip2c.Open.Steps.{read_minor_version-Keeps, read_build_epoch-Keeps}

-- A database that is ready to be searched.
pub record IsOpened (m : Mmdb) : Type 0 where
  pub nonempty : 0 < m.metadata.node_count
  pub known : (record_info_for_database m).right_record_offset ≢ 0
  pub low : 6 ≤ m.full_record_byte_size
  pub high : m.full_record_byte_size ≤ 8
  pub has_depth : HasDepth m
  pub uncached : m.ipv4_start_node.node_value ≡ 0
  pub mapped : m.file_content ≡ some 0
  pub data_section : m.data_section ≡ some (u32 (m.metadata.node_count * m.full_record_byte_size))

-- The same before the sections are located.
abbrev HasMetadata : Opening → Type 0
HasMetadata s =
    (s.mmdb.metadata.node_count ≢ 0)
    × IsSize s.mmdb.metadata.record_size
    × IsVersion s.mmdb.metadata.ip_version
    × (s.mmdb.file_content ≡ some 0)

HasMetadata-Keeps : (a b : Opening) → Keeps a b → HasMetadata a → HasMetadata b
HasMetadata-Keeps a b (k0, k1, k2, k3, _) (h0, h1, h2, h3) =
    (λ e. h0 (sym k0 ∙ e), subst IsSize (sym k1) h1, subst IsVersion (sym k2) h2, k3 ∙ h3)

known_size :
    (m : Mmdb)
    → IsSize m.metadata.record_size
    → m.full_record_byte_size ≡ u16 (m.metadata.record_size * 2 / 8)
    → ((record_info_for_database m).right_record_offset ≢ 0)
      × (6 ≤ m.full_record_byte_size)
      × (m.full_record_byte_size ≤ 8)
unfolding record_info_for_database
known_size m size full = (λ e. ground arith, ground arith, ground arith)

moved : (o : Option ℕ) (n : ℕ) → o ≡ some 0 → Option.map (λ base. base + n) o ≡ some n
moved o n h = rw h (ground arith)

depth_of :
    (version depth : ℕ)
    → IsVersion version
    → depth ≡ (if version == 4 then 32 else 128)
    → ((version ≡ 4) × (depth ≡ 32)) ⊎ ((version ≡ 6) × (depth ≡ 128))
depth_of version depth v d = ground arith

module _ (word : Value → ℕ) (granted : ℕ → Bool) (stale : EntryData) (fuel : ℕ) where
  read_metadata-success :
      (s s' : Opening)
      → s.mmdb.file_content ≡ some 0
      → Read.read_metadata word granted stale fuel s ≡ success s'
      → (t : Opening) × (s' ≡ Read.set_sizes t) × HasMetadata t
  unfolding Read.read_metadata
  read_metadata-success s s' file h =
      let db = make_fake_metadata_db s.mmdb in
      let (s1, h1, r1) = >>=-eq-success (Read.read_node_count word granted stale db s) _ h in
      let (s2, h2, r2) = >>=-eq-success (Read.read_record_size word granted stale db s1) _ r1 in
      let (s3, h3, r3) = >>=-eq-success (Read.read_ip_version word granted stale db s2) _ r2 in
      let (s4, h4, r4) = >>=-eq-success (Read.read_database_type word granted stale db s3) _ r3 in
      let (s5, h5, r5) =
        >>=-eq-success (populate_languages_metadata word granted stale fuel db s4) _ r4 in
      let (s6, h6, r6) = >>=-eq-success (Read.read_major_version word granted stale db s5) _ r5 in
      let (s7, h7, r7) = >>=-eq-success (Read.read_minor_version word granted stale db s6) _ r6 in
      let (s8, h8, r8) = >>=-eq-success (Read.read_build_epoch word granted stale db s7) _ r7 in
      let (s9, h9, r9) =
        >>=-eq-success (Read.populate_description_metadata word granted stale fuel db s8) _ r8 in
      let (count, f1) = read_node_count-success word granted stale db s s1 h1 in
      let (size, c2, f2) = read_record_size-success word granted stale db s1 s2 h2 in
      let (version, c3, z3, f3) = read_ip_version-success word granted stale db s2 s3 h3 in
      let k = Keeps-trans s3 s4 s9 (read_database_type-Keeps word granted stale db s3 s4 h4) (
        Keeps-trans s4 s5 s9 (populate_languages_metadata-Keeps word granted stale fuel db s4 s5 h5)
          (Keeps-trans s5 s6 s9 (read_major_version-Keeps word granted stale db s5 s6 h6) (
            Keeps-trans s6 s7 s9 (read_minor_version-Keeps word granted stale db s6 s7 h7) (
              Keeps-trans s7 s8 s9 (read_build_epoch-Keeps word granted stale db s7 s8 h8)
                (populate_description_metadata-Keeps word granted stale fuel db s8 s9 h9))))) in
      (
        s9,
        sym (success-eq r9),
        HasMetadata-Keeps s3 s9 k (
          λ e. count (sym (c3 ∙ c2) ∙ e),
          subst IsSize (sym z3) size,
          version,
          f3 ∙ f2 ∙ f1 ∙ file,
        ),
      )

  IsOpened-located :
      (t s' : Opening)
      → HasMetadata t
      → locate_sections (Read.set_sizes t) ≡ success s'
      → IsOpened s'.mmdb
  unfolding locate_sections
  IsOpened-located t s' (count, size, version, file) h =
      elim (Bool-cases (not (t.mmdb.metadata.binary_format_major_version == 2))) [
        | inl other ↦ let bad = rw other at h in cc
        | inr two ↦
            subst (λ (x : Opening). IsOpened x.mmdb) (success-eq (rw two at h))
              (let (known, low, high) = known_size _ size refl in
                record {
                  nonempty = ground arith;
                  known = known;
                  low = low;
                  high = high;
                  has_depth = depth_of _ _ version refl;
                  uncached = refl;
                  mapped = file;
                  data_section = moved t.mmdb.file_content _ file;
                })
      ]

  map_file-success :
      (os : List ℕ → Mapping) (filename : List ℕ) (s s' : Opening)
      → map_file os filename s ≡ success s'
      → s'.mmdb.file_content ≡ some 0
  unfolding map_file
  map_file-success os filename s s' h = ground arith

  -- A database that MMDB_open has opened, whatever the file holds: it has a node, nodes of 6, 7 or 8
  -- bytes and the getters for them, a depth of 32 bits for IP version 4 or 128 for version 6, an
  -- empty IPv4 start node, and its data section begins behind node_count nodes (as a uint32_t). So
  -- MMDB_open establishes what the theorems on the search tree ask of a database, but for the file
  -- holding the whole tree, which it does not check.
  pub mmdb_open-IsOpened :
      (os : List ℕ → Mapping) (filename : List ℕ) (flags : ℕ) (m : Mmdb) (s : Opening)
      → mmdb_open os word granted stale fuel filename flags m ≡ success s
      → IsOpened s.mmdb
  unfolding mmdb_open open_metadata
  mmdb_open-IsOpened os filename flags m s h = elim (Bool-cases (granted 0)) [
    | inr refused ↦ let bad = rw refused at h in cc
    | inl ok ↦
        let (s1, h1, r1) = >>=-eq-success (map_file os filename _) _ (rw ok at h) in
        let (located, _, r2) =
          reading-eq-success (find_metadata s1.mmdb.mapping s1.mmdb.file_size) _ r1 in
        let (s2, h2, r3) = >>=-eq-success (Read.read_metadata word granted stale fuel _) _ r2 in
        let (t, same, has) = read_metadata-success _ s2 (map_file-success os filename _ s1 h1) h2 in
        IsOpened-located t s has (subst (λ x. locate_sections x ≡ success s) same r3)
  ]

  -- A database that MMDB_open has opened, whose file holds node_count nodes within the range of
  -- uint32_t, can be looked up in: where getaddrinfo gives an address of the family and size that it
  -- is asked for, MMDB_lookup_string ends for every string, and reads neither outside the file nor
  -- behind the address.
  pub mmdb_open-lookup_string-Ends :
      (os : List ℕ → Mapping) (filename : List ℕ) (flags : ℕ) (m : Mmdb) (s : Opening)
      (getaddrinfo : List ℕ → Hints → Resolved) (ipstr : List ℕ) (mmdb_error : Option Error)
      → mmdb_open os word granted stale fuel filename flags m ≡ success s
      → s.mmdb.metadata.node_count * s.mmdb.full_record_byte_size < 2 ^ 32
      → s.mmdb.metadata.node_count * s.mmdb.full_record_byte_size ≤ length s.mmdb.mapping
      → GivesAddress getaddrinfo
      → Ends (lookup_string getaddrinfo s.mmdb ipstr mmdb_error)
  mmdb_open-lookup_string-Ends os filename flags m s getaddrinfo ipstr mmdb_error h fits whole
        documented =
      let opened = mmdb_open-IsOpened os filename flags m s h in
      let tree : HoldsTree s.mmdb 0 = record {
        mapped = opened.mapped;
        low = opened.low;
        high = opened.high;
        fits = fits;
        whole = omega arith;
      } in
      lookup_string-Ends getaddrinfo documented s.mmdb 0 tree opened.nonempty opened.has_depth
        (inl opened.uncached) ipstr mmdb_error
