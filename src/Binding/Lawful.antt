-- ===== src/Binding/Lawful.antt =====
-- libmaxminddb keeps the promises that the binding relies on.
use node_geoip2c.Base.{
  ℕ, ◌+◌, ◌*◌, ◌≤◌, ◌≡◌, ◌≢◌, refl, sym, ap, subst, Bool, false, List, Bool-cases, Option-cases,
  inl, inr,
}
use node_geoip2c.Types.{Error, Outcome, success, failure, fault, stuck, EntryData, Mmdb, data_byte}
use node_geoip2c.Decode.Bounds.{ReadsBytes, data_section_limit}
use node_geoip2c.Path.{VaList, path_length, read_path, vget_value, get_value, aget_value}
use node_geoip2c.Path.Total.{aget_value-ne-stuck}
use node_geoip2c.Lookup.{StringAnswer, lookup_string}
use node_geoip2c.Lookup.Keeps.{DiffersInStartNode, LeavesFound, lookup_string-LeavesFound}
use node_geoip2c.Metadata.{Opening}
use node_geoip2c.Close.{
  free_languages_metadata, free_descriptions_metadata, free_mmdb_struct, close, cleanup,
  open_database,
}
use node_geoip2c.Binding.Answered.{KeepsOpen}
use node_geoip2c.Binding.Ready.{IsLawful}
use node_geoip2c.Binding.Unloaded.{Closes}
use node_geoip2c.Binding.Libmaxminddb.{System, libmaxminddb}
use node_geoip2c.Binding.Completion.{is_open, returns, hangs, ignoring_status}

-- The data section consists of bytes and is 32 MiB short of the range of uint32_t.
pub record IsBounded (m : Mmdb) : Type 0 where
  pub limit : m.data_section_size ≤ data_section_limit
  pub bytes : ReadsBytes (data_byte m)

free_mmdb_struct-closed : (m : Mmdb) → is_open (free_mmdb_struct m) ≡ false
unfolding free_mmdb_struct free_languages_metadata free_descriptions_metadata
free_mmdb_struct-closed m = elim (Option-cases m.file_content) [
  | inl unmapped ↦ rw unmapped refl
  | inr (p, mapped) ↦ rw mapped refl
]

cleanup-closed :
    (o : Outcome Opening) (e : Error) (m : Mmdb) → cleanup o ≡ failure e m → is_open m ≡ false
cleanup-closed (success s) e m h = cc
cleanup-closed (failure x s) e m h =
    subst (λ x. is_open x ≡ false) (failed h) (free_mmdb_struct-closed s.mmdb)
  where
    failed : {x e : Error} {a b : Mmdb} → failure x a ≡ failure e b → a ≡ b
    failed h = cc
cleanup-closed fault e m h = cc
cleanup-closed stuck e m h = cc

IsBounded-start_node : (m m' : Mmdb) → DiffersInStartNode m m' → IsBounded m → IsBounded m'
unfolding data_byte
IsBounded-start_node m m' same bounded =
    subst IsBounded (sym same) (record { limit = bounded.limit; bytes = bounded.bytes })

LeavesFound-returns :
    (m : Mmdb) (o : Outcome StringAnswer) (a : StringAnswer)
    → LeavesFound m o
    → ignoring_status o ≡ returns a
    → DiffersInStartNode m a.found.mmdb
LeavesFound-returns m (success x) a h e =
    subst (λ (y : StringAnswer). DiffersInStartNode m y.found.mmdb) (answer_of e) h
  where
    answer_of : {x a : StringAnswer} → returns x ≡ returns a → x ≡ a
    answer_of e = cc
LeavesFound-returns m (failure x y) a h e =
    subst (λ (z : StringAnswer). DiffersInStartNode m z.found.mmdb) (answer_of e) h
  where
    answer_of : {x a : StringAnswer} → returns x ≡ returns a → x ≡ a
    answer_of e = cc
LeavesFound-returns m fault a h e = cc
LeavesFound-returns m stuck a h e = cc

LeavesFound-ne-hangs :
    (m : Mmdb) (o : Outcome StringAnswer) → LeavesFound m o → ignoring_status o ≢ hangs
LeavesFound-ne-hangs m (success x) h e = cc
LeavesFound-ne-hangs m (failure x y) h e = cc
LeavesFound-ne-hangs m fault h e = cc
LeavesFound-ne-hangs m stuck h e = absurd h

get_value-ne-hangs :
    (malloc : ℕ → Bool) (stale : EntryData) (m : Mmdb) (offset : ℕ) (e : EntryData) (path : VaList)
    → IsBounded m
    → ignoring_status (get_value malloc stale m offset e path) ≢ hangs
unfolding get_value vget_value
get_value-ne-hangs malloc stale m offset e path bounded h = elim (Option-cases (path_length path)) [
  | inl gone ↦ let bad = rw gone at h in cc
  | inr (n, counted) ↦ elim (Bool-cases (malloc ((n + 1) * 8))) [
    | inr refused ↦ let bad = rw (counted, refused) at h in cc
    | inl granted ↦ elim (Option-cases (read_path path)) [
      | inl gone ↦ let bad = rw (counted, granted, gone) at h in cc
      | inr (elements, read) ↦
          not_stuck (aget_value stale m offset elements)
            (aget_value-ne-stuck stale m bounded.bytes bounded.limit offset elements)
            (rw (counted, granted, read) at h)
    ]
  ]
]
  where
    not_stuck : (o : Outcome EntryData) → o ≢ stuck → ignoring_status o ≢ hangs
    not_stuck (success a) ends h = cc
    not_stuck (failure x a) ends h = cc
    not_stuck fault ends h = cc
    not_stuck stuck ends h = ends refl

module _ (system : System) where
  -- A lookup of libmaxminddb does not close the database.
  pub libmaxminddb-KeepsOpen : KeepsOpen (libmaxminddb system)
  libmaxminddb-KeepsOpen = record {
    lookup_string = λ m ip mmdb_error a answered. ap is_open (
        LeavesFound-returns m (lookup_string system.getaddrinfo m ip mmdb_error) a
          (lookup_string-LeavesFound system.getaddrinfo m ip mmdb_error) answered);
  }

  pub libmaxminddb-Closes : Closes (libmaxminddb system)
  unfolding close
  libmaxminddb-Closes = record { close = free_mmdb_struct-closed }

  -- Every database that MMDB_open opens has a bounded data section.
  pub record OpensBounded : Type 0 where
    pub opened :
        (filename : List ℕ) (m m' : Mmdb)
        → open_database system.os system.word system.granted system.uninitialised system.fuel
            filename 1 m
          ≡ success m'
        → IsBounded m'

  -- libmaxminddb keeps the promises of the interface Library for databases with a bounded data
  -- section, where every database that MMDB_open opens has one: a database that cannot be opened
  -- and one that is closed have no file name, and MMDB_lookup_string keeps the section bounded and
  -- comes to an end, as MMDB_get_value does, for any getaddrinfo and allocator.
  pub libmaxminddb-IsLawful : OpensBounded → IsLawful (libmaxminddb system) IsBounded
  unfolding close open_database
  libmaxminddb-IsLawful bounded = record {
    opened = bounded.opened;
    failed = λ filename m m' e h. cleanup-closed _ e m' h;
    closed = free_mmdb_struct-closed;
    looked_up = λ m ip mmdb_error a ready answered.
        IsBounded-start_node m a.found.mmdb
          (LeavesFound-returns m (lookup_string system.getaddrinfo m ip mmdb_error) a
            (lookup_string-LeavesFound system.getaddrinfo m ip mmdb_error) answered)
          ready;
    lookup_ends = λ m ip mmdb_error.
        LeavesFound-ne-hangs m (lookup_string system.getaddrinfo m ip mmdb_error)
          (lookup_string-LeavesFound system.getaddrinfo m ip mmdb_error);
    value_ends = λ m offset e path ready.
        get_value-ne-hangs system.malloc system.uninitialised m offset e path ready;
  }
