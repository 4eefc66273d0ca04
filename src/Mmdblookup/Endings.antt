-- ===== src/Mmdblookup/Endings.antt =====
-- How the steps of mmdblookup end, and what they write.
use node_geoip2c.Base.{
  ℕ, ◌≡◌, ◌≢◌, ◌⊎◌, inl, inr, refl, sym, subst, arith, Option, List, [], ◌∷◌, ◌==◌, Bool-cases,
  Option-cases,
}
use node_geoip2c.Types.{
  Error, Outcome, success, failure, fault, stuck, EntryData, Mmdb, LookupResult,
}
use node_geoip2c.Lookup.{StringAnswer, lookup_string}
use node_geoip2c.EntryList.{EntryDataList}
use node_geoip2c.Close.{open_database}
use node_geoip2c.Dump.{Dump, newline}
use node_geoip2c.Mmdblookup.{Console, out, err, Run, goes_on, exits, crashes, hangs, ◌>>=◌, Machine}
use node_geoip2c.Mmdblookup.Lookups.{
  open_message, open_or_die, checked_answer, lookup_or_die, printed, print_list, print_at,
  print_result,
}

-- A process that ends early has a status other than 0 and has written nothing to stdout; one that
-- goes on has the property.
abbrev pub Continues {ℓ} : {A : Type ℓ} → Console → (A → Console → Type 0) → Run A → Type 0
Continues con P (goes_on a con') = P a con'
Continues con P (exits code con') = (code ≢ 0) × (con'.stdout ≡ con.stdout)
Continues con P crashes = Unit {0}
Continues con P hangs = Unit {0}

-- A value, with nothing written.
abbrev pub Silent {ℓ} : {A : Type ℓ} → Console → A → Console → Type 0
Silent con a con' = con' ≡ con

-- Status 0 has written nothing to stderr, another one nothing to stdout.
abbrev pub Told : Console → ℕ → Console → Type 0
Told con code con' =
    ((code ≡ 0) × (con'.stderr ≡ con.stderr)) ⊎ ((code ≢ 0) × (con'.stdout ≡ con.stdout))

-- The same of a whole run.
abbrev pub EndsTold : Console → Run ℕ → Type 0
EndsTold con (goes_on code con') = Told con code con'
EndsTold con (exits code con') = Told con code con'
EndsTold con crashes = Unit {0}
EndsTold con hangs = Unit {0}

pub Continues->>= {ℓ κ} :
    {A : Type ℓ} {B : Type κ} (con : Console) (Q : B → Console → Type 0) (r : Run A)
    (k : A → Console → Run B)
    → Continues con (Silent con) r
    → ((a : A) → Continues con Q (k a con))
    → Continues con Q (r >>= k)
Continues->>= con Q (goes_on a con') k h next =
    subst (λ c. Continues con Q (k a c)) (sym h) (next a)
Continues->>= con Q (exits code con') k h next = h
Continues->>= con Q crashes k h next = _
Continues->>= con Q hangs k h next = _

module _ (machine : Machine) where
  pub open_or_die-Silent :
      (fname : List ℕ) (con : Console) → Continues con (Silent con) (open_or_die machine fname con)
  unfolding open_or_die
  open_or_die-Silent fname con = ended (
      open_database machine.system.os machine.system.word machine.system.granted
        machine.system.uninitialised machine.system.fuel fname 1 machine.stale_mmdb)
    where
      ended :
          (o : Outcome Mmdb)
          → Continues con (Silent con) (elim o as (λ x. Run Mmdb) [
            | success m ↦ goes_on m con
            | failure e m ↦ exits 2 (err (open_message fname e machine.errno_message) con)
            | fault ↦ crashes
            | stuck ↦ hangs
          ])
      ended (success m) = refl
      ended (failure e m) = (omega arith, refl)
      ended fault = _
      ended stuck = _

  checked_answer-Silent :
      (ipstr : List ℕ) (a : StringAnswer) (con : Console)
      → Continues con (Silent con) (checked_answer machine ipstr a con)
  unfolding checked_answer
  checked_answer-Silent ipstr a con = elim (Bool-cases (a.gai_error == 0)) [
    | inr refused ↦ rw refused (omega arith, refl)
    | inl ok ↦ elim (Option-cases a.found.mmdb_error) [
      | inl fine ↦ rw (ok, fine) refl
      | inr (e, failed) ↦ rw (ok, failed) (omega arith, refl)
    ]
  ]

  pub lookup_or_die-Silent :
      (m : Mmdb) (ipstr : List ℕ) (mmdb_error : Option Error) (con : Console)
      → Continues con (Silent con) (lookup_or_die machine m ipstr mmdb_error con)
  unfolding lookup_or_die
  lookup_or_die-Silent m ipstr mmdb_error con =
      ended (lookup_string machine.system.getaddrinfo m ipstr mmdb_error)
    where
      ended :
          (o : Outcome StringAnswer)
          → Continues con (Silent con) (elim o as (λ x. Run (Mmdb × LookupResult)) [
            | success a ↦ checked_answer machine ipstr a con
            | failure e a ↦ checked_answer machine ipstr a con
            | fault ↦ crashes
            | stuck ↦ hangs
          ])
      ended (success a) = checked_answer-Silent ipstr a con
      ended (failure e a) = checked_answer-Silent ipstr a con
      ended fault = _
      ended stuck = _

  printed-Told :
      (con con' : Console) (o : Outcome Dump)
      → con'.stderr ≡ con.stderr
      → Continues con (Told con) (printed machine con' o)
  printed-Told con con' (success s) same = inl (refl, same)
  printed-Told con con' (failure e s) same = inl (refl, same)
  printed-Told con con' fault same = _
  printed-Told con con' stuck same = _

  print_list-Told :
      (m : Mmdb) (o : Outcome EntryDataList) (con : Console)
      → Continues con (Told con) (print_list machine m o con)
  unfolding print_list
  print_list-Told m (success l) con = printed-Told con (out newline con) _ refl
  print_list-Told m (failure e l) con = inr (omega arith, refl)
  print_list-Told m fault con = _
  print_list-Told m stuck con = _

  print_at-Told :
      (m : Mmdb) (o : Outcome EntryData) (con : Console)
      → Continues con (Told con) (print_at machine m o con)
  unfolding print_at
  print_at-Told m (success e) con = elim (Bool-cases (e.offset == 0)) [
    | inl nowhere ↦ rw nowhere (inl (refl, refl))
    | inr there ↦ rw there (print_list-Told m _ con)
  ]
  print_at-Told m (failure x e) con = inr (omega arith, refl)
  print_at-Told m fault con = _
  print_at-Told m stuck con = _

  pub print_result-Told :
      (ip_address : List ℕ) (path : List (List ℕ)) (found : Mmdb × LookupResult) (con : Console)
      → Continues con (Told con) (print_result machine ip_address path found con)
  unfolding print_result
  print_result-Told ip_address [] (m, result) con = elim (Bool-cases result.found_entry) [
    | inl entry ↦ rw entry (print_list-Told m _ con)
    | inr none' ↦ rw none' (inr (omega arith, refl))
  ]
  print_result-Told ip_address (s ∷ path) (m, result) con = elim (Bool-cases result.found_entry) [
    | inl entry ↦ rw entry (print_at-Told m _ con)
    | inr none' ↦ rw none' (inr (omega arith, refl))
  ]
