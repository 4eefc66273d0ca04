-- ===== src/Mmdblookup/Streams.antt =====
-- The streams and the exit status of mmdblookup.
use node_geoip2c.Base.{
  ℕ, zero, suc, ◌+◌, ◌^◌, ◌≡◌, ◌≢◌, ◌⊎◌, inl, inr, refl, sym, subst, arith, false, Option, List,
  ◌==◌, leb, if◌then◌else◌, Bool-cases,
}
use node_geoip2c.Types.{Error, Outcome, success, failure, fault, stuck, Mmdb, LookupResult}
use node_geoip2c.EntryList.{EntryDataList, get_entry_data_list}
use node_geoip2c.Mmdblookup.{
  Console, out, err, Run, goes_on, exits, crashes, hangs, ◌>>=◌, Machine, Options,
}
use node_geoip2c.Mmdblookup.Lookups.{
  entry_error, open_or_die, lookup_or_die, lookup_and_print, random_ipv4, benchmark_list,
  benchmark_loop, benchmark,
}
use node_geoip2c.Mmdblookup.Main.{given, run_options}
use node_geoip2c.Mmdblookup.Endings.{
  Continues, Continues->>=, open_or_die-Silent, lookup_or_die-Silent, print_result-Told, Told,
  EndsTold,
}

-- A round of the benchmark writes nothing where it goes on.
abbrev Looped : Console → ℕ → Console → Type 0
Looped con code con' = ((code ≡ 0) × (con' ≡ con)) ⊎ ((code ≢ 0) × (con'.stdout ≡ con.stdout))

after_round :
    (con : Console) (Q : ℕ → Console → Type 0) (r : Run ℕ) (next : Console → Run ℕ)
    → Continues con (Looped con) r
    → Continues con Q (next con)
    → ((code : ℕ) (con' : Console) → code ≢ 0 → con'.stdout ≡ con.stdout → Q code con')
    → Continues con Q (r >>= λ code con'. if code == 0 then next con' else goes_on code con')
after_round con Q (goes_on code con') next (inl (zero_code, same)) go stop =
    rw zero_code (subst (λ c. Continues con Q (next c)) (sym same) go)
after_round con Q (goes_on code con') next (inr (other, same)) go stop =
    let nonzero : (code == 0) ≡ false = ground arith in rw nonzero (stop code con' other same)
after_round con Q (exits code con') next h go stop = h
after_round con Q crashes next h go stop = _
after_round con Q hangs next h go stop = _

module _ (machine : Machine) where
  benchmark_list-Looped :
      (found : Mmdb × LookupResult) (con : Console)
      → Continues con (Looped con) (benchmark_list machine found con)
  unfolding benchmark_list
  benchmark_list-Looped (m, result) con = elim (Bool-cases result.found_entry) [
    | inr none' ↦ rw none' (inl (refl, refl))
    | inl entry ↦
        rw entry
          (ended (get_entry_data_list machine.system.granted machine.list_fuel m result.offset 0))
  ]
    where
      ended :
          (o : Outcome EntryDataList)
          → Continues con (Looped con) (elim o as (λ x. Run ℕ) [
            | success l ↦ goes_on 0 con
            | failure e l ↦ goes_on 5 (err (entry_error e) con)
            | fault ↦ crashes
            | stuck ↦ hangs
          ])
      ended (success l) = inl (refl, refl)
      ended (failure e l) = inr (omega arith, refl)
      ended fault = _
      ended stuck = _

  benchmark_loop-Looped :
      (left i : ℕ) (m : Mmdb) (mmdb_error : Option Error) (con : Console)
      → Continues con (Looped con) (benchmark_loop machine left i m mmdb_error con)
  unfolding benchmark_loop
  benchmark_loop-Looped zero i m mmdb_error con = inl (refl, refl)
  benchmark_loop-Looped (suc left) i m mmdb_error con =
      Continues->>= con (Looped con)
        (lookup_or_die machine m (random_ipv4 (machine.rand i)) mmdb_error con) _
        (lookup_or_die-Silent machine m (random_ipv4 (machine.rand i)) mmdb_error con)
        (λ found.
          after_round con (Looped con) (benchmark_list machine found con)
            (λ con'. benchmark_loop machine left (i + 1) found.0 mmdb_error con')
            (benchmark_list-Looped found con)
            (benchmark_loop-Looped left (i + 1) found.0 mmdb_error con)
            (λ code con' other same. inr (other, same)))

  benchmark-Told :
      (m : Mmdb) (iterations : ℕ) (mmdb_error : Option Error) (con : Console)
      → Continues con (Told con) (benchmark machine m iterations mmdb_error con)
  unfolding benchmark
  benchmark-Told m iterations mmdb_error con =
      let rounds = if leb (2 ^ 31) iterations then 0 else iterations in
      after_round con (Told con) (benchmark_loop machine rounds 0 m mmdb_error con)
        (λ con'. goes_on 0 (out (machine.timing iterations) con'))
        (benchmark_loop-Looped rounds 0 m mmdb_error con) (inl (refl, refl))
        (λ code con' other same. inr (other, same))

  Continues-EndsTold : (con : Console) (r : Run ℕ) → Continues con (Told con) r → EndsTold con r
  Continues-EndsTold con (goes_on code con') h = h
  Continues-EndsTold con (exits code con') h = inr h
  Continues-EndsTold con crashes h = h
  Continues-EndsTold con hangs h = h

  -- Without --verbose, a run of mmdblookup from open_or_die on, for a lookup with or without a path
  -- or for a benchmark: with status 0 it has written nothing to stderr, and with another status
  -- nothing to stdout, whatever the files, the addresses and the allocator give, unless it reads
  -- where C leaves it undefined or does not end.
  pub run_options-EndsTold :
      (lookup_path : List (List ℕ)) (mmdb_error : Option Error) (o : Options) (con : Console)
      → o.is_verbose ≡ false
      → EndsTold con (run_options machine lookup_path mmdb_error o con)
  unfolding run_options lookup_and_print
  run_options-EndsTold lookup_path mmdb_error o con quiet = Continues-EndsTold con _ (
      rw quiet (
        Continues->>= con (Told con) (open_or_die machine (given o.mmdb_file) con) _
          (open_or_die-Silent machine (given o.mmdb_file) con)
          (λ m. elim (Bool-cases (o.iterations == 0)) [
            | inr rounds ↦ rw rounds (benchmark-Told m o.iterations mmdb_error con)
            | inl once ↦ rw once (
                Continues->>= con (Told con)
                  (lookup_or_die machine m (given o.ip_address) mmdb_error con) _
                  (lookup_or_die-Silent machine m (given o.ip_address) mmdb_error con)
                  (λ found. print_result-Told machine (given o.ip_address) lookup_path found con))
          ])))
