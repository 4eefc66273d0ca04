-- ===== src/Mmdblookup/Lookups.antt =====
-- open_or_die, lookup_or_die, lookup_and_print, random_ipv4 and benchmark of
-- libmaxminddb/bin/mmdblookup.c.
use node_geoip2c.Base.{
  ℕ, zero, suc, ◌+◌, ◌/◌, ◌%◌, ◌^◌, not, Option, none, some, List, [], ◌∷◌, ◌++◌, ◌==◌, leb,
  if◌then◌else◌, codes,
}
use node_geoip2c.Types.{
  Error, Outcome, success, failure, fault, stuck, EntryData, Mmdb, LookupResult,
}
use node_geoip2c.Path.{aget_value}
use node_geoip2c.Lookup.{StringAnswer, lookup_string}
use node_geoip2c.EntryList.{EntryDataList, get_entry_data_list}
use node_geoip2c.Strerror.{strerror}
use node_geoip2c.Close.{open_database}
use node_geoip2c.Dump.{newline, format_unsigned, Dump, dump_entry_data_list}
use node_geoip2c.Mmdblookup.{Console, out, err, Run, goes_on, exits, crashes, hangs, ◌>>=◌, Machine}

abbrev pub open_message : List ℕ → Error → List ℕ → List ℕ
open_message fname e errno_message =
    newline
    ++ (codes "  Can't open "
        ++ (fname ++ (codes " - " ++ (strerror (some e) ++ (newline ++ (io_line e ++ newline))))))
  where
    io_line : Error → List ℕ
    io_line Error.io = codes "    IO error: " ++ (errno_message ++ newline)
    io_line _ = []

abbrev pub found_nothing : List ℕ
found_nothing =
    newline ++ (codes "  No data was found at the lookup path you provided" ++ (newline ++ newline))

abbrev pub no_entry : List ℕ → List ℕ
no_entry ip_address =
    newline
    ++ (codes "  Could not find an entry for this IP address ("
        ++ (ip_address ++ (codes ")" ++ (newline ++ newline))))

abbrev pub entry_error : Error → List ℕ
entry_error e = codes "Got an error looking up the entry data - " ++ (strerror (some e) ++ newline)

abbrev pub gai_error_line : List ℕ → List ℕ → List ℕ
gai_error_line ipstr message =
    newline
    ++ (codes "  Error from call to getaddrinfo for "
        ++ (ipstr ++ (codes " - " ++ (message ++ (newline ++ newline)))))

abbrev pub library_error_line : Error → List ℕ
library_error_line e =
    newline
    ++ (codes "  Got an error from the maxminddb library: "
        ++ (strerror (some e) ++ (newline ++ newline)))

-- random_ipv4, from the 32 bits of `rand()` in the order of a little-endian machine.
unfoldable pub random_ipv4 : ℕ → List ℕ
random_ipv4 ip_int =
    format_unsigned (ip_int % 256)
    ++ (codes "."
        ++ (format_unsigned (ip_int / 2 ^ 8 % 256)
            ++ (codes "."
                ++ (format_unsigned (ip_int / 2 ^ 16 % 256)
                    ++ (codes "." ++ format_unsigned (ip_int / 2 ^ 24 % 256))))))

module _ (machine : Machine) where
  unfoldable pub open_or_die : List ℕ → Console → Run Mmdb
  open_or_die fname con =
      let system = machine.system in
      elim (open_database system.os system.word system.granted system.uninitialised system.fuel
        fname 1 machine.stale_mmdb) [
          | success m ↦ goes_on m con
          | failure e m ↦ exits 2 (err (open_message fname e machine.errno_message) con)
          | fault ↦ crashes
          | stuck ↦ hangs
        ]

  -- The checks of lookup_or_die.
  unfoldable pub checked_answer : List ℕ → StringAnswer → Console → Run (Mmdb × LookupResult)
  checked_answer ipstr a con =
      if not (a.gai_error == 0)
      then exits 3 (err (gai_error_line ipstr (machine.gai_strerror a.gai_error)) con)
      else (elim a.found.mmdb_error [
        | some e ↦ exits 4 (err (library_error_line e) con)
        | none ↦ goes_on (a.found.mmdb, a.found.result) con
      ])

  -- `mmdb_error` is what the local variable holds.
  unfoldable pub lookup_or_die : Mmdb → List ℕ → Option Error → Console → Run (Mmdb × LookupResult)
  lookup_or_die m ipstr mmdb_error con =
      elim (lookup_string machine.system.getaddrinfo m ipstr mmdb_error) [
        | success a ↦ checked_answer ipstr a con
        | failure e a ↦ checked_answer ipstr a con
        | fault ↦ crashes
        | stuck ↦ hangs
      ]

  -- What is printed of a list; the status of the printing is not looked at.
  abbrev pub printed : Console → Outcome Dump → Run ℕ
  printed con (success s) = goes_on 0 (out newline (record con { stdout = s.stream }))
  printed con (failure e s) = goes_on 0 (out newline (record con { stdout = s.stream }))
  printed con fault = crashes
  printed con stuck = hangs

  -- The end of lookup_and_print for a list.
  unfoldable pub print_list : Mmdb → Outcome EntryDataList → Console → Run ℕ
  print_list m (success l) con =
      let started = out newline con in
      printed started (
        dump_entry_data_list machine.printer m.mapping 2
          (record { stream = started.stdout; entries = l.entry_data ∷ l.next }))
  print_list m (failure e l) con = goes_on 5 (err (entry_error e) con)
  print_list m fault con = crashes
  print_list m stuck con = hangs

  -- The value at a path, with its offset; a value at offset 0 counts as none.
  unfoldable pub print_at : Mmdb → Outcome EntryData → Console → Run ℕ
  print_at m (success e) con =
      if not (e.offset == 0)
      then print_list m (get_entry_data_list machine.system.granted machine.list_fuel m e.offset 0)
          con
      else goes_on 0 (out found_nothing con)
  print_at m (failure x e) con = goes_on 5 (err (entry_error x) con)
  print_at m fault con = crashes
  print_at m stuck con = hangs

  -- The branches of lookup_and_print on the result of the lookup.
  unfoldable pub print_result : List ℕ → List (List ℕ) → Mmdb × LookupResult → Console → Run ℕ
  print_result ip_address [] (m, result) con =
      if result.found_entry
      then print_list m
          (get_entry_data_list machine.system.granted machine.list_fuel m result.offset 0) con
      else goes_on 6 (err (no_entry ip_address) con)
  print_result ip_address (s ∷ path) (m, result) con =
      if result.found_entry
      then print_at m (aget_value machine.system.uninitialised m result.offset (s ∷ path)) con
      else goes_on 6 (err (no_entry ip_address) con)

  unfoldable pub lookup_and_print : Mmdb → List ℕ → List (List ℕ) → Option Error → Console → Run ℕ
  lookup_and_print m ip_address lookup_path mmdb_error con =
      lookup_or_die m ip_address mmdb_error con >>= print_result ip_address lookup_path

  -- The list of one round of the benchmark: 0, or the exit status with which it ends.
  unfoldable pub benchmark_list : Mmdb × LookupResult → Console → Run ℕ
  benchmark_list (m, result) con =
      if result.found_entry
      then (elim (get_entry_data_list machine.system.granted machine.list_fuel m result.offset 0) [
        | success l ↦ goes_on 0 con
        | failure e l ↦ goes_on 5 (err (entry_error e) con)
        | fault ↦ crashes
        | stuck ↦ hangs
      ])
      else goes_on 0 con

  -- The `for` loop, whose round `i` is given the number that rand gives then.
  unfoldable pub benchmark_loop : ℕ → ℕ → Mmdb → Option Error → Console → Run ℕ
  benchmark_loop zero i m mmdb_error con = goes_on 0 con
  benchmark_loop (suc left) i m mmdb_error con =
      lookup_or_die m (random_ipv4 (machine.rand i)) mmdb_error con >>= λ found con'.
      benchmark_list found con' >>= λ code con''.
      if code == 0 then benchmark_loop left (i + 1) found.0 mmdb_error con'' else goes_on code con''

  -- benchmark; a negative `int` makes no round. The line with the times is given.
  unfoldable pub benchmark : Mmdb → ℕ → Option Error → Console → Run ℕ
  benchmark m iterations mmdb_error con =
      benchmark_loop (if leb (2 ^ 31) iterations then 0 else iterations) 0 m mmdb_error con
      >>= λ code con'.
          if code == 0 then goes_on 0 (out (machine.timing iterations) con') else goes_on code con'
