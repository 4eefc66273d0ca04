-- ===== src/Tests/Commands.antt =====
-- Runs of mmdblookup on a small database.
use node_geoip2c.Base.{◌≡◌, refl, arith, true, none, some, [], ◌∷◌, codes}
use node_geoip2c.Types.{LookupResult}
use node_geoip2c.Tree.{
  record_info_for_database, left_record, right_record, record_pointer, populate_result, depth_bit,
  address_bit, next_record, search_loop, find_address_in_search_tree,
}
use node_geoip2c.Bytes.{get_uint24}
use node_geoip2c.Lookup.{resolve_any_address, has_colon, lookup_sockaddr, lookup_string}
use node_geoip2c.Format.Datum.{Datum, Field}
use node_geoip2c.Mmdblookup.{Console, goes_on, Machine, Options, no_options}
use node_geoip2c.Mmdblookup.Lookups.{lookup_or_die, checked_answer, lookup_and_print}
use node_geoip2c.Mmdblookup.Main.{run_options}
use node_geoip2c.Mmdblookup.Endings.{EndsTold}
use node_geoip2c.Mmdblookup.Streams.{run_options-EndsTold}
use node_geoip2c.Mmdblookup.Shown.{Grants, Prints, lookup_and_print-Prints}
use node_geoip2c.Tests.{ipv4_db}
use node_geoip2c.Tests.Bindings.{one_system}
use node_geoip2c.Tests.Dumps.{one_printer, one_printer-ReadsUnion}
use node_geoip2c.Tests.Sections.{five, pairs, map_at, path_to_five, ipv4_db_limit, ipv4_db_bytes}

abbrev one_machine : Machine
one_machine = record {
  system = one_system;
  printer = one_printer;
  gai_strerror = λ code. codes "Name or service not known";
  errno_message = codes "Success";
  strftime = λ time. codes "1970-01-01 00:00:00 UTC";
  rand = λ i. i;
  timing = λ iterations. [];
  stale_mmdb = ipv4_db;
  list_fuel = 20;
}

abbrev nothing_written : Console
nothing_written = record { stdout = []; stderr = [] }

abbrev found_map : LookupResult
found_map = record { found_entry = true; offset = 16; netmask = 1 }

one_machine-looks_up :
    lookup_or_die one_machine ipv4_db (codes "1.2.3.4") none nothing_written
    ≡ goes_on (ipv4_db, found_map) nothing_written
unfolding lookup_or_die checked_answer resolve_any_address has_colon lookup_sockaddr lookup_string
    record_info_for_database left_record right_record record_pointer populate_result depth_bit
    address_bit next_record search_loop find_address_in_search_tree get_uint24
one_machine-looks_up = refl

one_machine-Grants : Grants one_machine
one_machine-Grants = record { granted = λ n. refl; malloc = λ n. refl }

lookup_and_print-Prints_example :
    Prints one_machine one_printer-ReadsUnion one_machine-Grants ipv4_db nothing_written
      (some five)
      (lookup_and_print one_machine ipv4_db
        (codes "1.2.3.4")
        ((97 ∷ []) ∷ (48 ∷ []) ∷ [])
        none
        nothing_written)
lookup_and_print-Prints_example =
    lookup_and_print-Prints one_machine one_printer-ReadsUnion one_machine-Grants ipv4_db ipv4_db
      found_map (codes "1.2.3.4") ((97 ∷ []) ∷ (48 ∷ []) ∷ []) none (Datum.map pairs) 23 (some five)
      nothing_written one_machine-looks_up refl ipv4_db_limit ipv4_db_bytes (Field.direct map_at)
      path_to_five (_, omega arith)

abbrev one_lookup : Options
one_lookup = record no_options { mmdb_file = some (codes "f"); ip_address = some (codes "1.2.3.4") }

run_options-EndsTold_example :
    EndsTold nothing_written (run_options one_machine [] none one_lookup nothing_written)
run_options-EndsTold_example =
    run_options-EndsTold one_machine [] none one_lookup nothing_written refl
