-- ===== src/Mmdblookup/Shown.antt =====
-- What mmdblookup prints for an address.
use node_geoip2c.Base.{
  ℕ, ◌≤◌, ◌<◌, ◌≡◌, refl, ◌⊎◌, inl, inr, subst, arith, ◌==◌, Bool-cases, true, Option, none, some,
  List, [], ◌∷◌, ◌++◌,
}
use node_geoip2c.Types.{Error, Mmdb, LookupResult, data_byte}
use node_geoip2c.Decode.Bounds.{ReadsBytes, data_section_limit}
use node_geoip2c.Format.Datum.{Datum, Field}
use node_geoip2c.EntryList.Listed.{nesting}
use node_geoip2c.EntryList.{get_entry_data_list}
use node_geoip2c.Dump.{newline}
use node_geoip2c.Dump.Render.{render, ReadsUnion, HasPrintableBlobs}
use node_geoip2c.Dump.Whole.{get_entry_data_list-render}
use node_geoip2c.Mmdblookup.{Console, out, err, Run, goes_on, Machine}
use node_geoip2c.Mmdblookup.Lookups.{
  lookup_or_die, print_list, print_at, print_result, lookup_and_print, entry_error, found_nothing,
}
use node_geoip2c.Format.Walk.{Reaches, aget_value-Reaches}
use node_geoip2c.Path.{aget_value}

-- stdout after a value has been printed.
abbrev pub shown : List ℕ → Console → Console
shown text con = record con { stdout = ((con.stdout ++ newline) ++ text) ++ newline }

-- Every request for memory is granted.
pub record Grants (machine : Machine) : Type 0 where
  pub granted : (n : ℕ) → machine.system.granted n ≡ true
  pub malloc : (n : ℕ) → machine.printer.malloc n ≡ true

module _ (machine : Machine) (union : ReadsUnion machine.printer) (grants : Grants machine) where
  print_list-render :
      (m : Mmdb) (d : Datum) (offset next : ℕ) (con : Console)
      → m.data_section_size ≤ data_section_limit
      → Field m d offset next
      → HasPrintableBlobs d
      → nesting d < machine.list_fuel
      → print_list machine m
          (get_entry_data_list machine.system.granted machine.list_fuel m offset 0)
          con
        ≡ goes_on 0 (shown (render machine.printer 2 d) con)
  unfolding print_list
  print_list-render m d offset next con limit field short fits =
      let (l, ends, prints) =
        get_entry_data_list-render machine.printer m machine.system.granted machine.list_fuel 2
          (con.stdout ++ newline) d offset next 0 union grants.malloc limit grants.granted field
          short fits in
      rw (ends, prints) refl

  -- The value is not nested deeper than the fuel allows, and its byte strings are printed.
  abbrev pub IsPrintable : Option Datum → Type 0
  IsPrintable none = Unit {0}
  IsPrintable (some d) = HasPrintableBlobs d × (nesting d < machine.list_fuel)

  -- What a run prints for a value at the end of a path, or where the path leads to none.
  abbrev pub Prints : Mmdb → Console → Option Datum → Run ℕ → Type 0
  Prints m con none run =
      run ≡ goes_on 5 (err (entry_error Error.lookup_path_does_not_match_data) con)
  Prints m con (some d) run =
      (run ≡ goes_on 0 (shown (render machine.printer 2 d) con))
      ⊎ (((after : ℕ) × Field m d 0 after) × (run ≡ goes_on 0 (out found_nothing con)))

  print_at-Prints :
      (m : Mmdb) (path : List (List ℕ)) (d : Datum) (offset next : ℕ) (r : Option Datum)
      (con : Console)
      → m.data_section_size ≤ data_section_limit
      → ReadsBytes (data_byte m)
      → Field m d offset next
      → Reaches d path r
      → IsPrintable r
      → Prints m con r
          (print_at machine m (aget_value machine.system.uninitialised m offset path) con)
  unfolding print_at
  print_at-Prints m path d offset next none con limit bytes field reaches printable =
      rw
        (aget_value-Reaches m limit bytes machine.system.uninitialised path d offset next none field
          reaches)
        refl
  print_at-Prints m path d offset next (some d') con limit bytes field reaches (short, fits) =
      let (e, _, ends, _, (after, lies)) =
        aget_value-Reaches m limit bytes machine.system.uninitialised path d offset next (some d')
          field reaches in
      elim (Bool-cases (e.offset == 0)) [
        | inr there ↦
            rw (ends, there) (inl (print_list-render m d' e.offset after con limit lies short fits))
        | inl start ↦
            let zero_offset : e.offset ≡ 0 = ground arith in
            rw (ends, start) (inr ((after, subst (λ o. Field m d' o after) zero_offset lies), refl))
      ]

  print_result-Prints :
      (m : Mmdb) (result : LookupResult) (ip_address : List ℕ) (path : List (List ℕ)) (d : Datum)
      (next : ℕ) (r : Option Datum) (con : Console)
      → result.found_entry ≡ true
      → m.data_section_size ≤ data_section_limit
      → ReadsBytes (data_byte m)
      → Field m d result.offset next
      → Reaches d path r
      → IsPrintable r
      → Prints m con r (print_result machine ip_address path (m, result) con)
  unfolding print_result
  print_result-Prints m result ip_address [] d next r con found limit bytes field Reaches.here
        (short, fits) =
      rw found (inl (print_list-render m d result.offset next con limit field short fits))
  print_result-Prints m result ip_address (s ∷ path) d next r con found limit bytes field reaches
        printable =
      rw found (
        print_at-Prints m (s ∷ path) d result.offset next r con limit bytes field reaches printable)

  -- Where lookup_or_die gives a result with an entry, the data section of bytes holds the value d at
  -- its offset as the format lays it out, and memory is granted: mmdblookup with a path that leads to
  -- a value of d, or with none, prints that value between two line breaks on stdout, nothing on
  -- stderr, and its status is 0; if that value lies at offset 0 of the data section it may print
  -- instead that there is none. If the path leads to no value the status is 5 and only the error
  -- is printed, on stderr. The fuel for the list is above the nesting of the value, the union is
  -- little-endian, the data section is 32 MiB short of the range of uint32_t and every byte string of
  -- the value has a byte and fewer than 2^31.
  pub lookup_and_print-Prints :
      (m m' : Mmdb) (result : LookupResult) (ip_address : List ℕ) (path : List (List ℕ))
      (mmdb_error : Option Error) (d : Datum) (next : ℕ) (r : Option Datum) (con : Console)
      → lookup_or_die machine m ip_address mmdb_error con ≡ goes_on (m', result) con
      → result.found_entry ≡ true
      → m'.data_section_size ≤ data_section_limit
      → ReadsBytes (data_byte m')
      → Field m' d result.offset next
      → Reaches d path r
      → IsPrintable r
      → Prints m' con r (lookup_and_print machine m ip_address path mmdb_error con)
  unfolding lookup_and_print
  lookup_and_print-Prints m m' result ip_address path mmdb_error d next r con looked found limit
        bytes field reaches printable =
      rw looked (
        print_result-Prints m' result ip_address path d next r con found limit bytes field reaches
          printable)
