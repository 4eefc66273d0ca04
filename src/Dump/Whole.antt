-- ===== src/Dump/Whole.antt =====
-- A value of a database, listed and printed.
use node_geoip2c.Base.{ℕ, ◌≤◌, ◌<◌, ◌≡◌, Bool, true, List, [], ◌∷◌, ◌++◌}
use node_geoip2c.Types.{success, Mmdb}
use node_geoip2c.Decode.Bounds.{data_section_limit}
use node_geoip2c.Format.Datum.{Datum, Field}
use node_geoip2c.EntryList.{EntryDataList, get_entry_data_list}
use node_geoip2c.EntryList.Listed.{nesting}
use node_geoip2c.EntryList.Flatten.{get_entry_data_list-Field}
use node_geoip2c.Dump.{Printer, dump_entry_data_list}
use node_geoip2c.Dump.Render.{render, ReadsUnion, HasPrintableBlobs}
use node_geoip2c.Dump.Listed.{dump_entry_data_list-Listed}

-- Where the data section, 32 MiB short of the range of uint32_t, holds the value d at
-- `offset` as the format lays it out, directly or behind a pointer, every allocation is granted, the
-- union is little-endian and every byte string has a byte and fewer than 2^31:
-- MMDB_get_entry_data_list, with any fuel above the nesting of d, succeeds with a list that MMDB_dump_entry_data_list prints as d.
pub get_entry_data_list-render :
    (printer : Printer) (m : Mmdb) (granted : ℕ → Bool) (fuel indent : ℕ) (stream : List ℕ)
    (d : Datum) (offset next allocations : ℕ)
    → ReadsUnion printer
    → ((n : ℕ) → printer.malloc n ≡ true)
    → m.data_section_size ≤ data_section_limit
    → ((n : ℕ) → granted n ≡ true)
    → Field m d offset next
    → HasPrintableBlobs d
    → nesting d < fuel
    → (l : EntryDataList) × (get_entry_data_list granted fuel m offset allocations ≡ success l)
      × (dump_entry_data_list printer m.mapping indent
            (record { stream = stream; entries = l.entry_data ∷ l.next })
          ≡ success (record { stream = stream ++ render printer indent d; entries = [] }))
get_entry_data_list-render printer m granted fuel indent stream d offset next allocations union
      grants limit all field short fits =
    let g =
      get_entry_data_list-Field m limit granted all fuel d offset next allocations field fits in
    (
      g.result,
      g.ends,
      dump_entry_data_list-Listed printer union grants m indent stream d g.result.entry_data
          g.result.next g.listed short,
    )
