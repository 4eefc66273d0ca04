-- ===== src/Tests/Dumps.antt =====
-- A value of a small database, listed and printed.
use node_geoip2c.Base.{ℕ, ◌≡◌, refl, arith, true, false, List, [], ◌∷◌, ◌++◌, codes, if◌then◌else◌}
use node_geoip2c.Types.{success, Value}
use node_geoip2c.Format.Datum.{Datum}
use node_geoip2c.EntryList.{EntryDataList, get_entry_data_list}
use node_geoip2c.Dump.{Printer, dump_entry_data_list, indentation}
use node_geoip2c.Dump.Render.{render, ReadsUnion}
use node_geoip2c.Dump.Whole.{get_entry_data_list-render}
use node_geoip2c.Tests.{always, ipv4_db}
use node_geoip2c.Tests.Sections.{pairs, pointed_map, ipv4_db_limit}

abbrev union_word : Value → ℕ
union_word (Value.uint16 v) = v
union_word (Value.uint32 v) = v
union_word (Value.int32 v) = v
union_word (Value.uint64 v) = v
union_word (Value.uint128 v) = v
union_word (Value.double_value v) = v
union_word (Value.float_value v) = v
union_word (Value.boolean true) = 1
union_word _ = 0

abbrev pub one_printer : Printer
one_printer = record {
  word = union_word;
  long_word = union_word;
  format_double = λ bits. codes "0.000000";
  format_float = λ bits. codes "0.000000";
  malloc = always;
}

pub one_printer-ReadsUnion : ReadsUnion one_printer
one_printer-ReadsUnion = record {
  uint16 = λ v. refl;
  uint32 = λ v. refl;
  int32 = λ v. refl;
  uint64 = λ v. refl;
  uint128 = λ v. refl;
  double_value = λ v. refl;
  float_value = λ v. refl;
  boolean = λ b. elim b as (λ b'. union_word (Value.boolean b') ≡ (if b' then 1 else 0)) [
    | true ↦ refl
    | false ↦ refl
  ];
}

get_entry_data_list-render_example :
    (l : EntryDataList) × (get_entry_data_list always 20 ipv4_db 23 0 ≡ success l)
    × (dump_entry_data_list one_printer ipv4_db.mapping 0
          (record { stream = []; entries = l.entry_data ∷ l.next })
        ≡ success (record { stream = render one_printer 0 (Datum.map pairs); entries = [] }))
get_entry_data_list-render_example =
    get_entry_data_list-render one_printer ipv4_db always 20 0 [] (Datum.map pairs) 23 25 0
      one_printer-ReadsUnion (λ n. refl) ipv4_db_limit (λ n. refl) pointed_map (_, _) (omega arith)

abbrev five_lines : List ℕ
five_lines =
    codes "{"
    ++ (10
        ∷ (codes "  \"a\": "
            ++ (10
                ∷ (codes "    ["
                    ++ (10
                        ∷ (codes "      5 <uint16>"
                            ++ (10 ∷ (codes "    ]" ++ (10 ∷ (codes "}" ++ (10 ∷ [])))))))))))

renders : render one_printer 0 (Datum.map pairs) ≡ five_lines
unfolding indentation
renders = refl
