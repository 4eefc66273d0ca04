-- ===== src/Mmdblookup/Main.antt =====
-- main and dump_meta of libmaxminddb/bin/mmdblookup.c.
use node_geoip2c.Base.{ℕ, Option, none, some, List, [], ◌∷◌, ◌++◌, ◌==◌, if◌then◌else◌, codes}
use node_geoip2c.Types.{Error, Mmdb, Metadata, Description}
use node_geoip2c.Dump.{newline, format_signed, format_unsigned}
use node_geoip2c.Mmdblookup.{
  Console, out, Run, goes_on, exits, crashes, ◌>>=◌, Machine, Opt, Options,
}
use node_geoip2c.Mmdblookup.Usage.{get_options}
use node_geoip2c.Mmdblookup.Lookups.{open_or_die, lookup_and_print, benchmark}

-- The names with a space between two of them.
abbrev pub language_list : List (List ℕ) → List ℕ
language_list [] = []
language_list (name ∷ []) = name
language_list (name ∷ (next ∷ names)) = name ++ (codes " " ++ language_list (next ∷ names))

-- A `%s` of NULL is undefined.
unfoldable pub description_lines : List Description → Option (List ℕ)
description_lines [] = some []
description_lines (d ∷ ds) = elim d.language [
  | none ↦ none
  | some language ↦ elim d.description [
    | none ↦ none
    | some description ↦ elim (description_lines ds) [
      | none ↦ none
      | some rest ↦
          some
            (codes "      " ++ (language ++ (codes ":   " ++ (description ++ (newline ++ rest)))))
    ]
  ]
]

-- The format meta_dump, with `date` from strftime and the type of the database.
abbrev pub meta_dump : Metadata → List ℕ → List ℕ → List ℕ
meta_dump meta date database_type =
    newline
    ++ (codes "  Database metadata"
        ++ (newline
            ++ (codes "    Node count:    "
                ++ (format_signed meta.node_count
                    ++ (newline
                        ++ (codes "    Record size:   "
                            ++ (format_signed meta.record_size
                                ++ (codes " bits"
                                    ++ (newline
                                        ++ (codes "    IP version:    IPv"
                                            ++ (format_signed meta.ip_version
                                                ++ (newline
                                                    ++ (codes "    Binary format: "
                                                        ++ (format_signed
                                                            meta.binary_format_major_version
                                                            ++ (codes "."
                                                            ++ (format_signed
                                                            meta.binary_format_minor_version
                                                            ++ (newline
                                                            ++ (codes "    Build epoch:   "
                                                            ++ (format_unsigned meta.build_epoch
                                                            ++ (codes " ("
                                                            ++ (date
                                                            ++ (codes ")"
                                                            ++ (newline
                                                            ++ (codes "    Type:          "
                                                            ++ (database_type
                                                            ++ (newline
                                                            ++ codes
                                                            "    Languages:     "))))))))))))))))))))))))))

unfoldable pub dump_meta : (ℕ → List ℕ) → Mmdb → Console → Run Mmdb
dump_meta strftime m con = elim m.metadata.database_type [
  | none ↦ crashes
  | some database_type ↦ elim (description_lines m.metadata.description) [
    | none ↦ crashes
    | some descriptions ↦ goes_on m (
        out
          (meta_dump m.metadata (strftime m.metadata.build_epoch) database_type
            ++ (language_list m.metadata.languages
                ++ (newline
                    ++ (codes "    Description:" ++ (newline ++ (descriptions ++ newline))))))
          con)
  ]
]

abbrev pub given : Option (List ℕ) → List ℕ
given none = []
given (some text) = text

module _ (machine : Machine) where
  -- From open_or_die on. `ip_address` is NULL only where it is not read.
  unfoldable pub run_options : List (List ℕ) → Option Error → Options → Console → Run ℕ
  run_options lookup_path mmdb_error o con =
      open_or_die machine (given o.mmdb_file) con >>= λ m con1.
      (if o.is_verbose then dump_meta machine.strftime m con1 else goes_on m con1) >>= λ m' con2.
      if o.iterations == 0
      then lookup_and_print machine m' (given o.ip_address) lookup_path mmdb_error con2
      else benchmark machine m' o.iterations mmdb_error con2

  -- main, with the options and the operands that getopt_long leaves. `exit` is given its value.
  unfoldable pub main : List ℕ → List ℕ → List Opt → List (List ℕ) → Option Error → Console → Run ℕ
  main program version opts lookup_path mmdb_error con =
      get_options program version opts con >>= run_options lookup_path mmdb_error >>= λ code con'.
      exits code con'
