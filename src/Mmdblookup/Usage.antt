-- ===== src/Mmdblookup/Usage.antt =====
-- usage and get_options of libmaxminddb/bin/mmdblookup.c. getopt_long and basename are given.
use node_geoip2c.Base.{
  ℕ, Bool, true, false, ◌&&◌, Option, none, some, List, [], ◌∷◌, ◌++◌, ◌==◌, if◌then◌else◌, codes,
}
use node_geoip2c.Dump.{newline}
use node_geoip2c.Mmdblookup.{
  Console, out, err, Run, goes_on, exits, Opt, Options, no_options, read_options,
}

abbrev pub lines : List (List ℕ) → List ℕ
lines [] = []
lines (text ∷ rest) = text ++ (newline ++ lines rest)

-- The lines of the usage behind the one with the program's name.
abbrev pub usage_lines : List (List ℕ)
usage_lines =
    []
    ∷ codes "  This application accepts the following options:"
    ∷ []
    ∷ codes "      --file (-f)     The path to the MMDB file. Required."
    ∷ []
    ∷ codes "      --ip (-i)       The IP address to look up. Required."
    ∷ []
    ∷ codes "      --verbose (-v)  Turns on verbose output. Specifically, this causes this"
    ∷ codes "                      application to output the database metadata."
    ∷ []
    ∷ codes "      --version       Print the program's version number and exit."
    ∷ []
    ∷ codes "      --help (-h -?)  Show usage information."
    ∷ []
    ∷ codes "  If an IP's data entry resolves to a map or array, you can provide"
    ∷ codes "  a lookup path to only show part of that data."
    ∷ []
    ∷ codes "  For example, given a JSON structure like this:"
    ∷ []
    ∷ codes "    {"
    ∷ codes "        \"names\": {"
    ∷ codes "             \"en\": \"Germany\","
    ∷ codes "             \"de\": \"Deutschland\""
    ∷ codes "        },"
    ∷ codes "        \"cities\": [ \"Berlin\", \"Frankfurt\" ]"
    ∷ codes "    }"
    ∷ []
    ∷ codes "  You could look up just the English name by calling mmdblookup with a lookup path of:"
    ∷ []
    ∷ codes "    mmdblookup --file ... --ip ... names en"
    ∷ []
    ∷ codes "  Or you could look up the second city in the list with:"
    ∷ []
    ∷ codes "    mmdblookup --file ... --ip ... cities 1"
    ∷ []
    ∷ codes "  Array numbering begins with zero (0)."
    ∷ []
    ∷ codes "  If you do not provide a path to lookup, all of the information for a given IP"
    ∷ codes "  will be shown."
    ∷ []

abbrev pub usage_text : List ℕ → List ℕ
usage_text program =
    newline
    ++ (codes "  "
        ++ (program
            ++ (codes " --file /path/to/file.mmdb --ip 1.2.3.4 [path to lookup]"
                ++ (newline ++ lines usage_lines))))

-- usage; `error` is `none` for NULL.
unfoldable pub usage {ℓ} : {A : Type ℓ} → List ℕ → ℕ → Option (List ℕ) → Console → Run A
usage program exit_code none con = exits exit_code (out (usage_text program) con)
usage program exit_code (some error) con =
    exits exit_code
      (out (usage_text program) (err (newline ++ (codes "  *ERROR: " ++ (error ++ newline))) con))

abbrev is_none {ℓ} : {A : Type ℓ} → Option A → Bool
is_none none = true
is_none (some a) = false

-- get_options from the options that getopt_long gives; `version` is VERSION.
unfoldable pub get_options : List ℕ → List ℕ → List Opt → Console → Run Options
get_options program version opts con =
    let o = read_options opts no_options in
    if o.wants_help
    then usage program 0 none con
    else if o.wants_version
    then exits 0 (
        out
          (newline
            ++ (codes "  "
                ++ (program ++ (codes " version " ++ (version ++ (newline ++ newline))))))
          con)
    else if is_none o.mmdb_file
    then usage program 1 (some (codes "You must provide a filename with --file")) con
    else if is_none o.ip_address && (o.iterations == 0)
    then usage program 1 (some (codes "You must provide an IP address with --ip")) con
    else goes_on o con
