-- ===== src/Mmdblookup.antt =====
-- The command mmdblookup: libmaxminddb/bin/mmdblookup.c, from the options that getopt_long gives to
-- the exit status and what is printed.
--
-- What is given back just before the process ends (MMDB_close, MMDB_free_entry_data_list, free) is
-- not seen any more and is left out.
pub mod Usage
pub mod Lookups
pub mod Main
pub mod Endings
pub mod Streams
pub mod Shown
use node_geoip2c.Base.{
  ℕ, zero, suc, ◌+◌, ◌-◌, ◌/◌, ◌%◌, ◌^◌, Bool, true, false, ◌&&◌, ◌||◌, not, Option, none, some,
  List, [], ◌∷◌, ◌++◌, ◌==◌, if◌then◌else◌, length, codes, u32,
}
use node_geoip2c.Types.{
  Error, Outcome, success, failure, fault, stuck, EntryData, Mmdb, Metadata, Description,
  LookupResult,
}
use node_geoip2c.Path.{aget_value}
use node_geoip2c.Lookup.{StringAnswer, lookup_string}
use node_geoip2c.EntryList.{EntryDataList, get_entry_data_list}
use node_geoip2c.Strtol.{strtol, int_bits}
use node_geoip2c.Strerror.{strerror}
use node_geoip2c.Close.{open_database}
use node_geoip2c.Dump.{Printer, newline, format_signed, format_unsigned, dump_entry_data_list}
use node_geoip2c.Binding.Libmaxminddb.{System}

-- What is written to the two streams.
pub record Console : Type 0 where
  pub stdout : List ℕ
  pub stderr : List ℕ

abbrev pub out : List ℕ → Console → Console
out text con = record con { stdout = con.stdout ++ text }

abbrev pub err : List ℕ → Console → Console
err text con = record con { stderr = con.stderr ++ text }

-- A function goes on with a value, or ends the process with an exit status. `crashes` is a read that
-- C leaves undefined; `hangs` is no end, the model ran out of fuel.
pub data Run {ℓ} (A : Type ℓ) : Type ℓ where
  goes_on : A → Console → Run A
  exits : ℕ → Console → Run A
  crashes : Run A
  hangs : Run A

infixl 5 ◌>>=◌
abbrev pub ◌>>=◌ {ℓ κ} : {A : Type ℓ} {B : Type κ} → Run A → (A → Console → Run B) → Run B
goes_on a con >>= k = k a con
exits code con >>= k = exits code con
crashes >>= k = crashes
hangs >>= k = hangs

-- The system under the program: libmaxminddb's, printf, gai_strerror, strerror(errno), strftime of a
-- time, the numbers of rand, the text of the timing, and what the local MMDB_s holds.
pub record Machine : Type 0 where
  pub system : System
  pub printer : Printer
  pub gai_strerror : ℕ → List ℕ
  pub errno_message : List ℕ
  pub strftime : ℕ → List ℕ
  pub rand : ℕ → ℕ
  pub timing : ℕ → List ℕ
  pub stale_mmdb : Mmdb
  pub list_fuel : ℕ

-- One option as getopt_long gives it, with its argument.
pub data Opt : Type 0 where
  file ip benchmark : List ℕ → Opt
  verbose version help : Opt

-- The variables that get_options fills.
pub record Options : Type 0 where
  pub mmdb_file : Option (List ℕ)
  pub ip_address : Option (List ℕ)
  pub is_verbose : Bool
  pub wants_version : Bool
  pub wants_help : Bool
  pub iterations : ℕ

abbrev pub no_options : Options
no_options = record {
  mmdb_file = none;
  ip_address = none;
  is_verbose = false;
  wants_version = false;
  wants_help = false;
  iterations = 0;
}

-- One round of the `while (1)` of get_options.
abbrev pub with_opt : Opt → Options → Options
with_opt (Opt.file optarg) o = record o { mmdb_file = some optarg }
with_opt (Opt.ip optarg) o = record o { ip_address = some optarg }
with_opt (Opt.benchmark optarg) o = record o { iterations = int_bits (strtol optarg) }
with_opt Opt.verbose o = record o { is_verbose = true }
with_opt Opt.version o = record o { wants_version = true }
with_opt Opt.help o = record o { wants_help = true }

unfoldable pub read_options : List Opt → Options → Options
read_options [] o = o
read_options (opt ∷ opts) o = read_options opts (with_opt opt o)
