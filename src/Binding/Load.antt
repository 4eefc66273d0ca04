-- ===== src/Binding/Load.antt =====
-- loadMMDB, loadDb and unload of src/binding.cpp.
use node_geoip2c.Base.{ℕ, List, [], if◌then◌else◌, codes}
use node_geoip2c.Types.{Outcome, success, failure, fault, stuck, Mmdb}
use node_geoip2c.Binding.Js.{JsValue, Properties, set_property, get_from, is_undefined}
use node_geoip2c.Binding.Constants
use node_geoip2c.Binding.Lookup.{argument}
use node_geoip2c.Binding.Completion.{
  Globals, Slot, get_slot, put_slot, is_open, Library, Platform, Completion, returns, throws,
  crashes, hangs, ◌>>=◌,
}

-- loadMMDB: the `result` that is returned, and the database. On an error the message is made by
-- `result + ...`, whose value is dropped, so `result` is "" on every branch.
abbrev pub load_mmdb : Outcome Mmdb → Completion (List ℕ × Mmdb)
load_mmdb (success m) = returns ([], m)
load_mmdb (failure e m) = returns ([], m)
load_mmdb fault = crashes
load_mmdb stuck = hangs

module _ (env : Platform) (lib : Library) where
  -- One `if` of loadDb, with `db_stats`.
  unfoldable pub load_key :
      Slot → List ℕ → JsValue → Globals × Properties → Completion (Globals × Properties)
  load_key slot key options (g, db_stats) =
      let val = get_from options key in
      if is_undefined val
      then returns (g, db_stats)
      else (load_mmdb (lib.open_database (env.to_utf8 val) (get_slot slot g)) >>= λ loaded.
          returns (put_slot slot loaded.1 g, set_property key (JsValue.string loaded.0) db_stats))

  -- The country's file goes into the city's database.
  unfoldable pub load_keys : JsValue → Globals × Properties → Completion (Globals × Properties)
  load_keys options s =
      load_key Slot.city Constants.lookup_key_country options s
      >>= load_key Slot.city Constants.lookup_key_city options
      >>= load_key Slot.isp Constants.lookup_key_isp options
      >>= load_key Slot.netspeed Constants.lookup_key_netspeed options
      >>= load_key Slot.anonymous Constants.lookup_key_anonymous options

  unfoldable pub load_db : List JsValue → Globals → Completion (Globals × JsValue)
  load_db args g =
      if is_undefined (argument args 0)
      then throws (codes "No database filenames set") g
      else (load_keys (argument args 0) (g, Properties.no_properties) >>= λ s.
          returns (s.0, JsValue.object s.1))

module _ (lib : Library) where
  -- One `if` of unload.
  abbrev pub close_slot : Slot → Globals → Globals
  close_slot slot g =
      if is_open (get_slot slot g) then put_slot slot (lib.close (get_slot slot g)) g else g

  unfoldable pub unload : Globals → Globals
  unload g = close_slot Slot.anonymous (
      close_slot Slot.netspeed
        (close_slot Slot.isp (close_slot Slot.city (close_slot Slot.country g))))
