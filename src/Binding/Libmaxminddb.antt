-- ===== src/Binding/Libmaxminddb.antt =====
-- libmaxminddb as the binding of src/binding.cpp calls it: the modelled functions, with MMDB_open in
-- the mode MMDB_MODE_MMAP.
use node_geoip2c.Base.{ℕ, Bool, List}
use node_geoip2c.Types.{EntryData}
use node_geoip2c.Lookup.{Hints, Resolved, lookup_string}
use node_geoip2c.Path.{get_value}
use node_geoip2c.Open.{Mapping}
use node_geoip2c.Close.{open_database, close}
use node_geoip2c.Types.{Value}
use node_geoip2c.Binding.Completion.{Library}

-- What the library stands on: the files, the allocator, getaddrinfo, the bytes of a union, what
-- uninitialised structs hold, and the fuel for the metadata.
pub record System : Type 0 where
  pub os : List ℕ → Mapping
  pub granted : ℕ → Bool
  pub malloc : ℕ → Bool
  pub getaddrinfo : List ℕ → Hints → Resolved
  pub word : Value → ℕ
  pub uninitialised : EntryData
  pub fuel : ℕ

abbrev pub libmaxminddb : System → Library
libmaxminddb system = record {
  open_database = λ filename m.
      open_database system.os system.word system.granted system.uninitialised system.fuel filename 1
        m;
  lookup_string = λ m ipstr mmdb_error. lookup_string system.getaddrinfo m ipstr mmdb_error;
  get_value = λ m offset entry_data path.
      get_value system.malloc system.uninitialised m offset entry_data path;
  close = close;
}
