-- ===== src/Tests/Loads.antt =====
-- Loading and unloading on small databases, and the theorems on them.
use node_geoip2c.Base.{◌≡◌, ◌≢◌, refl, false, List, [], ◌∷◌, codes}
use node_geoip2c.Tests.{ipv4_db}
use node_geoip2c.Tests.Bindings.{one_system, one_system-OpensBounded}
use node_geoip2c.Tests.Bindings.{opened_from, opened_from-success, mmdb_of}
use node_geoip2c.Binding.Unloaded.{lookup_ip-unload}
use node_geoip2c.Binding.Ready.{IsLawful}
use node_geoip2c.Binding.Reports.{reports, load_db-reports}
use node_geoip2c.Binding.Reachable.{Reachable, lookup_ip-ne-hangs}
use node_geoip2c.Binding.Lawful.{IsBounded, libmaxminddb-Closes, libmaxminddb-IsLawful}
use node_geoip2c.Binding.Load.{load_db, load_keys, load_key, unload}
use node_geoip2c.Binding.Lookup.{argument}
use node_geoip2c.Binding.Completion.{Slot, get_slot, is_open}
use node_geoip2c.Binding.Js.{JsValue, property, no_properties, set_property, get_property}
use node_geoip2c.Binding.Constants
use node_geoip2c.Binding.Lookup.{lookup_ip}
use node_geoip2c.Binding.Libmaxminddb.{libmaxminddb}
use node_geoip2c.Binding.Completion.{Globals, returns, hangs}
use node_geoip2c.Tests.Runs.{one_platform, all_closed, city_open, country_args}

lookup_ip-unload_example :
    lookup_ip one_platform
      (libmaxminddb one_system)
      country_args
      (unload (libmaxminddb one_system) city_open)
    ≡ returns (unload (libmaxminddb one_system) city_open, JsValue.object no_properties)
lookup_ip-unload_example =
    lookup_ip-unload one_platform (libmaxminddb one_system) country_args city_open
      (libmaxminddb-Closes one_system) refl

libmaxminddb-IsLawful_example : IsLawful (libmaxminddb one_system) IsBounded
libmaxminddb-IsLawful_example = libmaxminddb-IsLawful one_system one_system-OpensBounded

abbrev city_loaded : Globals
city_loaded = record all_closed { mmdb_city = mmdb_of (opened_from (codes "f") ipv4_db) }

abbrev load_args : List JsValue
load_args =
    JsValue.object (property Constants.lookup_key_city (JsValue.string (codes "f")) no_properties)
    ∷ []

loads :
    load_db one_platform (libmaxminddb one_system) load_args all_closed
    ≡ returns (
      city_loaded,
      JsValue.object (property Constants.lookup_key_city (JsValue.string []) no_properties),
    )
unfolding load_db load_keys load_key set_property get_property
loads = rw opened_from-success refl

load_db-reports_example :
    ◌≡◌ {A = JsValue}
      (JsValue.object (property Constants.lookup_key_city (JsValue.string []) no_properties))
      (JsValue.object (reports (argument load_args 0)))
load_db-reports_example =
    load_db-reports one_platform (libmaxminddb one_system) load_args all_closed city_loaded
      (JsValue.object (property Constants.lookup_key_city (JsValue.string []) no_properties)) loads

all_closed-closed : (s : Slot) → is_open (get_slot s all_closed) ≡ false
all_closed-closed Slot.country = refl
all_closed-closed Slot.city = refl
all_closed-closed Slot.isp = refl
all_closed-closed Slot.netspeed = refl
all_closed-closed Slot.anonymous = refl

lookup_ip-ne-hangs_example :
    lookup_ip one_platform (libmaxminddb one_system) country_args city_loaded ≢ hangs
lookup_ip-ne-hangs_example =
    lookup_ip-ne-hangs IsBounded one_platform (libmaxminddb one_system)
      (libmaxminddb-IsLawful one_system one_system-OpensBounded) city_loaded country_args
      (Reachable.loaded load_args _ (Reachable.start all_closed-closed) loads)
