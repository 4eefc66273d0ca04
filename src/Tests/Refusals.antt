-- ===== src/Tests/Refusals.antt =====
-- An address that lookupIp refuses.
use node_geoip2c.Base.{◌≡◌, refl, List, [], ◌∷◌, codes}
use node_geoip2c.Types.{Error}
use node_geoip2c.Lookup.{resolve_any_address, has_colon, lookup_sockaddr, lookup_string}
use node_geoip2c.Tests.Bindings.{one_system}
use node_geoip2c.Tests.Runs.{one_platform, city_open}
use node_geoip2c.Binding.Js.{JsValue, get_property, set_property}
use node_geoip2c.Binding.Lookup.{
  lookup_message, default_lookup_options, lookup_ip, collect_ip_data, checked_lookup, check_answer,
}
use node_geoip2c.Binding.Libmaxminddb.{libmaxminddb}
use node_geoip2c.Binding.Completion.{throws}
use node_geoip2c.Binding.Explained.{Explains}
use node_geoip2c.Binding.Thrown.{lookup_ip-Explains}

-- The database of the city has no tree for IPv6.
abbrev ipv6_args : List JsValue
ipv6_args = JsValue.string (codes "::1") ∷ []

refuses :
    lookup_ip one_platform (libmaxminddb one_system) ipv6_args city_open
    ≡ throws (lookup_message Error.ipv6_lookup_in_ipv4_database) city_open
unfolding lookup_ip collect_ip_data checked_lookup check_answer get_property set_property
    resolve_any_address has_colon lookup_sockaddr lookup_string default_lookup_options
refuses = refl

lookup_ip-Explains_example :
    Explains one_platform
      (libmaxminddb one_system)
      ipv6_args
      (lookup_message Error.ipv6_lookup_in_ipv4_database)
lookup_ip-Explains_example =
    lookup_ip-Explains one_platform (libmaxminddb one_system) ipv6_args city_open city_open
      (lookup_message Error.ipv6_lookup_in_ipv4_database) refuses
