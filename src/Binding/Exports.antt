-- ===== src/Binding/Exports.antt =====
-- init of src/binding.cpp: what the module exports.
use node_geoip2c.Base.{ℕ, List, [], ◌∷◌, codes}
use node_geoip2c.Binding.Js.{JsValue, Properties, set_property}
use node_geoip2c.Binding.Constants

-- `exports->Set(name, value)` for each pair, in order.
unfoldable pub set_properties : List (List ℕ × JsValue) → Properties → Properties
set_properties [] o = o
set_properties ((name, value) ∷ rest) o = set_properties rest (set_property name value o)

abbrev pub exported_functions : List (List ℕ × JsValue)
exported_functions =
    (codes "load", JsValue.function (codes "loadDb"))
    ∷ (codes "lookupIp", JsValue.function (codes "lookupIp"))
    ∷ (codes "unload", JsValue.function (codes "unload"))
    ∷ []

abbrev pub exported_keys : List (List ℕ × JsValue)
exported_keys =
    (codes "LOOKUP_KEY_COUNTRY", JsValue.string Constants.lookup_key_country)
    ∷ (codes "LOOKUP_KEY_CITY", JsValue.string Constants.lookup_key_city)
    ∷ (codes "LOOKUP_KEY_ISP", JsValue.string Constants.lookup_key_isp)
    ∷ (codes "LOOKUP_KEY_NETSPEED", JsValue.string Constants.lookup_key_netspeed)
    ∷ (codes "LOOKUP_KEY_ANONYMOUS", JsValue.string Constants.lookup_key_anonymous)
    ∷ []

abbrev pub exported_labels : List (List ℕ × JsValue)
exported_labels =
    (codes "LABEL_COUNTRY_NAME", JsValue.string Constants.label_country_name)
    ∷ (codes "LABEL_COUNTRY_CODE", JsValue.string Constants.label_country_code)
    ∷ (codes "LABEL_COUNTRY_CONTINENT", JsValue.string Constants.label_country_continent)
    ∷ (codes "LABEL_COUNTRY_REGISTRED", JsValue.string Constants.label_country_registred)
    ∷ (codes "LABEL_CITY_ZIP", JsValue.string Constants.label_city_zip)
    ∷ (codes "LABEL_CITY_NAME", JsValue.string Constants.label_city_name)
    ∷ (codes "LABEL_CITY_TZ", JsValue.string Constants.label_city_tz)
    ∷ (codes "LABEL_CITY_REGION", JsValue.string Constants.label_city_region)
    ∷ (codes "LABEL_CITY_METRO", JsValue.string Constants.label_city_metro)
    ∷ (codes "LABEL_CITY_LAT", JsValue.string Constants.label_city_lat)
    ∷ (codes "LABEL_CITY_LON", JsValue.string Constants.label_city_lon)
    ∷ (codes "LABEL_ISP_CODE", JsValue.string Constants.label_isp_code)
    ∷ (codes "LABEL_ISP_NAME", JsValue.string Constants.label_isp_name)
    ∷ (codes "LABEL_ISP_NORGANIZATION", JsValue.string Constants.label_isp_norganization)
    ∷ (codes "LABEL_ISP_CORGANIZATION", JsValue.string Constants.label_isp_corganization)
    ∷ (codes "LABEL_ANYM_IS_ANONYMOUS", JsValue.string Constants.label_anym_is_anonymous)
    ∷ (codes "LABEL_ANYM_IS_PUBPROXY", JsValue.string Constants.label_anym_is_pubproxy)
    ∷ (codes "LABEL_ANYM_IS_VPN", JsValue.string Constants.label_anym_is_vpn)
    ∷ (codes "LABEL_ANYM_IS_HOSTING", JsValue.string Constants.label_anym_is_hosting)
    ∷ (codes "LABEL_ANYM_IS_TOR", JsValue.string Constants.label_anym_is_tor)
    ∷ (codes "LABEL_NETSPEED_TYPE", JsValue.string Constants.label_netspeed_type)
    ∷ []

abbrev pub exported_masks : List (List ℕ × JsValue)
exported_masks =
    (codes "T_COUNTRY_CODE", JsValue.number Constants.t_country_code)
    ∷ (codes "T_COUNTRY_CONTINENT", JsValue.number Constants.t_country_continent)
    ∷ (codes "T_COUNTRY_NAME", JsValue.number Constants.t_country_name)
    ∷ (codes "T_COUNTRY_REGISTRED", JsValue.number Constants.t_country_registred)
    ∷ (codes "T_COUNTRY_ALL", JsValue.number Constants.t_country_all)
    ∷ (codes "T_CITY_ZIP", JsValue.number Constants.t_city_zip)
    ∷ (codes "T_CITY_NAME", JsValue.number Constants.t_city_name)
    ∷ (codes "T_CITY_TZ", JsValue.number Constants.t_city_tz)
    ∷ (codes "T_CITY_ALL", JsValue.number Constants.t_city_all)
    ∷ (codes "T_ISP_CODE", JsValue.number Constants.t_isp_code)
    ∷ (codes "T_ISP_NAME", JsValue.number Constants.t_isp_name)
    ∷ (codes "T_ISP_CORGANIZATION", JsValue.number Constants.t_isp_corganization)
    ∷ (codes "T_ISP_NORGANIZATION", JsValue.number Constants.t_isp_norganization)
    ∷ (codes "T_ISP_ALL", JsValue.number Constants.t_isp_all)
    ∷ (codes "T_NETSPEED_TYPE", JsValue.number Constants.t_netspeed_type)
    ∷ (codes "T_NETSPEED_ALL", JsValue.number Constants.t_netspeed_all)
    ∷ (codes "T_ANYM_IS_ANONYMOUS", JsValue.number Constants.t_anym_is_anonymous_vpn)
    ∷ (codes "T_ANYM_IS_PUBPROXY", JsValue.number Constants.t_anym_is_pubproxy)
    ∷ (codes "T_ANYM_IS_PUBPROXY", JsValue.number Constants.t_anym_is_anonymous_vpn)
    ∷ (codes "T_ANYM_IS_HOSTING_PROVIDER", JsValue.number Constants.t_anym_is_hosting_provider)
    ∷ (codes "T_ANYM_IS_TOR_EXIT_NODE", JsValue.number Constants.t_anym_is_tor_exit_node)
    ∷ (codes "T_ANYM_ALL", JsValue.number Constants.t_anym_all)
    ∷ []

unfoldable pub init : Properties → Properties
init exports = set_properties exported_masks (
    set_properties exported_labels
      (set_properties exported_keys (set_properties exported_functions exports)))
