-- ===== src/Binding/Constants.antt =====
-- The masks, labels and keys of src/binding.cpp.
use node_geoip2c.Base.{ℕ, ◌-◌, ◌^◌, List, codes}

-- `const unsigned int ... = -1`
abbrev pub all_bits : ℕ
all_bits = 2 ^ 32 - 1

abbrev pub t_country_code : ℕ
t_country_code = 1

abbrev pub t_country_continent : ℕ
t_country_continent = 2

abbrev pub t_country_name : ℕ
t_country_name = 4

abbrev pub t_country_registred : ℕ
t_country_registred = 8

abbrev pub t_country_all : ℕ
t_country_all = all_bits

abbrev pub label_country_code : List ℕ
label_country_code = codes "countryCode"

abbrev pub label_country_continent : List ℕ
label_country_continent = codes "countryContinent"

abbrev pub label_country_name : List ℕ
label_country_name = codes "countryName"

abbrev pub label_country_registred : List ℕ
label_country_registred = codes "countryRegistred"

abbrev pub t_city_zip : ℕ
t_city_zip = 1

abbrev pub t_city_name : ℕ
t_city_name = 2

abbrev pub t_city_tz : ℕ
t_city_tz = 4

abbrev pub t_city_region : ℕ
t_city_region = 8

abbrev pub t_city_metro : ℕ
t_city_metro = 16

abbrev pub t_city_lat : ℕ
t_city_lat = 32

abbrev pub t_city_lon : ℕ
t_city_lon = 64

abbrev pub t_city_all : ℕ
t_city_all = all_bits

abbrev pub label_city_zip : List ℕ
label_city_zip = codes "cityZip"

abbrev pub label_city_name : List ℕ
label_city_name = codes "cityName"

abbrev pub label_city_tz : List ℕ
label_city_tz = codes "cityTimeZone"

abbrev pub label_city_region : List ℕ
label_city_region = codes "cityRegion"

abbrev pub label_city_metro : List ℕ
label_city_metro = codes "cityMetro"

abbrev pub label_city_lat : List ℕ
label_city_lat = codes "cityLatitude"

abbrev pub label_city_lon : List ℕ
label_city_lon = codes "cityLongitude"

abbrev pub t_isp_code : ℕ
t_isp_code = 1

abbrev pub t_isp_name : ℕ
t_isp_name = 2

abbrev pub t_isp_norganization : ℕ
t_isp_norganization = 4

abbrev pub t_isp_corganization : ℕ
t_isp_corganization = 8

abbrev pub t_isp_all : ℕ
t_isp_all = all_bits

abbrev pub label_isp_code : List ℕ
label_isp_code = codes "ispCode"

abbrev pub label_isp_name : List ℕ
label_isp_name = codes "ispName"

abbrev pub label_isp_corganization : List ℕ
label_isp_corganization = codes "ispCodeOrganization"

abbrev pub label_isp_norganization : List ℕ
label_isp_norganization = codes "ispNameOrganization"

abbrev pub t_anym_is_anonymous : ℕ
t_anym_is_anonymous = 1

abbrev pub t_anym_is_pubproxy : ℕ
t_anym_is_pubproxy = 2

abbrev pub t_anym_is_anonymous_vpn : ℕ
t_anym_is_anonymous_vpn = 4

abbrev pub t_anym_is_hosting_provider : ℕ
t_anym_is_hosting_provider = 8

abbrev pub t_anym_is_tor_exit_node : ℕ
t_anym_is_tor_exit_node = 16

abbrev pub t_anym_all : ℕ
t_anym_all = all_bits

abbrev pub label_anym_is_anonymous : List ℕ
label_anym_is_anonymous = codes "is_anonymous"

abbrev pub label_anym_is_pubproxy : List ℕ
label_anym_is_pubproxy = codes "is_public_proxy"

abbrev pub label_anym_is_vpn : List ℕ
label_anym_is_vpn = codes "is_anonymous_vpn"

abbrev pub label_anym_is_hosting : List ℕ
label_anym_is_hosting = codes "is_hosting_provider"

abbrev pub label_anym_is_tor : List ℕ
label_anym_is_tor = codes "is_tor_exit_node"

abbrev pub t_netspeed_type : ℕ
t_netspeed_type = 1

abbrev pub t_netspeed_all : ℕ
t_netspeed_all = all_bits

abbrev pub label_netspeed_type : List ℕ
label_netspeed_type = codes "connection_type"

abbrev pub lookup_key_country : List ℕ
lookup_key_country = codes "country"

abbrev pub lookup_key_city : List ℕ
lookup_key_city = codes "city"

abbrev pub lookup_key_isp : List ℕ
lookup_key_isp = codes "isp"

abbrev pub lookup_key_netspeed : List ℕ
lookup_key_netspeed = codes "netspeed"

abbrev pub lookup_key_anonymous : List ℕ
lookup_key_anonymous = codes "anonymous"
