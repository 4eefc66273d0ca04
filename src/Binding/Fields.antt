-- ===== src/Binding/Fields.antt =====
-- The fields of each kind of database in lookupIp of src/binding.cpp.
use Prim.Native.Nat.{bit_and}
use node_geoip2c.Base.{ℕ, Bool, not, List, [], ◌∷◌, ◌==◌, codes}
use node_geoip2c.Binding.Js.{JsValue}
use node_geoip2c.Binding.Constants

abbrev pub default_val : JsValue
default_val = JsValue.string (codes "NA")

-- Which of the macros sets a field.
pub data Member : Type 0 where
  utf8_string uint16 boolean double_value : Member

-- One `if` of lookupIp: the bit of the mask, the path to the value, the label and the macro.
pub record Field : Type 0 where
  pub mask : ℕ
  pub path : List (List ℕ)
  pub label : List ℕ
  pub member : Member

-- `t & mask`
abbrev pub is_set : ℕ → ℕ → Bool
is_set t mask = not (bit_and t mask == 0)

abbrev pub country_fields : List Field
country_fields =
    record {
      mask = Constants.t_country_code;
      path = codes "country" ∷ codes "iso_code" ∷ [];
      label = Constants.label_country_code;
      member = Member.utf8_string;
    }
    ∷ record {
      mask = Constants.t_country_name;
      path = codes "country" ∷ codes "names" ∷ codes "en" ∷ [];
      label = Constants.label_country_name;
      member = Member.utf8_string;
    }
    ∷ record {
      mask = Constants.t_country_continent;
      path = codes "continent" ∷ codes "names" ∷ codes "en" ∷ [];
      label = Constants.label_country_continent;
      member = Member.utf8_string;
    }
    ∷ record {
      mask = Constants.t_country_registred;
      path = codes "registered_country" ∷ codes "names" ∷ codes "en" ∷ [];
      label = Constants.label_country_registred;
      member = Member.utf8_string;
    }
    ∷ []

abbrev pub city_fields : List Field
city_fields =
    record {
      mask = Constants.t_city_zip;
      path = codes "postal" ∷ codes "code" ∷ [];
      label = Constants.label_city_zip;
      member = Member.utf8_string;
    }
    ∷ record {
      mask = Constants.t_city_name;
      path = codes "city" ∷ codes "names" ∷ codes "en" ∷ [];
      label = Constants.label_city_name;
      member = Member.utf8_string;
    }
    ∷ record {
      mask = Constants.t_city_tz;
      path = codes "location" ∷ codes "time_zone" ∷ [];
      label = Constants.label_city_tz;
      member = Member.utf8_string;
    }
    ∷ record {
      mask = Constants.t_city_region;
      path = codes "subdivisions" ∷ codes "0" ∷ codes "iso_code" ∷ [];
      label = Constants.label_city_region;
      member = Member.utf8_string;
    }
    ∷ record {
      mask = Constants.t_city_metro;
      path = codes "location" ∷ codes "metro_code" ∷ [];
      label = Constants.label_city_metro;
      member = Member.uint16;
    }
    ∷ record {
      mask = Constants.t_city_lat;
      path = codes "location" ∷ codes "latitude" ∷ [];
      label = Constants.label_city_lat;
      member = Member.double_value;
    }
    ∷ record {
      mask = Constants.t_city_lon;
      path = codes "location" ∷ codes "longitude" ∷ [];
      label = Constants.label_city_lon;
      member = Member.double_value;
    }
    ∷ []

abbrev pub isp_fields : List Field
isp_fields =
    record {
      mask = Constants.t_isp_code;
      path = codes "autonomous_system_number" ∷ [];
      label = Constants.label_isp_code;
      member = Member.uint16;
    }
    ∷ record {
      mask = Constants.t_isp_name;
      path = codes "isp" ∷ [];
      label = Constants.label_isp_name;
      member = Member.utf8_string;
    }
    ∷ record {
      mask = Constants.t_isp_norganization;
      path = codes "organization" ∷ [];
      label = Constants.label_isp_norganization;
      member = Member.utf8_string;
    }
    ∷ record {
      mask = Constants.t_isp_corganization;
      path = codes "autonomous_system_organization" ∷ [];
      label = Constants.label_isp_corganization;
      member = Member.utf8_string;
    }
    ∷ []

abbrev pub netspeed_fields : List Field
netspeed_fields =
    record {
      mask = Constants.t_netspeed_type;
      path = codes "connection_type" ∷ [];
      label = Constants.label_netspeed_type;
      member = Member.utf8_string;
    }
    ∷ []

-- Every field of the anonymous database is a boolean one level down.
abbrev pub anonymous_field : ℕ → List ℕ → List ℕ → Field
anonymous_field mask key label = record {
  mask = mask;
  path = key ∷ [];
  label = label;
  member = Member.boolean;
}

abbrev pub anonymous_fields : List Field
anonymous_fields =
    anonymous_field Constants.t_anym_is_anonymous (codes "is_anonymous")
      Constants.label_anym_is_anonymous
    ∷ anonymous_field Constants.t_anym_is_pubproxy (codes "is_public_proxy")
        Constants.label_anym_is_pubproxy
    ∷ anonymous_field Constants.t_anym_is_anonymous_vpn (codes "is_anonymous_vpn")
        Constants.label_anym_is_vpn
    ∷ anonymous_field Constants.t_anym_is_hosting_provider (codes "is_hosting_provider")
        Constants.label_anym_is_hosting
    ∷ anonymous_field Constants.t_anym_is_tor_exit_node (codes "is_tor_exit_node")
        Constants.label_anym_is_tor
    ∷ []
