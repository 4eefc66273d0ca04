-- ===== src/Binding/Shared.antt =====
-- The blocks of lookupIp behind the lookup in the city's database.
use node_geoip2c.Base.{ℕ, ◌≡◌, refl, sym, ◌∙◌, subst, true, false, List, bytes_eq}
use node_geoip2c.Types.{LookupResult}
use node_geoip2c.Binding.Js.{JsValue, get_from, get_property, is_undefined}
use node_geoip2c.Binding.Constants
use node_geoip2c.Binding.Fields.{
  Field, country_fields, city_fields, isp_fields, netspeed_fields, anonymous_fields,
}
use node_geoip2c.Binding.Collected.{>>=-eq-returns}
use node_geoip2c.Binding.Lookup.{
  blocks, country_block, city_block, isp_block, netspeed_block, anonymous_block, Frame,
}
use node_geoip2c.Binding.Completion.{Globals, Slot, is_open, Library, Platform, returns}
use node_geoip2c.Binding.Located.{
  HasFields, block-keeps, shared_block, shared_block-keeps, shared_block-HasFields,
}

-- The two kinds of data that come from the city's database.
pub data IsShared : List ℕ → List Field → Type 0 where
  country : IsShared Constants.lookup_key_country country_fields
  city : IsShared Constants.lookup_key_city city_fields

module _ (env : Platform) (lib : Library) (options : JsValue) (ip : List ℕ) where
  -- The blocks set the property of a shared kind of data, and keep it.
  pub blocks-HasFields :
      {key : List ℕ} {fields : List Field} (f f' : Frame)
      → IsShared key fields
      → is_open f.globals.mmdb_city ≡ true
      → is_undefined (get_from options key) ≡ false
      → blocks env lib ip options f ≡ returns f'
      → HasFields env lib
          (get_from options key)
          f.globals
          f.mmdb_result.offset
          fields
          (get_property key f'.ip_data)
  unfolding blocks country_block city_block isp_block netspeed_block anonymous_block
  blocks-HasFields {key} {fields} f f5 shared opened asked h =
      let (f4, r4, h5) = >>=-eq-returns _ (anonymous_block env lib ip options) h in
      let (f3, r3, h4) = >>=-eq-returns _ (netspeed_block env lib ip options) r4 in
      let (f2, r2, h3) = >>=-eq-returns _ (isp_block env lib ip options) r3 in
      let (f1, h1, h2) = >>=-eq-returns _ (city_block env lib options) r2 in
      subst (HasFields env lib (get_from options key) f.globals f.mmdb_result.offset fields)
        (sym (
          block-keeps env lib Slot.anonymous Constants.lookup_key_anonymous key anonymous_fields ip
            options f4 f5 (other_key shared).2 h5
          ∙ block-keeps env lib Slot.netspeed Constants.lookup_key_netspeed key netspeed_fields ip
              options f3 f4 (other_key shared).1 h4
          ∙ block-keeps env lib Slot.isp Constants.lookup_key_isp key isp_fields ip options f2 f3
              (other_key shared).0 h3))
        (both shared asked f1 f2 h1 h2)
    where
      other_key :
          {key : List ℕ} {fields : List Field}
          → IsShared key fields
          → (bytes_eq Constants.lookup_key_isp key ≡ false)
            × (bytes_eq Constants.lookup_key_netspeed key ≡ false)
            × (bytes_eq Constants.lookup_key_anonymous key ≡ false)
      other_key IsShared.country = (refl, refl, refl)
      other_key IsShared.city = (refl, refl, refl)

      both :
          {key : List ℕ} {fields : List Field}
          → IsShared key fields
          → is_undefined (get_from options key) ≡ false
          → (f1 f2 : Frame)
          → shared_block env lib Constants.lookup_key_country country_fields options f ≡ returns f1
          → shared_block env lib Constants.lookup_key_city city_fields options f1 ≡ returns f2
          → HasFields env lib
              (get_from options key)
              f.globals
              f.mmdb_result.offset
              fields
              (get_property key f2.ip_data)
      both IsShared.country asked f1 f2 h1 h2 =
          let (kept, _, _) =
            shared_block-keeps env lib Constants.lookup_key_city Constants.lookup_key_country
              city_fields options f1 f2 refl h2 in
          subst
            (HasFields env lib (get_from options Constants.lookup_key_country) f.globals
              f.mmdb_result.offset country_fields)
            (sym kept)
            (shared_block-HasFields env lib Constants.lookup_key_country country_fields options f f1
              refl opened asked h1)
      both IsShared.city asked f1 f2 h1 h2 =
          let (_, globals, result) =
            shared_block-keeps env lib Constants.lookup_key_country Constants.lookup_key_city
              country_fields options f f1 refl h1 in
          let shown =
            shared_block-HasFields env lib Constants.lookup_key_city city_fields options f1 f2 refl
              (subst (λ (x : Globals). is_open x.mmdb_city ≡ true) (sym globals) opened) asked h2 in
          subst
            (λ (x : Globals).
              HasFields env lib (get_from options Constants.lookup_key_city) x f.mmdb_result.offset
                city_fields (get_property Constants.lookup_key_city f2.ip_data))
            globals
            (subst
              (λ (x : LookupResult).
                HasFields env lib (get_from options Constants.lookup_key_city) f1.globals x.offset
                  city_fields (get_property Constants.lookup_key_city f2.ip_data))
              result shown)
