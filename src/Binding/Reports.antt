-- ===== src/Binding/Reports.antt =====
-- The statuses that loadDb returns.
use node_geoip2c.Base.{ℕ, ◌≡◌, ap, ◌∙◌, List, [], if◌then◌else◌, Bool-cases, inl, inr}
use node_geoip2c.Types.{Outcome, success, failure, fault, stuck, Mmdb}
use node_geoip2c.Binding.Js.{
  JsValue, Properties, no_properties, set_property, get_from, is_undefined,
}
use node_geoip2c.Binding.Constants
use node_geoip2c.Binding.Lookup.{argument}
use node_geoip2c.Binding.Load.{load_mmdb, load_key, load_keys, load_db}
use node_geoip2c.Binding.Collected.{>>=-eq-returns}
use node_geoip2c.Binding.Completion.{Globals, Slot, get_slot, Library, Platform, returns}

-- "" for a key that is asked for.
abbrev pub report : JsValue → List ℕ → Properties → Properties
report options key o =
    if is_undefined (get_from options key) then o else set_property key (JsValue.string []) o

abbrev pub reports : JsValue → Properties
reports options = report options Constants.lookup_key_anonymous (
    report options Constants.lookup_key_netspeed (
      report options Constants.lookup_key_isp (
        report options Constants.lookup_key_city
          (report options Constants.lookup_key_country no_properties))))

load_mmdb-status :
    (r : Outcome Mmdb) (status : List ℕ) (m : Mmdb)
    → load_mmdb r ≡ returns (status, m)
    → status ≡ []
load_mmdb-status (success a) status m h = cc
load_mmdb-status (failure e a) status m h = cc
load_mmdb-status fault status m h = cc
load_mmdb-status stuck status m h = cc

returned : {a b : Globals × Properties} → returns a ≡ returns b → b.1 ≡ a.1
returned h = cc

module _ (env : Platform) (lib : Library) (options : JsValue) where
  load_key-report :
      (slot : Slot) (key : List ℕ) (s s' : Globals × Properties)
      → load_key env lib slot key options s ≡ returns s'
      → s'.1 ≡ report options key s.1
  unfolding load_key
  load_key-report slot key (g, stats) s' h =
      elim (Bool-cases (is_undefined (get_from options key))) [
        | inl absent ↦ rw absent (returned (rw absent at h))
        | inr present ↦
            let opened = lib.open_database (env.to_utf8 (get_from options key)) (get_slot slot g) in
            let (loaded, status, r) = >>=-eq-returns (load_mmdb opened) _ (rw present at h) in
            let empty = load_mmdb-status opened loaded.0 loaded.1 status in
            rw present (returned r ∙ ap (λ x. set_property key (JsValue.string x) stats) empty)
      ]

  load_keys-reports :
      (g : Globals) (s : Globals × Properties)
      → load_keys env lib options (g, no_properties) ≡ returns s
      → s.1 ≡ reports options
  unfolding load_keys
  load_keys-reports g s5 h =
      let (s4, r4, h5) =
        >>=-eq-returns _ (load_key env lib Slot.anonymous Constants.lookup_key_anonymous options)
          h in
      let (s3, r3, h4) =
        >>=-eq-returns _ (load_key env lib Slot.netspeed Constants.lookup_key_netspeed options)
          r4 in
      let (s2, r2, h3) =
        >>=-eq-returns _ (load_key env lib Slot.isp Constants.lookup_key_isp options) r3 in
      let (s1, h1, h2) =
        >>=-eq-returns _ (load_key env lib Slot.city Constants.lookup_key_city options) r2 in
      let e1 = load_key-report Slot.city Constants.lookup_key_country (g, no_properties) s1 h1 in
      let e2 = load_key-report Slot.city Constants.lookup_key_city s1 s2 h2 in
      let e3 = load_key-report Slot.isp Constants.lookup_key_isp s2 s3 h3 in
      let e4 = load_key-report Slot.netspeed Constants.lookup_key_netspeed s3 s4 h4 in
      let e5 = load_key-report Slot.anonymous Constants.lookup_key_anonymous s4 s5 h5 in
      e5
      ∙ ap (report options Constants.lookup_key_anonymous) (
          e4
          ∙ ap (report options Constants.lookup_key_netspeed) (
              e3
              ∙ ap (report options Constants.lookup_key_isp)
                  (e2 ∙ ap (report options Constants.lookup_key_city) e1)))

module _ (env : Platform) (lib : Library) where
  -- Whatever MMDB_open returns for the files, loadDb reports "" for each key that its argument has,
  -- and nothing else, where it returns: a failure to open a database is not seen in the result.
  pub load_db-reports :
      (args : List JsValue) (g g' : Globals) (db_stats : JsValue)
      → load_db env lib args g ≡ returns (g', db_stats)
      → db_stats ≡ JsValue.object (reports (argument args 0))
  unfolding load_db
  load_db-reports args g g' db_stats h = elim (Bool-cases (is_undefined (argument args 0))) [
    | inl absent ↦ let bad = rw absent at h in cc
    | inr present ↦
        let (s, keys, r) =
          >>=-eq-returns (load_keys env lib (argument args 0) (g, no_properties)) _
            (rw present at h) in
        stats_of r ∙ ap JsValue.object (load_keys-reports env lib (argument args 0) g s keys)
  ]
    where
      stats_of : {a b : Globals × JsValue} → returns a ≡ returns b → b.1 ≡ a.1
      stats_of h = cc
