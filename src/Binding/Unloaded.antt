-- ===== src/Binding/Unloaded.antt =====
-- unload, and a lookup after it.
use node_geoip2c.Base.{ℕ, ◌≡◌, refl, sym, subst, true, false, List, Bool-cases, inl, inr}
use node_geoip2c.Types.{Mmdb}
use node_geoip2c.Binding.Js.{JsValue, no_properties, is_string}
use node_geoip2c.Binding.Lookup.{
  argument, lookup_ip, first_frame, collect_ip_data, blocks, country_block, city_block, isp_block,
  netspeed_block, anonymous_block, block, Frame,
}
use node_geoip2c.Binding.Load.{close_slot, unload}
use node_geoip2c.Binding.Slots.{get_slot-put_slot, same_slot, same_slot_refl}
use node_geoip2c.Binding.Completion.{Globals, Slot, get_slot, is_open, Library, Platform, returns}

-- A closed database has no file name.
pub record Closes (lib : Library) : Type 0 where
  pub close : (m : Mmdb) → is_open (lib.close m) ≡ false

abbrev pub IsClosed : Globals → Type 0
IsClosed g = (s : Slot) → is_open (get_slot s g) ≡ false

module _ (lib : Library) (closes : Closes lib) where
  close_slot-closed : (s : Slot) (g : Globals) → is_open (get_slot s (close_slot lib s g)) ≡ false
  close_slot-closed s g = elim (Bool-cases (is_open (get_slot s g))) [
    | inr closed ↦ rw closed closed
    | inl opened ↦
        let put = get_slot-put_slot s s (lib.close (get_slot s g)) g in
        rw opened (
          subst (λ m. is_open m ≡ false) (sym (rw (same_slot_refl s) at put))
            (closes.close (get_slot s g)))
  ]

  -- What was closed stays closed.
  close_slot-keeps :
      (s t : Slot) (g : Globals)
      → is_open (get_slot t g) ≡ false
      → is_open (get_slot t (close_slot lib s g)) ≡ false
  close_slot-keeps s t g h = elim (Bool-cases (is_open (get_slot s g))) [
    | inr closed ↦ rw closed h
    | inl opened ↦
        let put = get_slot-put_slot s t (lib.close (get_slot s g)) g in
        rw opened (elim (Bool-cases (same_slot s t)) [
          | inl same ↦
              subst (λ m. is_open m ≡ false) (sym (rw same at put)) (closes.close (get_slot s g))
          | inr other ↦ subst (λ m. is_open m ≡ false) (sym (rw other at put)) h
        ])
  ]

  -- The databases behind each `if` of unload.
  abbrev without_country : Globals → Globals
  without_country g = close_slot lib Slot.country g

  abbrev without_city : Globals → Globals
  without_city g = close_slot lib Slot.city (without_country g)

  abbrev without_isp : Globals → Globals
  without_isp g = close_slot lib Slot.isp (without_city g)

  abbrev without_netspeed : Globals → Globals
  without_netspeed g = close_slot lib Slot.netspeed (without_isp g)

  -- After unload no database is open.
  unload-IsClosed : (g : Globals) → IsClosed (unload lib g)
  unfolding unload
  unload-IsClosed g Slot.anonymous = close_slot-closed Slot.anonymous (without_netspeed g)
  unload-IsClosed g Slot.netspeed =
      close_slot-keeps Slot.anonymous Slot.netspeed (without_netspeed g)
        (close_slot-closed Slot.netspeed (without_isp g))
  unload-IsClosed g Slot.isp = close_slot-keeps Slot.anonymous Slot.isp (without_netspeed g) (
      close_slot-keeps Slot.netspeed Slot.isp (without_isp g)
        (close_slot-closed Slot.isp (without_city g)))
  unload-IsClosed g Slot.city = close_slot-keeps Slot.anonymous Slot.city (without_netspeed g) (
      close_slot-keeps Slot.netspeed Slot.city (without_isp g) (
        close_slot-keeps Slot.isp Slot.city (without_city g)
          (close_slot-closed Slot.city (without_country g))))
  unload-IsClosed g Slot.country =
      close_slot-keeps Slot.anonymous Slot.country (without_netspeed g) (
        close_slot-keeps Slot.netspeed Slot.country (without_isp g) (
          close_slot-keeps Slot.isp Slot.country (without_city g) (
            close_slot-keeps Slot.city Slot.country (without_country g)
              (close_slot-closed Slot.country g))))

module _ (env : Platform) (lib : Library) where
  collect_ip_data-closed :
      (ip : List ℕ) (options : JsValue) (f : Frame)
      → IsClosed f.globals
      → collect_ip_data env lib ip options f ≡ returns f
  unfolding collect_ip_data blocks country_block city_block isp_block netspeed_block anonymous_block
      block
  collect_ip_data-closed ip options f closed = rw (closed Slot.city) (
      rw (closed Slot.city)
        (rw (closed Slot.isp) (rw (closed Slot.netspeed) (rw (closed Slot.anonymous) refl))))

  -- Where MMDB_close leaves a database without a file name: after unload, lookupIp on a string
  -- returns an object without properties whatever options it is given, and looks nothing up.
  pub lookup_ip-unload :
      (args : List JsValue) (g : Globals)
      → Closes lib
      → is_string (argument args 0) ≡ true
      → lookup_ip env lib args (unload lib g) ≡ returns (unload lib g, JsValue.object no_properties)
  unfolding lookup_ip
  lookup_ip-unload args g closes text =
      rw
        (
          text,
          collect_ip_data-closed _ _ (first_frame env lib (unload lib g))
              (unload-IsClosed lib closes g),
        )
        refl
