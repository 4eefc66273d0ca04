-- ===== src/Binding/Reachable.antt =====
-- The states of the process: the databases after any sequence of calls of load, lookupIp and unload.
use node_geoip2c.Base.{ℕ, ◌≡◌, ◌≢◌, subst, false, List, inl}
use node_geoip2c.Types.{Mmdb}
use node_geoip2c.Binding.Js.{JsValue}
use node_geoip2c.Binding.Ready.{IsLawful, AllReady, Good}
use node_geoip2c.Binding.Lookup.{lookup_ip}
use node_geoip2c.Binding.Load.{load_db, unload}
use node_geoip2c.Binding.Completion.{
  Globals, Slot, get_slot, is_open, Library, Platform, Completion, returns, throws, hangs,
}
use node_geoip2c.Binding.Kept.{lookup_ip-Good, load_db-Good, unload-AllReady}

-- The databases begin closed, as static variables are zeroed; a call is made in a reachable state
-- and leads to another, whether it returns or throws.
pub data Reachable (env : Platform) (lib : Library) : Globals → Type 0 where
  start : {g : Globals} → ((s : Slot) → is_open (get_slot s g) ≡ false) → Reachable env lib g
  loaded :
      {g g' : Globals} (args : List JsValue) (value : JsValue)
      → Reachable env lib g
      → load_db env lib args g ≡ returns (g', value)
      → Reachable env lib g'
  load_threw :
      {g g' : Globals} (args : List JsValue) (message : List ℕ)
      → Reachable env lib g
      → load_db env lib args g ≡ throws message g'
      → Reachable env lib g'
  looked_up :
      {g g' : Globals} (args : List JsValue) (value : JsValue)
      → Reachable env lib g
      → lookup_ip env lib args g ≡ returns (g', value)
      → Reachable env lib g'
  lookup_threw :
      {g g' : Globals} (args : List JsValue) (message : List ℕ)
      → Reachable env lib g
      → lookup_ip env lib args g ≡ throws message g'
      → Reachable env lib g'
  unloaded : {g : Globals} → Reachable env lib g → Reachable env lib (unload lib g)

module _ (Ready : Mmdb → Type 0) (Hang : Type 0) where
  Good-returns :
      {A : Type 0} (P : A → Type 0) (c : Completion A) (a : A)
      → c ≡ returns a
      → Good Ready Hang P c
      → P a
  Good-returns P c a e h = subst (Good Ready Hang P) e h

  Good-throws :
      {A : Type 0} (P : A → Type 0) (c : Completion A) (message : List ℕ) (g : Globals)
      → c ≡ throws message g
      → Good Ready Hang P c
      → AllReady Ready g
  Good-throws P c message g e h = subst (Good Ready Hang P) e h

module _ (Ready : Mmdb → Type 0) (env : Platform) (lib : Library)
    (lawful : IsLawful lib Ready) where
  -- In every reachable state each database is closed or ready.
  pub Reachable-AllReady : (g : Globals) → Reachable env lib g → AllReady Ready g
  Reachable-AllReady g (Reachable.start closed) = λ s. inl (closed s)
  Reachable-AllReady g' (Reachable.loaded {g} args value before h) =
      Good-returns Ready (Unit {0}) _ (load_db env lib args g) (g', value) h
        (load_db-Good Ready (Unit {0}) env lib lawful args g _ (Reachable-AllReady g before))
  Reachable-AllReady g' (Reachable.load_threw {g} args message before h) =
      Good-throws Ready (Unit {0}) _ (load_db env lib args g) message g' h
        (load_db-Good Ready (Unit {0}) env lib lawful args g _ (Reachable-AllReady g before))
  Reachable-AllReady g' (Reachable.looked_up {g} args value before h) =
      Good-returns Ready ⊥ _ (lookup_ip env lib args g) (g', value) h
        (lookup_ip-Good Ready ⊥ env lib lawful args g (Reachable-AllReady g before))
  Reachable-AllReady g' (Reachable.lookup_threw {g} args message before h) =
      Good-throws Ready ⊥ _ (lookup_ip env lib args g) message g' h
        (lookup_ip-Good Ready ⊥ env lib lawful args g (Reachable-AllReady g before))
  Reachable-AllReady _ (Reachable.unloaded {g} before) =
      unload-AllReady Ready lib lawful g (Reachable-AllReady g before)

  -- After any sequence of calls of load, lookupIp and unload that return or throw, every call of
  -- lookupIp comes to an end, where the library keeps its promises: a database that it opens is
  -- ready, stays ready in a lookup, and reading a value of it comes to an end.
  pub lookup_ip-ne-hangs :
      (g : Globals) (args : List JsValue) → Reachable env lib g → lookup_ip env lib args g ≢ hangs
  lookup_ip-ne-hangs g args reachable h =
      subst (Good Ready ⊥ (λ (st : Globals × JsValue). AllReady Ready st.0)) h
        (lookup_ip-Good Ready ⊥ env lib lawful args g (Reachable-AllReady g reachable))
