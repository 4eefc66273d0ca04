-- ===== src/Binding/Slots.antt =====
-- The five databases of the binding under the operations on them.
use node_geoip2c.Base.{
  ◌≡◌, refl, sym, subst, Bool, true, false, if◌then◌else◌, Bool-cases, inl, inr,
}
use node_geoip2c.Types.{Mmdb}
use node_geoip2c.Binding.Completion.{Globals, Slot, get_slot, put_slot}

abbrev pub same_slot : Slot → Slot → Bool
same_slot Slot.country t = elim t [ Slot.country ↦ true | _ ↦ false ]
same_slot Slot.city t = elim t [ Slot.city ↦ true | _ ↦ false ]
same_slot Slot.isp t = elim t [ Slot.isp ↦ true | _ ↦ false ]
same_slot Slot.netspeed t = elim t [ Slot.netspeed ↦ true | _ ↦ false ]
same_slot Slot.anonymous t = elim t [ Slot.anonymous ↦ true | _ ↦ false ]

pub get_slot-put_slot :
    (s t : Slot) (m : Mmdb) (g : Globals)
    → get_slot t (put_slot s m g) ≡ (if same_slot s t then m else get_slot t g)
get_slot-put_slot Slot.country t m g =
    elim t
      as (λ k.
        get_slot k (put_slot Slot.country m g)
        ≡ (if same_slot Slot.country k then m else get_slot k g)) [
          | Slot.country ↦ refl
          | Slot.city ↦ refl
          | Slot.isp ↦ refl
          | Slot.netspeed ↦ refl
          | Slot.anonymous ↦ refl
        ]
get_slot-put_slot Slot.city t m g =
    elim t
      as (λ k.
        get_slot k (put_slot Slot.city m g) ≡ (if same_slot Slot.city k then m else get_slot k g)) [
          | Slot.country ↦ refl
          | Slot.city ↦ refl
          | Slot.isp ↦ refl
          | Slot.netspeed ↦ refl
          | Slot.anonymous ↦ refl
        ]
get_slot-put_slot Slot.isp t m g =
    elim t
      as (λ k.
        get_slot k (put_slot Slot.isp m g) ≡ (if same_slot Slot.isp k then m else get_slot k g)) [
          | Slot.country ↦ refl
          | Slot.city ↦ refl
          | Slot.isp ↦ refl
          | Slot.netspeed ↦ refl
          | Slot.anonymous ↦ refl
        ]
get_slot-put_slot Slot.netspeed t m g =
    elim t
      as (λ k.
        get_slot k (put_slot Slot.netspeed m g)
        ≡ (if same_slot Slot.netspeed k then m else get_slot k g)) [
          | Slot.country ↦ refl
          | Slot.city ↦ refl
          | Slot.isp ↦ refl
          | Slot.netspeed ↦ refl
          | Slot.anonymous ↦ refl
        ]
get_slot-put_slot Slot.anonymous t m g =
    elim t
      as (λ k.
        get_slot k (put_slot Slot.anonymous m g)
        ≡ (if same_slot Slot.anonymous k then m else get_slot k g)) [
          | Slot.country ↦ refl
          | Slot.city ↦ refl
          | Slot.isp ↦ refl
          | Slot.netspeed ↦ refl
          | Slot.anonymous ↦ refl
        ]

-- A property of every database is kept where one of them is replaced by one that has it.
pub all_slots-put_slot :
    (P : Mmdb → Type 0) (s : Slot) (m : Mmdb) (g : Globals)
    → P m
    → ((t : Slot) → P (get_slot t g))
    → (t : Slot) → P (get_slot t (put_slot s m g))
all_slots-put_slot P s m g new old t =
    let put = get_slot-put_slot s t m g in
    elim (Bool-cases (same_slot s t)) [
      | inl same ↦ subst P (sym (rw same at put)) new
      | inr other ↦ subst P (sym (rw other at put)) (old t)
    ]

pub same_slot_refl : (s : Slot) → same_slot s s ≡ true
same_slot_refl Slot.country = refl
same_slot_refl Slot.city = refl
same_slot_refl Slot.isp = refl
same_slot_refl Slot.netspeed = refl
same_slot_refl Slot.anonymous = refl
