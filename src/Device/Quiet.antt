-- ===== src/Device/Quiet.antt =====
-- hald/device.c: a text setter leaves the stores' lists of devices, and the heap's size, as they are.
use hal.Prelude.{
  [], ℕ, ◌≡◌, refl, ◌∙◌, Bool, true, false, Option, some, Bytes, codes, or_else, Option-cases, inl,
  inr, if◌then◌else◌,
}
use hal.Property.{Property, string}
use hal.Property.Utf8.{Utf8, stored_string}
use hal.World.{World, Signal, StoreId, property_find, table_insert}
use hal.World.Emit.{emit}
use hal.World.Kept.{emit-OnlyIndex}
use hal.Device.Set.{store_value, set_string, set_udi}

pub record SameLists (v w : World) : Type 0 where
  pub next : v.next ≡ w.next
  pub devices : (t : StoreId) → (v.stores t).devices ≡ (w.stores t).devices

SameLists-refl : (w : World) → SameLists w w
SameLists-refl w = record { next = refl; devices = λ t. refl }

pub SameLists-trans : {u v w : World} → SameLists u v → SameLists v w → SameLists u w
SameLists-trans p q = record { next = p.next ∙ q.next; devices = λ t. p.devices t ∙ q.devices t }

SameLists-emit : (d : ℕ) (sig : Signal) (w : World) → SameLists (emit d sig w) w
SameLists-emit d sig w =
    let o = emit-OnlyIndex d sig w in record { next = o.next; devices = o.devices }

SameLists-insert :
    (d : ℕ) (key : Bytes) (p : Property) (w : World) → SameLists (table_insert d key p w) w
unfolding table_insert
SameLists-insert d key p w = record { next = refl; devices = λ t. refl }

-- The same of an operation's result and the world after it.
pub record Quiet (w : World) (x : Bool × World) : Type 0 where
  pub lists : SameLists x.1 w

Quiet-pair : (a : Bool) (v w : World) → SameLists v w → Quiet w (a, v)
Quiet-pair a v w p = record { lists = p }

Quiet-if :
    (b : Bool) (w : World) (x y : Bool × World)
    → Quiet w x
    → Quiet w y
    → Quiet w (if b then x else y)
Quiet-if true w x y p q = p
Quiet-if false w x y p q = q

store_value-Quiet :
    (d : ℕ) (key : Bytes) (offered stored : Property) (w : World)
    → Quiet w (store_value d key offered stored w)
unfolding store_value
store_value-Quiet d key offered stored w = elim (Option-cases (property_find d key w)) [
  | inl e ↦
      rw (e, store_value)
        (Quiet-pair true _ w
          (SameLists-trans (SameLists-emit d _ _) (SameLists-insert d key stored w)))
  | inr (old, e) ↦
      rw (e, store_value)
        (Quiet-if _ w _ _ (Quiet-pair false w w (SameLists-refl w)) (
          Quiet-if _ w _ _ (Quiet-pair true w w (SameLists-refl w)) (
            Quiet-pair true _ w (
              SameLists-trans (SameLists-emit d _ _)
                (SameLists-trans (SameLists-insert d key stored _) (SameLists-emit d _ w))))))
]

pub set_string-SameLists :
    (utf8 : Utf8) (d : ℕ) (key : Bytes) (value : Option Bytes) (w : World)
    → SameLists (set_string utf8 d key value w).1 w
unfolding set_string
set_string-SameLists utf8 d key value w =
    (store_value-Quiet d key (string (or_else [] value)) (string (stored_string utf8 value))
      w).lists

pub set_udi-SameLists :
    (utf8 : Utf8) (d : ℕ) (udi : Bytes) (w : World) → SameLists (set_udi utf8 d udi w).1 w
unfolding set_udi
set_udi-SameLists utf8 d udi w =
    SameLists-trans (set_string-SameLists utf8 d (codes "info.udi") (some udi) _)
      (record { next = refl; devices = λ t. refl })
