-- ===== src/Device/Failing.antt =====
-- hald/device.c: an operation on a property, or the release of a lock, that returns FALSE has changed
-- nothing.
use hal.Prelude.{
  ℕ, ◌≡◌, refl, Bool, true, false, if◌then◌else◌, Bytes, Option-cases, inl, inr, arith,
}
use hal.Property.{Property}
use hal.World.{World, property_find}
use hal.Device.Set.{store_value, property_remove}
use hal.Device.Strlist.{strlist_append, strlist_prepend, strlist_remove}

pub record FailsQuietly (w : World) (x : Bool × World) : Type 0 where
  pub unchanged : x.0 ≡ false → x.1 ≡ w

pub FailsQuietly-done : (v w : World) → FailsQuietly w (true, v)
FailsQuietly-done v w = record { unchanged = λ e. absurd (ground arith) }

pub FailsQuietly-refused : (w : World) → FailsQuietly w (false, w)
FailsQuietly-refused w = record { unchanged = λ e. refl }

pub FailsQuietly-if :
    (b : Bool) (w : World) (x y : Bool × World)
    → FailsQuietly w x
    → FailsQuietly w y
    → FailsQuietly w (if b then x else y)
FailsQuietly-if true w x y p q = p
FailsQuietly-if false w x y p q = q

pub ruleset fail_rules = (FailsQuietly-done, FailsQuietly-refused, FailsQuietly-if)

module _ (d : ℕ) (key : Bytes) (w : World) where
  pub store_value-FailsQuietly :
      (offered stored : Property) → FailsQuietly w (store_value d key offered stored w)
  unfolding store_value
  store_value-FailsQuietly offered stored = elim (Option-cases (property_find d key w)) [
    | inl e ↦ rw (e, store_value) (search fail_rules)
    | inr (old, e) ↦ rw (e, store_value) (search fail_rules)
  ]

  pub property_remove-FailsQuietly : FailsQuietly w (property_remove d key w)
  unfolding property_remove
  property_remove-FailsQuietly = elim (Option-cases (property_find d key w)) [
    | inl e ↦ rw (e, property_remove) (search fail_rules)
    | inr (old, e) ↦ rw (e, property_remove) (search fail_rules)
  ]

  pub strlist_append-FailsQuietly :
      (value : Bytes) (changeset : Bool) → FailsQuietly w (strlist_append d key value changeset w)
  unfolding strlist_append
  strlist_append-FailsQuietly value changeset = elim (Option-cases (property_find d key w)) [
    | inl e ↦ rw (e, strlist_append) (search fail_rules)
    | inr (old, e) ↦ rw (e, strlist_append) (search fail_rules)
  ]

  pub strlist_prepend-FailsQuietly :
      (value : Bytes) → FailsQuietly w (strlist_prepend d key value w)
  unfolding strlist_prepend
  strlist_prepend-FailsQuietly value = elim (Option-cases (property_find d key w)) [
    | inl e ↦ rw (e, strlist_prepend) (search fail_rules)
    | inr (old, e) ↦ rw (e, strlist_prepend) (search fail_rules)
  ]

  pub strlist_remove-FailsQuietly : (value : Bytes) → FailsQuietly w (strlist_remove d key value w)
  unfolding strlist_remove
  strlist_remove-FailsQuietly value = elim (Option-cases (property_find d key w)) [
    | inl e ↦ rw (e, strlist_remove) (search fail_rules)
    | inr (old, e) ↦ rw (e, strlist_remove) (search fail_rules)
  ]
