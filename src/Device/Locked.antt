-- ===== src/Device/Locked.antt =====
-- hald/device.c: the changes of properties leave the set of locked devices alone.
use hal.Prelude.{ℕ, ◌≡◌, ◌∙◌, Bool, false, arith, Bytes, Option-cases, inl, inr}
use hal.Property
use hal.Property.{Property, boolean, type_strlist, same_type, property_type, same_value}
use hal.World.{
  World, Signal, property_changed, pre_property_changed, property_find, table_insert, table_remove,
}
use hal.World.Emit.{emit}
use hal.World.Kept.{emit-OnlyIndex}
use hal.Device.Set.{store_value, set_bool, property_remove}
use hal.Device.Strlist.{strlist_append, strlist_add, strlist_remove}

module _ (d : ℕ) (key : Bytes) where
  locked-changed :
      (p : Property) (sig : Signal) (w : World)
      → (emit d sig (table_insert d key p w)).locked_devices ≡ w.locked_devices
  unfolding table_insert
  locked-changed p sig w = (emit-OnlyIndex d sig (table_insert d key p w)).locked

  locked-replaced :
      (p : Property) (sig sig' : Signal) (w : World)
      → (emit d sig (table_insert d key p (emit d sig' w))).locked_devices ≡ w.locked_devices
  locked-replaced p sig sig' w =
      locked-changed p sig (emit d sig' w) ∙ (emit-OnlyIndex d sig' w).locked

  locked-removed :
      (sig sig' : Signal) (w : World)
      → (emit d sig (table_remove d key (emit d sig' w))).locked_devices ≡ w.locked_devices
  unfolding table_remove
  locked-removed sig sig' w =
      (emit-OnlyIndex d sig (table_remove d key (emit d sig' w))).locked
      ∙ (emit-OnlyIndex d sig' w).locked

  pub locked-set_bool :
      (value : Bool) (w : World) → (set_bool d key value w).1.locked_devices ≡ w.locked_devices
  unfolding set_bool
  locked-set_bool value w = elim (Option-cases (property_find d key w)) [
    | inl e ↦ rw (e, store_value) (locked-changed (boolean value) _ w)
    | inr (old, e) ↦
        rw (e, store_value)
          (ground (
            arith,
            locked-replaced (boolean value) (property_changed key false false)
                (pre_property_changed key false) w,
          ))
  ]

  pub locked-property_remove :
      (w : World) → (property_remove d key w).1.locked_devices ≡ w.locked_devices
  unfolding property_remove
  locked-property_remove w = elim (Option-cases (property_find d key w)) [
    | inl e ↦ rw (e, property_remove)
    | inr (old, e) ↦ rw (e, property_remove) (locked-removed _ _ w)
  ]

  pub locked-strlist_append :
      (value : Bytes) (w : World)
      → (strlist_append d key value false w).1.locked_devices ≡ w.locked_devices
  unfolding strlist_append
  locked-strlist_append value w = elim (Option-cases (property_find d key w)) [
    | inl e ↦ rw (e, strlist_append) (locked-changed _ _ w)
    | inr (old, e) ↦
        rw (e, strlist_append)
          (ground (
            arith,
            locked-changed (Property.strlist_append value old).1 (property_changed key false false)
                w,
          ))
  ]

  pub locked-strlist_add :
      (value : Bytes) (w : World) → (strlist_add d key value w).1.locked_devices ≡ w.locked_devices
  unfolding strlist_add
  locked-strlist_add value w = elim (Option-cases (property_find d key w)) [
    | inl e ↦ rw (e, strlist_add) (locked-changed _ _ w)
    | inr (old, e) ↦
        rw (e, strlist_add)
          (ground (
            arith,
            locked-changed (Property.strlist_add value old).1 (property_changed key false false) w,
          ))
  ]

  pub locked-strlist_remove :
      (value : Bytes) (w : World)
      → (strlist_remove d key value w).1.locked_devices ≡ w.locked_devices
  unfolding strlist_remove
  locked-strlist_remove value w = elim (Option-cases (property_find d key w)) [
    | inl e ↦ rw (e, strlist_remove)
    | inr (old, e) ↦
        rw (e, strlist_remove)
          (ground (
            arith,
            locked-changed (Property.strlist_remove value old).1 (property_changed key false false)
                w,
          ))
  ]
