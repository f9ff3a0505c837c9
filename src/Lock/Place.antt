-- ===== src/Lock/Place.antt =====
-- hald/device.c: the lock operations leave the stores' lists of devices and the devices' UDIs as
-- they are.
use hal.Prelude.{ℕ, Bool, true, false, Bytes}
use hal.Property.{boolean}
use hal.World.{World}
use hal.Device.Set.{set_bool}
use hal.Device.Place.{
  SamePlace, SamePlace-refl, SamePlace-trans, SamePlace-emit, SamePlace-if, Stays, Stays-pair,
  Stays-if, store_value-Stays, property_remove-Stays, strlist_append-Stays, strlist_add-Stays,
  strlist_remove-Stays,
}
use hal.Lock.{
  exclusive_part, locked_part, dbus_name_part, lock_key, named_locks, add_to_locked_set,
  remove_from_locked_set, enter_holders, acquire_lock, leave_names, drop_lock, release_lock,
}

set_bool-SamePlace :
    (d : ℕ) (key : Bytes) (b : Bool) (w : World) → SamePlace w (set_bool d key b w).1
unfolding set_bool
set_bool-SamePlace d key b w = (store_value-Stays d key w (boolean b) (boolean b)).place

add_to_locked_set-SamePlace :
    (d : ℕ) (w v : World) → SamePlace w v → SamePlace w (add_to_locked_set d v)
unfolding add_to_locked_set
add_to_locked_set-SamePlace d w v p =
    SamePlace-if _ w _ _ p (record { devices = p.devices; udis = p.udis })

module _ (d : ℕ) (name sender : Bytes) where
  enter_holders-SamePlace : (w : World) → SamePlace w (enter_holders d name sender w)
  unfolding enter_holders
  enter_holders-SamePlace w =
      let p1 = (strlist_append-Stays d (lock_key dbus_name_part name) w sender false).place in
      let p2 = SamePlace-trans p1 (set_bool-SamePlace d (lock_key locked_part name) true _) in
      let p3 = SamePlace-trans p2 (strlist_add-Stays d named_locks _ name).place in
      SamePlace-emit d _ w _ (add_to_locked_set-SamePlace d w _ p3)

  pub acquire_lock-Stays :
      (exclusive : Bool) (w : World) → Stays w (acquire_lock d name exclusive sender w)
  unfolding acquire_lock
  acquire_lock-Stays exclusive w =
      let p = set_bool-SamePlace d (lock_key exclusive_part name) exclusive w in
      Stays-if _ w _ _ (Stays-pair false w w (SamePlace-refl w)) (
        Stays-if _ w _ _ (Stays-pair false w _ p) (
          Stays-if _ w _ _ (Stays-pair false w _ p)
            (Stays-pair true w _ (SamePlace-trans p (enter_holders-SamePlace _)))))

  leave_names-SamePlace : (w : World) → SamePlace w (leave_names d name w)
  unfolding leave_names remove_from_locked_set
  leave_names-SamePlace w =
      let p = (property_remove-Stays d named_locks w).place in
      SamePlace-if _ w _ _ (record { devices = p.devices; udis = p.udis })
        (strlist_remove-Stays d named_locks w name).place

  drop_lock-SamePlace : (w : World) → SamePlace w (drop_lock d name w)
  unfolding drop_lock
  drop_lock-SamePlace w =
      let p1 = (property_remove-Stays d (lock_key exclusive_part name) w).place in
      let p2 = SamePlace-trans p1 (property_remove-Stays d (lock_key locked_part name) _).place in
      let p3 =
        SamePlace-trans p2 (property_remove-Stays d (lock_key dbus_name_part name) _).place in
      SamePlace-trans p3 (leave_names-SamePlace _)

  pub release_lock-Stays : (w : World) → Stays w (release_lock d name sender w)
  unfolding release_lock
  release_lock-Stays w = Stays-if _ w _ _ (Stays-pair false w w (SamePlace-refl w)) (
      Stays-if _ w _ _ (Stays-pair false w w (SamePlace-refl w)) (
        Stays-pair true w _ (
          SamePlace-emit d _ w _ (
            SamePlace-if _ w _ _ (drop_lock-SamePlace w)
              (strlist_remove-Stays d (lock_key dbus_name_part name) w sender).place))))
