-- ===== src/Lock/Keep.antt =====
-- The locks of hald/device.c keep the stores' indexes consistent.
use native.Mathlib.Nat.{le_refl}
use hal.Prelude.{ℕ, refl, Bool, true, false, not, ◌&&◌, ◌==◌, List, ◌∷◌, Bytes}
use hal.World.{World, mem, lock_acquired, lock_released}
use hal.World.Index.{index_of}
use hal.World.Listed.{has_string-heap}
use hal.World.Consistent.{IsConsistent, same-IsConsistent, notice-IsConsistent}
use hal.Device.{has_property, get_bool, get_strlist_length, strlist_contains}
use hal.Device.Set.{set_bool}
use hal.Property.{boolean}
use hal.Device.Keep.{Keeps, Keeps-pair, Keeps-if, either}
use hal.Device.Keep.Setters.{store_value-Keeps, property_remove-Keeps}
use hal.Device.Keep.Strlists.{strlist_append-Keeps, strlist_add-Keeps, strlist_remove-Keeps}
use hal.Lock.{
  exclusive_part, locked_part, dbus_name_part, named_locks, lock_key, add_to_locked_set,
  remove_from_locked_set, enter_holders, acquire_lock, leave_names, drop_lock, release_lock,
}

set_bool-IsConsistent :
    (d : ℕ) (key : Bytes) (b : Bool) (w : World)
    → IsConsistent w
    → IsConsistent (set_bool d key b w).1
unfolding set_bool
set_bool-IsConsistent d key b w h = (store_value-Keeps d key (boolean b) (boolean b) w h).kept

locked_set-IsConsistent :
    (l : List ℕ) (w : World) → IsConsistent w → IsConsistent (record w { locked_devices = l })
locked_set-IsConsistent l w h =
    same-IsConsistent (record w { locked_devices = l }) w
      (record {
        connections = refl;
        next = le_refl w.next;
        devices = λ t. refl;
        index = λ t k. unfold index_of in refl;
        properties =
            λ e k value _. has_string-heap e k value (record w { locked_devices = l }) w refl;
      })
      h

add_to_locked_set-IsConsistent :
    (d : ℕ) (w : World) → IsConsistent w → IsConsistent (add_to_locked_set d w)
unfolding add_to_locked_set
add_to_locked_set-IsConsistent d w h =
    either (mem d w.locked_devices) h (locked_set-IsConsistent (d ∷ w.locked_devices) w h)

remove_from_locked_set-IsConsistent :
    (d : ℕ) (w : World) → IsConsistent w → IsConsistent (remove_from_locked_set d w)
unfolding remove_from_locked_set
remove_from_locked_set-IsConsistent d w h = locked_set-IsConsistent _ w h

module _ (d : ℕ) (name sender : Bytes) where
  enter_holders-IsConsistent :
      (w : World) → IsConsistent w → IsConsistent (enter_holders d name sender w)
  unfolding enter_holders
  enter_holders-IsConsistent w h = notice-IsConsistent d (lock_acquired name sender) _ tt (
      add_to_locked_set-IsConsistent d _
        (strlist_add-Keeps d named_locks name _ (
          set_bool-IsConsistent d (lock_key locked_part name) true _
            (strlist_append-Keeps d (lock_key dbus_name_part name) sender false w h).kept)).kept)

  pub acquire_lock-Keeps :
      (exclusive : Bool) (w : World)
      → IsConsistent w
      → Keeps (acquire_lock d name exclusive sender w)
  unfolding acquire_lock
  acquire_lock-Keeps exclusive w h =
      let v = (set_bool d (lock_key exclusive_part name) exclusive w).1 in
      let k = set_bool-IsConsistent d (lock_key exclusive_part name) exclusive w h in
      Keeps-if (get_bool d (lock_key exclusive_part name) w) _ _ (λ _. Keeps-pair false w h)
        (λ _.
          Keeps-if (exclusive && has_property d (lock_key dbus_name_part name) v) _ _
            (λ _. Keeps-pair false v k)
            (λ _.
              Keeps-if (strlist_contains d (lock_key dbus_name_part name) sender v) _ _
                (λ _. Keeps-pair false v k)
                (λ _. Keeps-pair true _ (enter_holders-IsConsistent v k))))

  leave_names-IsConsistent : (w : World) → IsConsistent w → IsConsistent (leave_names d name w)
  unfolding leave_names
  leave_names-IsConsistent w h =
      either (get_strlist_length d named_locks w == 1)
        (remove_from_locked_set-IsConsistent d _ (property_remove-Keeps d named_locks w h).kept)
        (strlist_remove-Keeps d named_locks name w h).kept

  drop_lock-IsConsistent : (w : World) → IsConsistent w → IsConsistent (drop_lock d name w)
  unfolding drop_lock
  drop_lock-IsConsistent w h =
      leave_names-IsConsistent _
        (property_remove-Keeps d (lock_key dbus_name_part name) _
          (property_remove-Keeps d (lock_key locked_part name) _
            (property_remove-Keeps d (lock_key exclusive_part name) w h).kept).kept).kept

  pub release_lock-Keeps : (w : World) → IsConsistent w → Keeps (release_lock d name sender w)
  unfolding release_lock
  release_lock-Keeps w h =
      Keeps-if (not (get_bool d (lock_key locked_part name) w)) _ _ (λ _. Keeps-pair false w h)
        (λ _.
          Keeps-if (not (strlist_contains d (lock_key dbus_name_part name) sender w)) _ _
            (λ _. Keeps-pair false w h)
            (λ _. Keeps-pair true _ (
              notice-IsConsistent d (lock_released name sender) _ tt (
                either (get_strlist_length d (lock_key dbus_name_part name) w == 1)
                  (drop_lock-IsConsistent w h)
                  (strlist_remove-Keeps d (lock_key dbus_name_part name) sender w h).kept))))
