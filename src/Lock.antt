-- ===== src/Lock.antt =====
-- hald/device.c: the named locks of a device, kept in its properties `info.named_locks*`, and the
-- set of locked devices.
pub mod Key
pub mod View
pub mod Refine
pub mod Keep
pub mod Entered
pub mod Acquire
pub mod Leaving
pub mod Left
pub mod Release
pub mod Sequence
pub mod Client
pub mod Place
use hal.Prelude.{
  ℕ, ◌+◌, ◌≡◌, refl, Bool, true, false, not, ◌&&◌, Option, none, some, List, [], ◌∷◌, ◌++◌, ◌==◌,
  if◌then◌else◌, Bytes, codes, length, take, update,
}
use hal.World.{World, M, mem, lock_acquired, lock_released, property_find}
use hal.World.Emit.{emit}
use hal.Device.{has_property, get_bool, get_strlist_length, strlist_contains, dup_strlist_as_strv}
use hal.Device.Set.{set_bool, property_remove}
use hal.Device.Strlist.{strlist_append, strlist_add, strlist_remove}
use hal.Store.{remove_device}

-- The three properties of a lock.
pub data Part : Type 0 where
  exclusive_part locked_part dbus_name_part : Part

abbrev pub suffix : Part → Bytes
suffix exclusive_part = codes ".exclusive"
suffix locked_part = codes ".locked"
suffix dbus_name_part = codes ".dbus_name"

unfoldable pub named_locks : Bytes
named_locks = codes "info.named_locks"

-- `g_snprintf` into `char buf[256]`: a longer text is cut off.
unfoldable pub lock_key : Part → Bytes → Bytes
lock_key p name = take 255 (codes "info.named_locks." ++ (name ++ suffix p))

unfoldable pub add_to_locked_set : ℕ → World → World
add_to_locked_set d w =
    if mem d w.locked_devices then w else record w { locked_devices = d ∷ w.locked_devices }

unfoldable pub remove_from_locked_set : ℕ → World → World
unfolding remove_device
remove_from_locked_set d w = record w { locked_devices = remove_device d w.locked_devices }

-- `hal_device_acquire_lock`, from the place where the caller enters the holders.
unfoldable pub enter_holders : ℕ → Bytes → Bytes → World → World
enter_holders d name sender w =
    let w1 = (strlist_append d (lock_key dbus_name_part name) sender false w).1 in
    let w2 = (set_bool d (lock_key locked_part name) true w1).1 in
    let w3 = (strlist_add d named_locks name w2).1 in
    emit d (lock_acquired name sender) (add_to_locked_set d w3)

unfoldable pub acquire_lock : ℕ → Bytes → Bool → Bytes → M Bool
acquire_lock d name exclusive sender w =
    if get_bool d (lock_key exclusive_part name) w
    then (false, w)
    else let w' = (set_bool d (lock_key exclusive_part name) exclusive w).1 in
      if exclusive && has_property d (lock_key dbus_name_part name) w'
      then (false, w')
      else if strlist_contains d (lock_key dbus_name_part name) sender w'
      then (false, w')
      else (true, enter_holders d name sender w')

-- A lock leaves the list of locks; with the last one the list goes, and the device is no longer
-- in the locked set.
unfoldable pub leave_names : ℕ → Bytes → World → World
leave_names d name w =
    if get_strlist_length d named_locks w == 1
    then remove_from_locked_set d (property_remove d named_locks w).1
    else (strlist_remove d named_locks name w).1

-- `hal_device_release_lock`, for the last holder of a lock: its properties go.
unfoldable pub drop_lock : ℕ → Bytes → World → World
drop_lock d name w =
    let w1 = (property_remove d (lock_key exclusive_part name) w).1 in
    let w2 = (property_remove d (lock_key locked_part name) w1).1 in
    let w3 = (property_remove d (lock_key dbus_name_part name) w2).1 in leave_names d name w3

unfoldable pub release_lock : ℕ → Bytes → Bytes → M Bool
release_lock d name sender w =
    if not (get_bool d (lock_key locked_part name) w)
    then (false, w)
    else if not (strlist_contains d (lock_key dbus_name_part name) sender w)
    then (false, w)
    else (
      true,
      emit d (lock_released name sender) (
          if get_strlist_length d (lock_key dbus_name_part name) w == 1
          then drop_lock d name w
          else (strlist_remove d (lock_key dbus_name_part name) sender w).1),
    )

unfoldable pub get_lock_holders : ℕ → Bytes → World → Option (List Bytes)
unfolding dup_strlist_as_strv
get_lock_holders d name w = dup_strlist_as_strv d (lock_key dbus_name_part name) w

unfoldable pub get_num_lock_holders : ℕ → Bytes → World → ℕ
unfolding get_lock_holders
get_num_lock_holders d name w = elim (get_lock_holders d name w) [
  | none ↦ 0
  | some holders ↦ length holders
]

unfoldable pub is_lock_exclusive : ℕ → Bytes → World → Bool
is_lock_exclusive d name w = get_bool d (lock_key exclusive_part name) w

-- The inner loop of `hal_device_client_disconnected`, over a copy of the names.
unfoldable pub release_locks : ℕ → Bytes → List Bytes → World → World
release_locks d sender [] w = w
release_locks d sender (name ∷ rest) w =
    release_locks d sender rest (release_lock d name sender w).1

-- The outer loop, over the nodes of the locked set. A release of the device's last lock frees the
-- node that the loop stands at, and the loop then reads its `next`: `none` is this fault.
unfoldable pub disconnect_loop : Bytes → List ℕ → World → Option World
unfolding release_locks
disconnect_loop sender [] w = some w
disconnect_loop sender (d ∷ rest) w =
    let w' : World = elim (dup_strlist_as_strv d named_locks w) [
      | none ↦ w
      | some locks ↦ release_locks d sender locks w
    ] in
    let later = disconnect_loop sender rest w' in if mem d w'.locked_devices then later else none

unfoldable pub client_disconnected : Bytes → World → Option World
unfolding disconnect_loop
client_disconnected sender w = disconnect_loop sender w.locked_devices w
