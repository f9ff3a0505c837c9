-- ===== src/Service/Release.antt =====
-- hald/hald_dbus.c: what the lock on a device keeps others from, and that its release undoes it.
use hal.Prelude.{
  ◌∙◌, ap, ℕ, ◌≡◌, ◌==◌, ◌&&◌, ◌||◌, if◌then◌else◌, refl, true, false, Option, none, some, List, [],
  ◌∷◌, Bytes, arith, str_eq, eq_iff, eq_refl, or_else, Assoc, lookup, lookup-insert,
}
use hal.Property.{string}
use hal.Property.Utf8.{Utf8, stored_string}
use hal.World.{World, property_find}
use hal.World.Index.{device_get_string}
use hal.Device.{get_bool}
use hal.Device.Set.{property_remove}
use hal.Device.Find.{find-property_remove}
use hal.Rules.Path.{find_device}
use hal.Service.{Request, returned, permission_denied}
use hal.Service.Owner.{
  Bus, info_locked, locked_reason, locked_dbus_name, set_lock_properties, remove_lock_properties,
  services_with_locks_add_lock, has_node, forget_lock, device_lock, device_unlock,
}
use hal.Service.Cases.{Refused}
use hal.Service.Held.{IsUnlocked, find-set_lock_properties}
use hal.Service.Place.{find_device-SamePlace, set_lock_properties-SamePlace}

reason_is_not_flag : str_eq locked_reason info_locked ≡ false
unfolding str_eq
reason_is_not_flag = refl

owner_is_not_flag : str_eq locked_dbus_name info_locked ≡ false
unfolding str_eq
owner_is_not_flag = refl

find-remove_lock_properties :
    (d e : ℕ) (k : Bytes) (w : World)
    → property_find e k (remove_lock_properties d w) ≡ (
        if e == d && (str_eq info_locked k || (str_eq locked_reason k || str_eq locked_dbus_name k))
        then none
        else property_find e k w)
unfolding remove_lock_properties
find-remove_lock_properties d e k w =
    let w1 = (property_remove d info_locked w).1 in
    let w2 = (property_remove d locked_reason w1).1 in
    find-property_remove d locked_dbus_name e k w2
    ∙ ground (
      arith,
      find-property_remove d locked_reason e k w1,
      find-property_remove d info_locked e k w,
    )

has_node-add_lock :
    (owner : Bytes) (d : ℕ) (table : Assoc (List ℕ))
    → has_node owner (services_with_locks_add_lock owner d table) ≡ true
unfolding has_node services_with_locks_add_lock
has_node-add_lock owner d table =
    let there : lookup owner (services_with_locks_add_lock owner d table)
        ≡ some (d ∷ or_else [] (lookup owner table)) =
      lookup-insert owner owner (d ∷ or_else [] (lookup owner table)) table
      ∙ rw (eq_refl owner) refl in
    rw (there, has_node) refl

module _ (utf8 : Utf8) (r : Request) (d : ℕ) (reason sender : Bytes) (b : Bus)
    (there : find_device r.path b.world ≡ some d) (sent : r.sender ≡ some sender)
    (free : IsUnlocked d b.world) (plain : stored_string utf8 (some sender) ≡ sender) where
  abbrev locked : Bus
  locked = record {
    world = set_lock_properties utf8 d reason sender b.world;
    services_with_locks = services_with_locks_add_lock sender d b.services_with_locks;
    is_corrupt = b.is_corrupt || has_node sender b.services_with_locks;
  }

  locks : device_lock utf8 r (some reason) b ≡ (returned, locked)
  unfolding device_lock
  locks =
      let unlocked : get_bool d info_locked b.world ≡ false =
        unfold get_bool in ground (arith, free.flag) in
      rw (there, unlocked, sent, device_lock) refl

  still_there : (path : Bytes) → path ≡ r.path → find_device path locked.world ≡ some d
  still_there path same =
      ap (λ p. find_device p locked.world) same
      ∙ find_device-SamePlace r.path b.world _
          (set_lock_properties-SamePlace utf8 d reason sender b.world)
      ∙ there

  is_locked : get_bool d info_locked locked.world ≡ true
  unfolding get_bool
  is_locked = ground (
    arith,
    find-set_lock_properties utf8 d reason sender d info_locked b.world free,
    eq_iff info_locked info_locked,
    reason_is_not_flag,
    owner_is_not_flag,
  )

  has_owner : device_get_string d locked_dbus_name locked.world ≡ some sender
  unfolding device_get_string
  has_owner =
      let found : property_find d locked_dbus_name locked.world
          ≡ some (string (stored_string utf8 (some sender))) =
        find-set_lock_properties utf8 d reason sender d locked_dbus_name b.world free
        ∙ ground (arith, eq_iff locked_dbus_name locked_dbus_name) in
      rw (found, device_get_string) (ap some plain)

  unlocks :
      (back : Request)
      → back.path ≡ r.path
      → back.sender ≡ some sender
      → device_unlock back true locked ≡ (
        returned,
        record {
          world = remove_lock_properties d locked.world;
          services_with_locks = forget_lock sender d locked.services_with_locks;
          is_corrupt = locked.is_corrupt || has_node sender locked.services_with_locks;
        },
      )
  unfolding device_unlock
  unlocks back path same =
      let mine : str_eq sender sender ≡ true = eq_refl sender in
      rw (still_there back.path path, is_locked, same, has_owner, mine, device_unlock) refl

  restored :
      (e : ℕ) (k : Bytes)
      → property_find e k (remove_lock_properties d locked.world) ≡ property_find e k b.world
  restored e k =
      find-remove_lock_properties d e k locked.world
      ∙ ground (
        arith,
        find-set_lock_properties utf8 d reason sender e k b.world free,
        eq_iff info_locked k,
        eq_iff locked_reason k,
        eq_iff locked_dbus_name k,
        free.flag,
        free.reason,
        free.owner,
      )

  -- A device without a lock is locked, by a service with a name of valid text. Then every request
  -- for the lock of the device is refused and changes nothing, and so is a request of another service
  -- to unlock it.
  pub device_lock-excludes :
      (again thief : Request) (args : Option Bytes) (other : Bytes)
      → again.path ≡ r.path
      → thief.path ≡ r.path
      → thief.sender ≡ some other
      → str_eq other sender ≡ false
      → ((device_lock utf8 r (some reason) b).0 ≡ returned)
        × Refused
            (device_lock utf8 r (some reason) b).1
            (device_lock utf8 again args (device_lock utf8 r (some reason) b).1)
        × (device_unlock thief true (device_lock utf8 r (some reason) b).1
            ≡ (permission_denied, (device_lock utf8 r (some reason) b).1))
  unfolding device_lock device_unlock
  device_lock-excludes again thief args other path thief_path name differs = rw locks (
    refl,
    rw (still_there again.path path, is_locked, device_lock) (refl, refl),
    rw (still_there thief.path thief_path, is_locked, name, has_owner, differs, device_unlock) refl,
  )

  -- A device without a lock is locked, by a service with a name of valid text, and the same service
  -- unlocks it: the request succeeds and every property of every device is what it was before, but
  -- `g_object_unref` has been called on a node of the list of the service's devices.
  pub device_unlock-device_lock :
      (back : Request) (e : ℕ) (k : Bytes)
      → back.path ≡ r.path
      → back.sender ≡ some sender
      → ((device_unlock back true (device_lock utf8 r (some reason) b).1).0 ≡ returned)
        × (property_find e k
              (device_unlock back true (device_lock utf8 r (some reason) b).1).1.world
            ≡ property_find e k b.world)
        × ((device_unlock back true (device_lock utf8 r (some reason) b).1).1.is_corrupt ≡ true)
  device_unlock-device_lock back e k path same =
      let node : has_node sender locked.services_with_locks ≡ true =
        has_node-add_lock sender d b.services_with_locks in
      rw (locks, unlocks back path same) (refl, restored e k, ground (arith, node))
