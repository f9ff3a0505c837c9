-- ===== src/Service/Owner.antt =====
-- hald/hald_dbus.c: the lock on a whole device, the table of the services that hold such locks, and
-- what the daemon does when a service leaves the bus.
use hal.Prelude.{
  ℕ, Bool, true, false, not, ◌||◌, Option, none, some, List, [], ◌∷◌, if◌then◌else◌, Bytes, codes,
  str_eq, or_else, Assoc, lookup, insert, remove,
}
use hal.Property.Utf8.{Utf8}
use hal.World.{World}
use hal.World.Index.{device_get_string}
use hal.Device.{get_bool}
use hal.Device.Set.{set_bool, set_string, property_remove}
use hal.Store.{remove_device}
use hal.Lock.{client_disconnected}
use hal.Rules.Path.{find_device}
use hal.Service.{
  Reply, Request, no_such_device, syntax_error, permission_denied, device_not_locked,
  device_already_locked, returned, outside,
}

-- The world, and `services_with_locks`: the devices that each service has locked. The table is NULL
-- before the first lock, and then as good as empty. The table runs `g_object_unref` on each value that
-- is replaced or removed, and its values are lists: `is_corrupt` says that this has happened to a
-- node of a list. From then on the other fields say nothing of the program any more.
pub record Bus : Type 0 where
  pub world : World
  pub services_with_locks : Assoc (List ℕ)
  pub is_corrupt : Bool

abbrev pub info_locked : Bytes
info_locked = codes "info.locked"

abbrev pub locked_reason : Bytes
locked_reason = codes "info.locked.reason"

abbrev pub locked_dbus_name : Bytes
locked_dbus_name = codes "info.locked.dbus_name"

unfoldable pub services_with_locks_add_lock : Bytes → ℕ → Assoc (List ℕ) → Assoc (List ℕ)
services_with_locks_add_lock owner d table =
    insert owner (d ∷ or_else [] (lookup owner table)) table

unfoldable pub services_with_locks_remove_lock : Bytes → ℕ → Assoc (List ℕ) → Assoc (List ℕ)
services_with_locks_remove_lock owner d table =
    insert owner (remove_device d (or_else [] (lookup owner table))) table

-- Does the table have a list of the service with a node, which a replacement or a removal destroys?
unfoldable pub has_node : Bytes → Assoc (List ℕ) → Bool
has_node owner table = elim (or_else [] (lookup owner table)) [ [] ↦ false | d ∷ rest ↦ true ]

-- The three properties of the lock go.
unfoldable pub remove_lock_properties : ℕ → World → World
remove_lock_properties d w =
    let w1 = (property_remove d info_locked w).1 in
    let w2 = (property_remove d locked_reason w1).1 in (property_remove d locked_dbus_name w2).1

unfoldable pub unlock_all : List ℕ → World → World
unfolding remove_lock_properties
unlock_all [] w = w
unlock_all (d ∷ rest) w = unlock_all rest (remove_lock_properties d w)

unfoldable pub services_with_locks_remove_lockowner : Bytes → Bus → Bus
unfolding unlock_all has_node
services_with_locks_remove_lockowner owner b = record {
  world = unlock_all (or_else [] (lookup owner b.services_with_locks)) b.world;
  services_with_locks = remove owner b.services_with_locks;
  is_corrupt = b.is_corrupt || has_node owner b.services_with_locks;
}

module _ (utf8 : Utf8) where
  -- The three properties of the lock are set.
  unfoldable pub set_lock_properties : ℕ → Bytes → Bytes → World → World
  set_lock_properties d reason sender w =
      let w1 = (set_bool d info_locked true w).1 in
      let w2 = (set_string utf8 d locked_reason (some reason) w1).1 in
      (set_string utf8 d locked_dbus_name (some sender) w2).1

  unfoldable pub device_lock : Request → Option Bytes → Bus → Reply × Bus
  unfolding set_lock_properties has_node
  device_lock r args b = elim (find_device r.path b.world) [
    | none ↦ (no_such_device r.path, b)
    | some d ↦
        if get_bool d info_locked b.world
        then (device_already_locked (device_get_string d locked_reason b.world), b)
        else elim args [
          | none ↦ (syntax_error, b)
          | some reason ↦ elim (r.sender) [
            | none ↦ (outside, b)
            | some sender ↦ (
              returned,
              record {
                world = set_lock_properties d reason sender b.world;
                services_with_locks = services_with_locks_add_lock sender d b.services_with_locks;
                is_corrupt = b.is_corrupt || has_node sender b.services_with_locks;
              },
            )
          ]
        ]
  ]

-- The entry of a service in the table that has no device passes for no entry.
unfoldable pub forget_lock : Bytes → ℕ → Assoc (List ℕ) → Assoc (List ℕ)
unfolding services_with_locks_remove_lock
forget_lock sender d table = elim (or_else [] (lookup sender table)) [
  | [] ↦ table
  | e ∷ rest ↦ services_with_locks_remove_lock sender d table
]

-- `args` is false where the request has arguments.
unfoldable pub device_unlock : Request → Bool → Bus → Reply × Bus
unfolding remove_lock_properties forget_lock has_node
device_unlock r args b = elim (find_device r.path b.world) [
  | none ↦ (no_such_device r.path, b)
  | some d ↦
      if not args
      then (syntax_error, b)
      else if not (get_bool d info_locked b.world)
      then (device_not_locked, b)
      else elim (r.sender) [
        | none ↦ (outside, b)
        | some sender ↦ elim (device_get_string d locked_dbus_name b.world) [
          | none ↦ (outside, b)
          | some owner ↦ if not (str_eq sender owner) then (permission_denied, b) else (
            returned,
            record {
              world = remove_lock_properties d b.world;
              services_with_locks = forget_lock sender d b.services_with_locks;
              is_corrupt = b.is_corrupt || has_node sender b.services_with_locks;
            },
          )
        ]
      ]
]

-- The signal NameOwnerChanged: `none` where the release of the locks meets a freed node.
unfoldable pub name_owner_changed : Bytes → Bus → Option Bus
unfolding services_with_locks_remove_lockowner
name_owner_changed [] b = some (services_with_locks_remove_lockowner [] b)
name_owner_changed (c ∷ old) b =
    let b' = services_with_locks_remove_lockowner (c ∷ old) b in
    elim (client_disconnected (c ∷ old) b'.world) [
      | none ↦ none
      | some w ↦ some (record b' { world = w })
    ]
