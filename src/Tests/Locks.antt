-- ===== src/Tests/Locks.antt =====
-- Runs of the lock operations of hald/device.c.
use hal.Prelude.{
  ◌≡◌, refl, true, false, none, [], ◌∷◌, Bytes, codes, str_eq, ◌&&◌, arith, remove_first, contains,
  lookup, insert, if◌then◌else◌,
}
use hal.Property
use hal.World.{World, property_find, table_insert, mem}
use hal.World.Emit.{emit, deliver}
use hal.Device.{device_new, get_bool, has_property, get_strlist, strlist_contains}
use hal.Device.Set.{set_bool, store_value}
use hal.Device.Strlist.{strlist_append, strlist_add, emit_unless}
use hal.Lock.{
  enter_holders, add_to_locked_set, exclusive_part, locked_part, dbus_name_part, named_locks,
  lock_key, acquire_lock, release_lock, is_lock_exclusive, release_locks, client_disconnected,
}
use hal.Lock.Key.{IsShort, same_part, str_eq-lock_key}
use hal.Lock.View.{
  LockState, free, held, acquire_state, release_state, part_property, Locks, with_state, with_name,
  is_held,
}
use hal.Lock.Acquire.{acquire_lock-Locks}
use hal.Lock.Release.{release_lock-Locks}
use hal.Lock.Sequence.{
  acquire_lock_failed_exclusive, client_disconnected_fault, release_lock-acquire_lock,
}
use hal.Lock.Client.{find-release_locks}
use hal.Tests.Fixture.{one_device, one_device-Locks}

abbrev storage : Bytes
storage = codes "org.freedesktop.Hal.Device.Storage"

abbrev alice : Bytes
alice = codes ":1.1"

abbrev bob : Bytes
bob = codes ":1.2"

short : IsShort storage
short = omega arith

-- One caller holds a shared lock of the device.
abbrev shared_world : World
shared_world = (acquire_lock 0 storage false alice one_device).1

abbrev shared_states : Bytes → LockState
shared_states = with_state (λ n. free) storage (held false alice [])

shared-Locks : Locks 0 shared_world shared_states (storage ∷ [])
unfolding acquire_state contains
shared-Locks =
    (acquire_lock-Locks 0 storage alice short false (λ n. free) [] one_device one_device-Locks).1

acquire_lock-Locks_example :
    ((acquire_lock 0 storage true alice one_device).0 ≡ (acquire_state true alice free).0)
    × Locks 0
        (acquire_lock 0 storage true alice one_device).1
        (with_state (λ n. free) storage (acquire_state true alice free).1)
        (if (acquire_state true alice free).0 then with_name storage [] else [])
acquire_lock-Locks_example =
    acquire_lock-Locks 0 storage alice short true (λ n. free) [] one_device one_device-Locks

release_lock-Locks_example :
    ((release_lock 0 storage alice shared_world).0
      ≡ (release_state alice (shared_states storage)).0)
    × Locks 0
        (release_lock 0 storage alice shared_world).1
        (with_state shared_states storage (release_state alice (shared_states storage)).1)
        (if is_held (release_state alice (shared_states storage)).1
          then storage ∷ []
          else remove_first storage (storage ∷ []))
release_lock-Locks_example =
    release_lock-Locks 0 storage alice short shared_states (storage ∷ []) shared_world shared-Locks

shared_state : shared_states storage ≡ held false alice []
unfolding str_eq
shared_state = refl

granted : (acquire_lock 0 storage false bob shared_world).0 ≡ true
unfolding acquire_state contains str_eq
granted =
    (acquire_lock-Locks 0 storage bob short false shared_states (storage ∷ []) shared_world
      shared-Locks).0

release_lock-acquire_lock_example :
    ((release_lock 0 storage bob (acquire_lock 0 storage false bob shared_world).1).0 ≡ true)
    × (property_find 0
          (lock_key dbus_name_part storage)
          (release_lock 0 storage bob (acquire_lock 0 storage false bob shared_world).1).1
        ≡ property_find 0 (lock_key dbus_name_part storage) shared_world)
    × (property_find 0 named_locks
          (release_lock 0 storage bob (acquire_lock 0 storage false bob shared_world).1).1
        ≡ property_find 0 named_locks shared_world)
release_lock-acquire_lock_example =
    release_lock-acquire_lock 0 storage bob false shared_states (storage ∷ []) shared_world
      dbus_name_part storage short short shared-Locks granted

find-release_locks_example :
    property_find 0
      (lock_key locked_part storage)
      (release_locks 0 alice (storage ∷ []) shared_world)
    ≡ part_property locked_part (release_state alice (shared_states storage)).1
find-release_locks_example =
    find-release_locks 0 alice shared_states (storage ∷ []) shared_world locked_part storage short
      shared-Locks

acquire_lock_failed_exclusive_example :
    ((acquire_lock 0 storage true bob shared_world).0 ≡ false)
    × (is_lock_exclusive 0 storage (acquire_lock 0 storage true bob shared_world).1 ≡ true)
    × ((acquire_lock 0 storage false bob (acquire_lock 0 storage true bob shared_world).1).0
        ≡ false)
acquire_lock_failed_exclusive_example =
    acquire_lock_failed_exclusive 0 storage bob alice [] shared_states (storage ∷ []) shared_world
      false bob short shared-Locks shared_state

locked_devices_first : shared_world.locked_devices ≡ 0 ∷ []
unfolding acquire_lock enter_holders add_to_locked_set strlist_append strlist_add set_bool
    store_value get_bool has_property strlist_contains get_strlist property_find table_insert emit
    deliver emit_unless lookup insert str_eq mem device_new lock_key named_locks
    Property.strlist_append contains
locked_devices_first = refl

client_disconnected_fault_example : client_disconnected alice shared_world ≡ none
client_disconnected_fault_example =
    client_disconnected_fault 0 [] storage alice false shared_states shared_world short
      locked_devices_first shared-Locks shared_state

str_eq-lock_key_example :
    str_eq (lock_key exclusive_part storage) (lock_key locked_part storage)
    ≡ (same_part exclusive_part locked_part && str_eq storage storage)
str_eq-lock_key_example = str_eq-lock_key exclusive_part locked_part storage storage short short
