-- ===== src/Tests/Service.antt =====
-- Runs of the requests of hald/hald_dbus.c.
use hal.Prelude.{
  lookup, insert, starts_with, contains, ◌≡◌, refl, true, false, none, some, [], Bytes, codes,
  str_eq, arith,
}
use hal.Property
use hal.Property.{pos, int32}
use hal.Property.Utf8.{stored_string, sanitize}
use hal.World.{
  frees_index_key, owns_entry, property_find, property_get_type, table_insert, mem, no_duplicates,
}
use hal.World.Index.{index_of, put_index, index_modify_string, device_get_string, remove_all}
use hal.World.Emit.{emit, deliver, handle}
use hal.World.Consistent.{IsConsistent}
use hal.Device.{device_new, get_udi, get_bool, has_property, get_strlist, strlist_contains}
use hal.Device.Set.{set_udi, set_string, set_bool, set_int, store_value}
use hal.Device.Strlist.{strlist_append, strlist_add, emit_unless}
use hal.Store.{index_property, store_add, connect, check_all, check_keys, store_find, first_device}
use hal.Lock.{enter_holders, add_to_locked_set, lock_key, named_locks, acquire_lock}
use hal.Lock.Key.{IsShort}
use hal.Lock.View.{free, Locks, all_distinct}
use hal.Access.{
  Site, computer_udi, find_computer, caller_is_root_or_hal, message_caller_is_root_or_hal,
  have_access_to_device,
}
use hal.Rules.Path.{find_device}
use hal.System.{run, Reach-tables}
use hal.Service.{
  Request, arg_int32, returned_bool, returned_value, is_trusted, on_device, with_args, with_sender,
  if_privileged, returned, permission_denied,
}
use hal.Service.Change.{set_argument, device_set_property}
use hal.Service.Properties.{device_get_property}
use hal.Service.Interface.{device_acquire_interface_lock, device_is_caller_locked_out}
use hal.Service.Owner.{Bus, info_locked, device_lock, device_unlock}
use hal.Service.Held.{IsUnlocked}
use hal.Service.Release.{device_lock-excludes, device_unlock-device_lock}
use hal.Service.Cases.{is_returned, Refused}
use hal.Service.Methods.{Method, set_property, lock, handle_method}
use hal.Service.Keep.{handle_method-IsConsistent}
use hal.Service.Place.{find_device-handle_method}
use hal.Service.Privilege.{handle_method-untrusted}
use hal.Service.Refused.{is_refusal, handle_method-is_refusal}
use hal.Service.Sequence.{device_is_caller_locked_out-acquire}
use hal.Service.Roundtrip.{device_get_property-device_set_property}
use hal.Tests.Fixture.{ascii, stored_world, stored_world-Reach, two_devices}

-- A user in an active local session.
abbrev site : Site
site = record {
  have_conkit = true;
  euid = 68;
  get_info = λ name. some (record {
    uid = 1000;
    session_objpath = some (codes "/Session1");
    is_local = true;
    in_active_session = true;
  });
}

abbrev alice : Bytes
alice = codes ":1.1"

abbrev of_alice : Bytes → Request
of_alice path = record { path = path; sender = some alice; local_interface = false }

abbrev of_helper : Bytes → Request
of_helper path = record { path = path; sender = none; local_interface = true }

abbrev udi : Bytes
udi = codes "/org/freedesktop/Hal/devices/a"

abbrev bus : Bus
bus = record { world = stored_world; services_with_locks = []; is_corrupt = false }

abbrev level : Bytes
level = codes "level"

abbrev set_level : Method
set_level = set_property (some (level, arg_int32 (pos 7)))

bus-IsConsistent : IsConsistent stored_world
bus-IsConsistent = Reach-tables ascii stored_world-Reach

nothing_freed : (handle_method ascii site set_level (of_helper udi) bus).1.world.may_dangle ≡ false
unfolding handle_method run device_new index_property index_of put_index set_udi set_string
    store_value property_find lookup insert table_insert emit deliver handle index_modify_string
    property_get_type device_get_string stored_string sanitize mem str_eq store_add connect
    check_all check_keys starts_with get_udi remove_all owns_entry frees_index_key find_device
    store_find first_device device_set_property with_args on_device if_privileged set_argument
    set_int
nothing_freed = refl

handle_method-IsConsistent_example :
    IsConsistent (handle_method ascii site set_level (of_helper udi) bus).1.world
handle_method-IsConsistent_example =
    handle_method-IsConsistent ascii site set_level (of_helper udi) bus nothing_freed
      bus-IsConsistent

find_device-handle_method_example :
    find_device udi
      (handle_method ascii site (lock (some (codes "backup"))) (of_alice udi) bus).1.world
    ≡ find_device udi stored_world
find_device-handle_method_example =
    find_device-handle_method ascii site (lock (some (codes "backup"))) (of_alice udi) bus udi

alice_untrusted : is_trusted site (of_alice udi) ≡ false
unfolding message_caller_is_root_or_hal caller_is_root_or_hal
alice_untrusted = refl

handle_method-untrusted_example :
    (is_refusal (handle_method ascii site set_level (of_alice udi) bus).0 ≡ true)
    × ((handle_method ascii site set_level (of_alice udi) bus).1 ≡ bus)
handle_method-untrusted_example =
    handle_method-untrusted ascii site set_level (of_alice udi) bus refl alice_untrusted

abbrev desk : Bus
desk = record { world = two_devices; services_with_locks = []; is_corrupt = false }

unlock_refused :
    is_refusal (handle_method ascii site (Method.unlock true) (of_alice computer_udi) desk).0 ≡ true
unfolding handle_method run device_new set_udi set_string store_value property_find lookup insert
    table_insert emit deliver stored_string sanitize mem str_eq store_add connect check_all
    check_keys starts_with get_udi find_device store_find first_device get_bool
unlock_refused = refl

handle_method-is_refusal_example :
    (handle_method ascii site (Method.unlock true) (of_alice computer_udi) desk).1 ≡ desk
handle_method-is_refusal_example =
    handle_method-is_refusal ascii site (Method.unlock true) (of_alice computer_udi) desk
      unlock_refused

abbrev usb : Bytes
usb = codes "usb"

device_found : find_device computer_udi two_devices ≡ some 0
unfolding run device_new set_udi set_string store_value property_find lookup insert table_insert
    emit deliver stored_string sanitize mem str_eq store_add connect check_all check_keys
    starts_with get_udi find_device store_find first_device
device_found = refl

level_set :
    is_returned
      (device_set_property ascii site
        (of_helper computer_udi)
        (some (level, arg_int32 (pos 7)))
        two_devices).0
    ≡ true
unfolding run device_new set_udi set_string store_value property_find lookup insert table_insert
    emit deliver stored_string sanitize mem str_eq store_add connect check_all check_keys
    starts_with get_udi find_device store_find first_device device_set_property with_args on_device
    if_privileged set_argument set_int
level_set = refl

device_get_property-device_set_property_example :
    (device_get_property
      (of_alice computer_udi)
      (some level)
      (device_set_property ascii site
        (of_helper computer_udi)
        (some (level, arg_int32 (pos 7)))
        two_devices).1).0
    ≡ returned_value (int32 (pos 7))
device_get_property-device_set_property_example =
    device_get_property-device_set_property ascii site (of_helper computer_udi)
      (of_alice computer_udi) 0 level (arg_int32 (pos 7)) two_devices device_found refl refl
      level_set

abbrev storage : Bytes
storage = codes "org.freedesktop.Hal.Device.Storage"

computer-Locks : Locks 0 two_devices (λ n. free) []
unfolding run device_new set_udi set_string store_value property_find lookup insert table_insert
    emit deliver stored_string sanitize mem str_eq store_add connect check_all check_keys
    starts_with get_udi contains all_distinct no_duplicates lock_key named_locks
computer-Locks = record {
  parts = λ p n h. refl;
  held_names = λ n h. refl;
  short_names = λ n h. absurd (ground arith);
  distinct = refl;
  list = refl;
  in_locked_set = refl;
  locked_set_distinct = refl;
}

acquired :
    is_returned
      (device_acquire_interface_lock site
        (of_alice computer_udi)
        (some (storage, false))
        two_devices).0
    ≡ true
unfolding run device_new set_udi set_string store_value property_find lookup insert table_insert
    emit deliver stored_string sanitize mem str_eq store_add connect check_all check_keys
    starts_with get_udi find_device store_find first_device contains acquire_lock enter_holders
    add_to_locked_set strlist_append strlist_add set_bool get_bool has_property strlist_contains
    get_strlist emit_unless lock_key named_locks Property.strlist_append
    device_acquire_interface_lock on_device with_args with_sender have_access_to_device handle
    property_get_type
acquired = refl

computer_found : find_computer two_devices ≡ some 0
unfolding run device_new set_udi set_string store_value property_find lookup insert table_insert
    emit deliver stored_string sanitize mem str_eq store_add connect check_all check_keys
    starts_with get_udi find_computer store_find first_device
computer_found = refl

short : IsShort storage
short = omega arith

device_is_caller_locked_out-acquire_example :
    (device_is_caller_locked_out site
      (of_helper computer_udi)
      (some (storage, alice))
      (device_acquire_interface_lock site
        (of_alice computer_udi)
        (some (storage, false))
        two_devices).1).0
    ≡ returned_bool false
device_is_caller_locked_out-acquire_example =
    device_is_caller_locked_out-acquire site (of_alice computer_udi) storage alice false 0
      two_devices device_found refl (of_helper computer_udi) 0 (λ n. free) [] short computer-Locks
      computer_found refl refl acquired

abbrev backup : Bytes
backup = codes "backup"

desk-IsUnlocked : IsUnlocked 0 two_devices
unfolding run device_new set_udi set_string store_value property_find lookup insert table_insert
    emit deliver stored_string sanitize mem str_eq store_add connect check_all check_keys
    starts_with get_udi
desk-IsUnlocked = record { flag = refl; reason = refl; owner = refl }

alice_plain : stored_string ascii (some alice) ≡ alice
unfolding stored_string sanitize
alice_plain = refl

abbrev taken : Bus
taken = (device_lock ascii (of_alice computer_udi) (some backup) desk).1

abbrev of_bob : Request
of_bob = record { path = computer_udi; sender = some (codes ":1.2"); local_interface = false }

others : str_eq (codes ":1.2") alice ≡ false
unfolding str_eq
others = refl

device_lock-excludes_example :
    ((device_lock ascii (of_alice computer_udi) (some backup) desk).0 ≡ returned)
    × Refused taken (device_lock ascii (of_alice computer_udi) (some backup) taken)
    × (device_unlock of_bob true taken ≡ (permission_denied, taken))
device_lock-excludes_example =
    device_lock-excludes ascii (of_alice computer_udi) 0 backup alice desk device_found refl
      desk-IsUnlocked alice_plain (of_alice computer_udi) of_bob (some backup) (codes ":1.2") refl
      refl refl others

device_unlock-device_lock_example :
    ((device_unlock (of_alice computer_udi) true taken).0 ≡ returned)
    × (property_find 0 info_locked (device_unlock (of_alice computer_udi) true taken).1.world
        ≡ property_find 0 info_locked two_devices)
    × ((device_unlock (of_alice computer_udi) true taken).1.is_corrupt ≡ true)
device_unlock-device_lock_example =
    device_unlock-device_lock ascii (of_alice computer_udi) 0 backup alice desk device_found refl
      desk-IsUnlocked alice_plain (of_alice computer_udi) 0 info_locked refl refl
