-- ===== src/Tests/Access.antt =====
-- Runs of the access checks of hald/access-check.c.
use hal.Prelude.{
  lookup, insert, starts_with, contains, ◌≡◌, refl, true, false, not, ◌&&◌, some, [], Bytes, codes,
  str_eq, arith,
}
use hal.Property
use hal.Property.Utf8.{stored_string, sanitize}
use hal.World.{World, property_find, table_insert, mem, no_duplicates}
use hal.World.Emit.{emit, deliver}
use hal.Device.{
  device_new, get_udi, get_bool, has_property, get_strlist, strlist_contains, dup_strlist_as_strv,
}
use hal.Device.Set.{set_udi, set_string, set_bool, store_value}
use hal.Device.Strlist.{strlist_append, strlist_add, emit_unless}
use hal.Store.{store_add, connect, check_all, check_keys, store_find, first_device}
use hal.Lock.{
  enter_holders, add_to_locked_set, lock_key, named_locks, acquire_lock, get_lock_holders,
}
use hal.Lock.Key.{IsShort}
use hal.Lock.View.{free, Locks, acquire_state, all_distinct}
use hal.Lock.Acquire.{acquire_lock-Locks}
use hal.Access.{Site, find_computer, caller_locked_out, locked_by_others, scan_holders, scan_global}
use hal.Access.Locked.{
  other_holds, holds_itself, caller_locked_out_lem, caller_locked_out-locked_by_others,
}
use hal.Access.Granted.{caller_locked_out-acquire_lock}
use hal.System.{run}
use hal.Tests.Fixture.{two_devices}

abbrev storage : Bytes
storage = codes "org.freedesktop.Hal.Device.Storage"

abbrev alice : Bytes
alice = codes ":1.1"

abbrev bob : Bytes
bob = codes ":1.2"

short : IsShort storage
short = omega arith

-- Two users, each in an active local session.
abbrev site : Site
site = record {
  have_conkit = true;
  euid = 68;
  get_info = λ name. some (record {
    uid = 1000;
    session_objpath = some (codes "/Session1");
    is_local = true;
    in_active_session = true;
  });
}

two_devices-Locks : Locks 1 two_devices (λ n. free) []
unfolding run device_new set_udi set_string store_value property_find lookup insert table_insert
    emit deliver stored_string sanitize mem str_eq store_add connect check_all check_keys
    starts_with get_udi contains all_distinct no_duplicates
two_devices-Locks = record {
  parts = λ p n h. refl;
  held_names = λ n h. refl;
  short_names = λ n h. absurd (ground arith);
  distinct = refl;
  list = refl;
  in_locked_set = refl;
  locked_set_distinct = refl;
}

abbrev locked_world : World
locked_world = (acquire_lock 1 storage false alice two_devices).1

granted : (acquire_lock 1 storage false alice two_devices).0 ≡ true
unfolding acquire_state
granted =
    (acquire_lock-Locks 1 storage alice short false (λ n. free) [] two_devices two_devices-Locks).0

computer_found : find_computer locked_world ≡ some 0
unfolding run device_new set_udi set_string store_value property_find lookup insert table_insert
    emit deliver stored_string sanitize mem str_eq store_add connect check_all check_keys
    starts_with get_udi contains acquire_lock enter_holders add_to_locked_set strlist_append
    strlist_add set_bool get_bool has_property strlist_contains get_strlist emit_unless lock_key
    named_locks Property.strlist_append find_computer store_find first_device
computer_found = refl

caller_locked_out-acquire_lock_example : caller_locked_out site 1 alice storage locked_world ≡ false
caller_locked_out-acquire_lock_example =
    caller_locked_out-acquire_lock site 1 0 alice storage false (λ n. free) [] two_devices short
      two_devices-Locks granted computer_found

caller_locked_out_lem_example : caller_locked_out site 1 bob storage locked_world ≡ (
    other_holds site 1 0 bob storage locked_world
    && not (holds_itself site 1 0 bob storage locked_world))
caller_locked_out_lem_example =
    caller_locked_out_lem site 1 0 bob storage locked_world computer_found

bob_locked_out : caller_locked_out site 1 bob storage locked_world ≡ true
unfolding run device_new set_udi set_string store_value property_find lookup insert table_insert
    emit deliver stored_string sanitize mem str_eq store_add connect check_all check_keys
    starts_with get_udi contains acquire_lock enter_holders add_to_locked_set strlist_append
    strlist_add set_bool get_bool has_property strlist_contains get_strlist emit_unless lock_key
    named_locks Property.strlist_append find_computer store_find first_device caller_locked_out
    scan_holders scan_global get_lock_holders dup_strlist_as_strv
bob_locked_out = refl

caller_locked_out-locked_by_others_example :
    locked_by_others site 1 (some bob) storage locked_world ≡ true
caller_locked_out-locked_by_others_example =
    caller_locked_out-locked_by_others site 1 bob storage locked_world bob_locked_out
