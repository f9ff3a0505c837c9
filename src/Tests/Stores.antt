-- ===== src/Tests/Stores.antt =====
-- Runs of the store operations of hald/device_store.c.
use hal.Prelude.{
  true, false, not, [], if◌then◌else◌, lookup, insert, starts_with, ◌≡◌, refl, ◌&&◌, some, codes,
  str_eq,
}
use hal.World.{
  property_find, property_get_type, table_insert, gdl, same_store, mem, owns_entry, frees_index_key,
}
use hal.World.Index.{
  index_of, indexed, put_index, index_modify_string, device_get_string, remove_all, has_string,
}
use hal.World.Emit.{deliver, handle, emit}
use hal.World.Consistent.{IsConsistent}
use hal.Device.{get_udi, device_new}
use hal.Device.Set.{set_udi, set_string, store_value}
use hal.Property.Utf8.{stored_string, sanitize}
use hal.Store.{
  disconnect, remove_device, disconnect_all, unref, owns_entries, connect, check_all, check_keys,
  first, store_add, store_remove, store_find, index_property, match_key_value_string,
  match_multiple_key_value_string,
}
use hal.Store.Keep.{store_add-IsConsistent, store_remove-IsConsistent, index_property-IsConsistent}
use hal.Store.Search.{
  Found, match_key_value_string-Found, mem-match_multiple_key_value_string, store_find-Found,
}
use hal.System.{
  run, op_new, initial, op_set_string, Reach-tables, Reach-IsConsistent,
  Reach-match_key_value_string,
}
use hal.Tests.Fixture.{
  ascii, subsystem, udi, named_world, stored_world, renamed_world, nothing_connected,
  named_world-Reach, stored_world-Reach, shared_world, shared_world-Reach, renamed_world-Reach,
  below_next, not_stored, new_world-Reach,
}

-- The second device does not own the key of the entry that it leaves.
keys_live : renamed_world.may_dangle ≡ false
unfolding run device_new index_property index_of put_index set_udi set_string store_value
    property_find lookup insert table_insert emit deliver handle index_modify_string
    property_get_type device_get_string stored_string sanitize mem str_eq store_add connect
    check_all check_keys starts_with get_udi remove_all owns_entry frees_index_key
keys_live = refl

Reach-match_key_value_string_example :
    Found
      (λ e. has_string e subsystem (codes "pci") renamed_world)
      (renamed_world.stores gdl).devices
      (match_key_value_string gdl subsystem (codes "pci") renamed_world)
Reach-match_key_value_string_example =
    Reach-match_key_value_string ascii gdl subsystem (codes "pci") keys_live renamed_world-Reach

Reach-IsConsistent_example : IsConsistent renamed_world
Reach-IsConsistent_example = Reach-IsConsistent ascii keys_live renamed_world-Reach

named_world-IsConsistent : IsConsistent named_world
named_world-IsConsistent = Reach-tables ascii named_world-Reach

stored_world-IsConsistent : IsConsistent stored_world
stored_world-IsConsistent = Reach-tables ascii stored_world-Reach

mem-match_multiple_key_value_string_example :
    mem 0 (match_multiple_key_value_string gdl subsystem (codes "usb") stored_world)
    ≡ (mem 0 (stored_world.stores gdl).devices && has_string 0 subsystem (codes "usb") stored_world)
mem-match_multiple_key_value_string_example =
    mem-match_multiple_key_value_string gdl subsystem (codes "usb") stored_world 0
      stored_world-IsConsistent

match_key_value_string-Found_example :
    Found
      (λ e. has_string e subsystem (codes "usb") stored_world)
      (stored_world.stores gdl).devices
      (match_key_value_string gdl subsystem (codes "usb") stored_world)
match_key_value_string-Found_example =
    match_key_value_string-Found gdl subsystem (codes "usb") stored_world stored_world-IsConsistent

store_find-Found_example :
    Found
      (λ e. str_eq (get_udi e stored_world) udi)
      (stored_world.stores gdl).devices
      (store_find gdl udi stored_world)
store_find-Found_example = store_find-Found gdl udi stored_world

store_add-IsConsistent_example : IsConsistent (store_add gdl 0 named_world)
store_add-IsConsistent_example =
    store_add-IsConsistent gdl 0 named_world below_next not_stored named_world-IsConsistent

second_removed : (store_remove gdl 1 shared_world).1.may_dangle ≡ false
unfolding run device_new index_property index_of put_index set_udi set_string store_value
    property_find lookup insert table_insert emit deliver handle index_modify_string
    property_get_type device_get_string stored_string sanitize mem str_eq store_add connect
    check_all check_keys starts_with get_udi remove_all owns_entry frees_index_key store_remove
    disconnect remove_device disconnect_all unref owns_entries
second_removed = refl

store_remove-IsConsistent_example : IsConsistent (store_remove gdl 1 shared_world).1
store_remove-IsConsistent_example =
    store_remove-IsConsistent gdl 1 shared_world second_removed
      (Reach-tables ascii shared_world-Reach)

index_property-IsConsistent_example :
    IsConsistent (index_property gdl subsystem (run ascii op_new initial))
    × (index_of gdl subsystem (index_property gdl subsystem (run ascii op_new initial)) ≡ (
        if same_store gdl gdl
          && str_eq subsystem subsystem
          && not (indexed gdl subsystem (run ascii op_new initial))
        then some []
        else index_of gdl subsystem (run ascii op_new initial)))
index_property-IsConsistent_example =
    index_property-IsConsistent gdl gdl subsystem subsystem (run ascii op_new initial)
      nothing_connected (Reach-tables ascii new_world-Reach)

-- The first device owns the key of the entry that it shares.
owner_renamed_dangles :
    (run ascii (op_set_string 0 subsystem (some (codes "pci"))) shared_world).may_dangle ≡ true
unfolding run device_new index_property index_of put_index set_udi set_string store_value
    property_find lookup insert table_insert emit deliver handle index_modify_string
    property_get_type device_get_string stored_string sanitize mem str_eq store_add connect
    check_all check_keys starts_with get_udi remove_all owns_entry frees_index_key
owner_renamed_dangles = refl

owner_removed_dangles : (store_remove gdl 0 shared_world).1.may_dangle ≡ true
unfolding run device_new index_property index_of put_index set_udi set_string store_value
    property_find lookup insert table_insert emit deliver handle index_modify_string
    property_get_type device_get_string stored_string sanitize mem str_eq store_add connect
    check_all check_keys starts_with get_udi remove_all owns_entry frees_index_key store_remove
    disconnect remove_device disconnect_all unref owns_entries
owner_removed_dangles = refl

-- The index follows the change of the value.
renamed_found : match_key_value_string gdl subsystem (codes "pci") renamed_world ≡ some 1
unfolding run device_new index_property index_of put_index set_udi set_string store_value
    property_find lookup insert table_insert emit deliver handle index_modify_string
    property_get_type device_get_string stored_string sanitize mem str_eq store_add connect
    check_all check_keys starts_with get_udi remove_all first match_key_value_string
renamed_found = refl

old_value_found_first : match_key_value_string gdl subsystem (codes "usb") renamed_world ≡ some 0
unfolding run device_new index_property index_of put_index set_udi set_string store_value
    property_find lookup insert table_insert emit deliver handle index_modify_string
    property_get_type device_get_string stored_string sanitize mem str_eq store_add connect
    check_all check_keys starts_with get_udi remove_all first match_key_value_string
old_value_found_first = refl
