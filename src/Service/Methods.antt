-- ===== src/Service/Methods.antt =====
-- hald/hald_dbus.c: `hald_dbus_filter_handle_methods`, the choice of the handler.
use hal.Prelude.{Bool, true, false, Option, List, Bytes}
use hal.Property.Utf8.{Utf8}
use hal.World.{M}
use hal.Access.{Site}
use hal.Service.{Reply, Request, Argument}
use hal.Service.Manager.{
  manager_get_all_devices, manager_get_all_devices_with_properties,
  manager_find_device_string_match, manager_find_device_by_capability, manager_device_exists,
}
use hal.Service.Properties.{
  device_get_all_properties, device_get_property, device_get_property_type, device_property_exists,
  device_query_capability,
}
use hal.Service.Change.{
  device_set_multiple_properties, device_set_property, device_add_capability,
  device_string_list_append_prepend, device_string_list_remove, device_remove_property,
}
use hal.Service.Interface.{
  device_acquire_interface_lock, device_release_interface_lock, device_is_caller_locked_out,
  device_is_caller_privileged, device_is_locked_by_others, device_acquire_global_interface_lock,
  device_release_global_interface_lock,
}
use hal.Service.Owner.{Bus, device_lock, device_unlock}

-- The methods that read or change the devices, their properties and their locks. NewDevice, Remove
-- and CommitToGdl, which create devices and move them between the lists, are not among them, nor are
-- Rescan, Reprobe, EmitCondition, AddonIsReady and SingletonAddonIsReady; Remove is in
-- hal.Service.Removal and ClaimInterface in hal.Service.Helper.
--
-- A method with its arguments, `none` for arguments of other types than the method's. The methods
-- with a type in their name, `GetPropertyString` and so on, are the one without.
pub data Method : Type 0 where
  get_all_devices get_all_devices_with_properties get_all_properties is_caller_privileged : Method
  device_exists find_device_by_capability : Option Bytes → Method
  get_property get_property_type property_exists query_capability : Option Bytes → Method
  add_capability remove_property : Option Bytes → Method
  release_interface_lock release_global_interface_lock is_locked_by_others lock :
      Option Bytes → Method
  find_device_string_match is_caller_locked_out : Option (Bytes × Bytes) → Method
  string_list_append string_list_prepend string_list_remove : Option (Bytes × Bytes) → Method
  set_property : Option (Bytes × Argument) → Method
  set_multiple_properties : Option (List (Bytes × Argument)) → Method
  acquire_interface_lock acquire_global_interface_lock : Option (Bytes × Bool) → Method
  unlock : Bool → Method

-- A handler of the world alone.
abbrev pub on_world : M Reply → Bus → Reply × Bus
on_world m b = let (reply, w) = m b.world in (reply, record b { world = w })

module _ (utf8 : Utf8) (site : Site) where
  unfoldable pub handle_method : Method → Request → Bus → Reply × Bus
  unfolding manager_get_all_devices device_lock device_unlock
  handle_method get_all_devices r b = on_world manager_get_all_devices b
  handle_method get_all_devices_with_properties r b =
      on_world manager_get_all_devices_with_properties b
  handle_method (device_exists args) r b = on_world (manager_device_exists args) b
  handle_method (find_device_string_match args) r b =
      on_world (manager_find_device_string_match args) b
  handle_method (find_device_by_capability args) r b =
      on_world (manager_find_device_by_capability args) b
  handle_method (acquire_global_interface_lock args) r b =
      on_world (device_acquire_global_interface_lock r args) b
  handle_method (release_global_interface_lock args) r b =
      on_world (device_release_global_interface_lock r args) b
  handle_method (acquire_interface_lock args) r b =
      on_world (device_acquire_interface_lock site r args) b
  handle_method (release_interface_lock args) r b =
      on_world (device_release_interface_lock r args) b
  handle_method (is_caller_locked_out args) r b =
      on_world (device_is_caller_locked_out site r args) b
  handle_method is_caller_privileged r b = on_world device_is_caller_privileged b
  handle_method (is_locked_by_others args) r b = on_world (device_is_locked_by_others site r args) b
  handle_method get_all_properties r b = on_world (device_get_all_properties r) b
  handle_method (set_multiple_properties args) r b =
      on_world (device_set_multiple_properties utf8 site r args) b
  handle_method (get_property args) r b = on_world (device_get_property r args) b
  handle_method (set_property args) r b = on_world (device_set_property utf8 site r args) b
  handle_method (remove_property args) r b = on_world (device_remove_property site r args) b
  handle_method (get_property_type args) r b = on_world (device_get_property_type r args) b
  handle_method (property_exists args) r b = on_world (device_property_exists r args) b
  handle_method (add_capability args) r b = on_world (device_add_capability site r args) b
  handle_method (query_capability args) r b = on_world (device_query_capability r args) b
  handle_method (string_list_append args) r b =
      on_world (device_string_list_append_prepend false r args) b
  handle_method (string_list_prepend args) r b =
      on_world (device_string_list_append_prepend true r args) b
  handle_method (string_list_remove args) r b = on_world (device_string_list_remove r args) b
  handle_method (lock args) r b = device_lock utf8 r args b
  handle_method (unlock args) r b = device_unlock r args b
