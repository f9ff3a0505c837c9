-- ===== src/Service/Properties.antt =====
-- hald/hald_dbus.c: the methods of org.freedesktop.Hal.Device that read properties.
use hal.Prelude.{ℕ, Option, [], if◌then◌else◌, Bytes, or_else}
use hal.Property.{
  PropertyType, type_invalid, type_string, type_int32, type_uint64, type_double, type_boolean,
  type_strlist, string, int32, uint64, double, boolean, strlist,
}
use hal.World.{World, M, property_get_type}
use hal.World.Index.{device_get_string}
use hal.Device.{
  has_property, get_int, get_uint64, get_double, get_bool, get_strlist, has_capability,
}
use hal.Service.{
  Reply, Request, no_such_property, returned, returned_bool, returned_type, returned_value,
  returned_properties, on_device, with_args,
}

unfoldable pub device_get_all_properties : Request → M Reply
device_get_all_properties r = on_device r.path (λ d w. (returned_properties (w.heap d).props, w))

-- The `switch` on the type.
unfoldable pub value_of : PropertyType → ℕ → Bytes → World → Reply
value_of type_string d key w = returned_value (string (or_else [] (device_get_string d key w)))
value_of type_int32 d key w = returned_value (int32 (get_int d key w))
value_of type_uint64 d key w = returned_value (uint64 (get_uint64 d key w))
value_of type_double d key w = returned_value (double (get_double d key w))
value_of type_boolean d key w = returned_value (boolean (get_bool d key w))
value_of type_strlist d key w = returned_value (strlist (get_strlist d key w))
value_of type_invalid d key w = returned

unfoldable pub device_get_property : Request → Option Bytes → M Reply
unfolding value_of
device_get_property r args = on_device r.path (λ d. with_args args (λ key w.
    if has_property d key w
    then (value_of (property_get_type d key w) d key w, w)
    else (no_such_property r.path key, w)))

unfoldable pub device_get_property_type : Request → Option Bytes → M Reply
device_get_property_type r args = on_device r.path (λ d. with_args args (λ key w.
    if has_property d key w
    then (returned_type (property_get_type d key w), w)
    else (no_such_property r.path key, w)))

unfoldable pub device_property_exists : Request → Option Bytes → M Reply
device_property_exists r args =
    on_device r.path (λ d. with_args args (λ key w. (returned_bool (has_property d key w), w)))

-- The loop over the list's iterator stops at the first equal element.
unfoldable pub device_query_capability : Request → Option Bytes → M Reply
device_query_capability r args =
    on_device r.path
      (λ d. with_args args (λ capability w. (returned_bool (has_capability d capability w), w)))
