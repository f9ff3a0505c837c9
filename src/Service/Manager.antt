-- ===== src/Service/Manager.antt =====
-- hald/hald_dbus.c: the queries of org.freedesktop.Hal.Manager.
use hal.Prelude.{
  ℕ, Bool, true, false, Option, none, some, List, [], ◌∷◌, ◌++◌, if◌then◌else◌, Bytes, codes,
  str_eq, Assoc,
}
use hal.Property.{Property, type_string, same_type}
use hal.World.{World, M, gdl, tdl, property_get_type}
use hal.World.Index.{device_get_string}
use hal.Device.{get_udi, has_capability}
use hal.Rules.Path.{find_device}
use hal.Service.{Reply, returned_udis, returned_devices, returned_bool, with_args}

-- The UDIs of the devices of a list that pass the test: a callback of `hal_device_store_foreach`
-- that appends to the reply and goes on.
unfoldable pub udis_of : (ℕ → Bool) → List ℕ → World → List Bytes
udis_of test [] w = []
udis_of test (d ∷ rest) w =
    let later = udis_of test rest w in if test d then get_udi d w ∷ later else later

unfoldable pub manager_get_all_devices : M Reply
unfolding udis_of
manager_get_all_devices w = (returned_udis (udis_of (λ d. true) (w.stores gdl).devices w), w)

unfoldable pub all_properties : List ℕ → World → List (Bytes × Assoc Property)
all_properties [] w = []
all_properties (d ∷ rest) w = (get_udi d w, (w.heap d).props) ∷ all_properties rest w

unfoldable pub manager_get_all_devices_with_properties : M Reply
unfolding all_properties
manager_get_all_devices_with_properties w =
    (returned_devices (all_properties (w.stores gdl).devices w), w)

-- `foreach_device_match_get_udi`
unfoldable pub has_match : Bytes → Bytes → World → ℕ → Bool
has_match key value w d =
    if same_type (property_get_type d key w) type_string
    then elim (device_get_string d key w) [ none ↦ false | some dev_value ↦ str_eq dev_value value ]
    else false

abbrev pub temp_udi : Bytes
temp_udi = codes "/org/freedesktop/Hal/devices/temp"

-- `foreach_device_match_get_udi_tdl`: the length that it gives to `strncmp` counts the byte behind
-- the text, so that only this UDI itself is skipped.
unfoldable pub has_match_tdl : Bytes → Bytes → World → ℕ → Bool
unfolding has_match
has_match_tdl key value w d =
    if str_eq (get_udi d w) temp_udi then false else has_match key value w d

unfoldable pub manager_find_device_string_match : Option (Bytes × Bytes) → M Reply
unfolding udis_of has_match_tdl
manager_find_device_string_match args = with_args args (λ (key, value) w. (
  returned_udis (
      udis_of (has_match key value w) (w.stores gdl).devices w
      ++ udis_of (has_match_tdl key value w) (w.stores tdl).devices w),
  w,
))

unfoldable pub manager_find_device_by_capability : Option Bytes → M Reply
unfolding udis_of
manager_find_device_by_capability args = with_args args (λ capability w.
    (returned_udis (udis_of (λ d. has_capability d capability w) (w.stores gdl).devices w), w))

unfoldable pub manager_device_exists : Option Bytes → M Reply
manager_device_exists args =
    with_args args
      (λ udi w. (returned_bool (elim (find_device udi w) [ none ↦ false | some d ↦ true ]), w))
