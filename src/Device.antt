-- ===== src/Device.antt =====
-- hald/device.c: a device's state and what can be read from it; the changes are in the modules
-- below.
pub mod Set
pub mod Strlist
pub mod Merge
pub mod Keep
pub mod Find
pub mod Dangling
pub mod Locked
pub mod Print
pub mod Failing
pub mod Quiet
pub mod Place
use hal.Prelude.{
  ℕ, ◌+◌, ◌≡◌, refl, Bool, true, false, not, ◌&&◌, Option, none, some, List, [], ◌∷◌, ◌++◌, ◌==◌,
  if◌then◌else◌, ltb, Bytes, codes, contains, length, get_elem?, update, or_else,
}
use hal.Property.{
  ℤ, negsuc, Property, decimal, property_get_int, property_get_uint64, uint64_max,
  property_get_bool, property_get_strlist, property_get_double, minus_one, property_to_string,
}
use hal.World.{Device, World, M, put_device, property_find}

-- `hal_device_new` with `hal_device_init`: the new device's number.
unfoldable pub device_new : M ℕ
device_new w = (
  w.next,
  record w {
    heap = update w.heap w.next (record {
      udi = codes "/org/freedesktop/Hal/devices/temp/" ++ decimal w.temp_device_counter;
      num_addons = 0;
      num_addons_ready = 0;
      props = [];
    });
    next = w.next + 1;
    temp_device_counter = w.temp_device_counter + 1;
  },
)

unfoldable pub get_udi : ℕ → World → Bytes
get_udi d w = (w.heap d).udi

unfoldable pub num_properties : ℕ → World → ℕ
num_properties d w = length (w.heap d).props

unfoldable pub has_property : ℕ → Bytes → World → Bool
has_property d key w = elim (property_find d key w) [ none ↦ false | some _ ↦ true ]

-- The typed getters: -1, FALSE or -1.0 for a missing key and for a key of another type.
unfoldable pub get_int : ℕ → Bytes → World → ℤ
get_int d key w = elim (property_find d key w) [ none ↦ negsuc 0 | some p ↦ property_get_int p ]

unfoldable pub get_uint64 : ℕ → Bytes → World → ℕ
get_uint64 d key w = elim (property_find d key w) [
  | none ↦ uint64_max
  | some p ↦ property_get_uint64 p
]

unfoldable pub get_bool : ℕ → Bytes → World → Bool
get_bool d key w = elim (property_find d key w) [ none ↦ false | some p ↦ property_get_bool p ]

unfoldable pub get_double : ℕ → Bytes → World → ℕ
get_double d key w = elim (property_find d key w) [
  | none ↦ minus_one
  | some p ↦ property_get_double p
]

-- `hal_device_property_get_strlist`: NULL is the empty list.
unfoldable pub get_strlist : ℕ → Bytes → World → List Bytes
get_strlist d key w = elim (property_find d key w) [ none ↦ [] | some p ↦ property_get_strlist p ]

unfoldable pub get_strlist_length : ℕ → Bytes → World → ℕ
unfolding get_strlist
get_strlist_length d key w = length (get_strlist d key w)

unfoldable pub strlist_contains : ℕ → Bytes → Bytes → World → Bool
unfolding get_strlist
strlist_contains d key value w = contains value (get_strlist d key w)

unfoldable pub get_strlist_elem : ℕ → Bytes → ℕ → World → Option Bytes
unfolding get_strlist
get_strlist_elem d key index w = get_elem? (get_strlist d key w) index

-- `hal_device_property_dup_strlist_as_strv`: NULL for an empty list.
unfoldable pub dup_strlist_as_strv : ℕ → Bytes → World → Option (List Bytes)
unfolding get_strlist
dup_strlist_as_strv d key w = elim (get_strlist d key w) [ [] ↦ none | x ∷ l ↦ some (x ∷ l) ]

unfoldable pub strlist_is_empty : ℕ → Bytes → World → Bool
unfolding get_strlist has_property
strlist_is_empty d key w =
    if has_property d key w then not (ltb 0 (length (get_strlist d key w))) else false

-- `HalDeviceStrListIter` is the rest of the list; its value and its next exist while it is valid.
unfoldable pub iter_init : ℕ → Bytes → World → List Bytes
unfolding get_strlist
iter_init d key w = get_strlist d key w

unfoldable pub iter_is_valid : List Bytes → Bool
iter_is_valid [] = false
iter_is_valid (x ∷ l) = true

unfoldable pub iter_get_value : List Bytes → Option Bytes
iter_get_value [] = none
iter_get_value (x ∷ l) = some x

unfoldable pub iter_next : List Bytes → List Bytes
iter_next [] = []
iter_next (x ∷ l) = l

unfoldable pub has_capability : ℕ → Bytes → World → Bool
unfolding get_strlist
has_capability d capability w = contains capability (get_strlist d (codes "info.capabilities") w)

unfoldable pub to_string : (ℕ → Bytes) → ℕ → Bytes → World → Option Bytes
unfolding property_to_string
to_string print_double d key w = elim (property_find d key w) [
  | none ↦ none
  | some p ↦ some (property_to_string print_double p)
]

-- The add-ons of a device, and how many have said that they are ready.
unfoldable pub inc_num_addons : ℕ → World → World
inc_num_addons d w = put_device d (record (w.heap d) { num_addons = (w.heap d).num_addons + 1 }) w

unfoldable pub are_all_addons_ready : ℕ → World → Bool
are_all_addons_ready d w = (w.heap d).num_addons_ready == (w.heap d).num_addons

unfoldable pub inc_num_ready_addons : ℕ → M Bool
unfolding are_all_addons_ready
inc_num_ready_addons d w = if are_all_addons_ready d w then (false, w) else (
  true,
  put_device d (record (w.heap d) { num_addons_ready = (w.heap d).num_addons_ready + 1 }) w,
)
