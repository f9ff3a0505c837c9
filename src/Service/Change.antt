-- ===== src/Service/Change.antt =====
-- hald/hald_dbus.c: the methods of org.freedesktop.Hal.Device that change properties.
use hal.Prelude.{ℕ, Bool, true, false, not, ◌&&◌, Option, some, List, [], ◌∷◌, if◌then◌else◌, Bytes}
use hal.Property.{type_strlist, same_type}
use hal.Property.Utf8.{Utf8}
use hal.World.{World, M, property_get_type}
use hal.Device.{has_property}
use hal.Device.Set.{set_string, set_int, set_uint64, set_double, set_bool, property_remove}
use hal.Device.Strlist.{
  strlist_append, strlist_prepend, strlist_remove, strlist_clear, strlist_append_finish_changeset,
  add_capability,
}
use hal.Access.{Site}
use hal.Service.{
  Reply, Request, Argument, arg_string, arg_int32, arg_uint64, arg_double, arg_boolean, arg_strings,
  arg_other, returned, no_such_property, property_type_error, on_device, with_args, if_privileged,
  or_error,
}

unfoldable pub append_each : ℕ → Bytes → List Bytes → World → World
append_each d key [] w = w
append_each d key (v ∷ rest) w = append_each d key rest (strlist_append d key v true w).1

-- An array: the list is cleared and filled, and the end of the change is told where the key was
-- new or had a list.
unfoldable pub set_strings : ℕ → Bytes → List Bytes → World → World
unfolding append_each
set_strings d key l w =
    let is_error =
      has_property d key w && not (same_type (property_get_type d key w) type_strlist) in
    let filled = append_each d key l (strlist_clear d key true w).1 in
    if is_error
    then filled
    else (strlist_append_finish_changeset d key (not (has_property d key w)) filled).1

module _ (utf8 : Utf8) where
  -- The `switch` on the type of the argument, in `device_set_property`.
  unfoldable pub set_argument : ℕ → Bytes → Argument → M Bool
  set_argument d key (arg_string v) w = set_string utf8 d key (some v) w
  set_argument d key (arg_int32 v) w = set_int d key v w
  set_argument d key (arg_uint64 v) w = set_uint64 d key v w
  set_argument d key (arg_double v) w = set_double d key v w
  set_argument d key (arg_boolean v) w = set_bool d key v w
  set_argument d key (arg_strings l) w = (false, w)
  set_argument d key arg_other w = (false, w)

  -- The same in `device_set_multiple_properties`, which does not look at the results.
  unfoldable pub set_entry : ℕ → Bytes → Argument → World → World
  unfolding set_strings set_argument
  set_entry d key (arg_strings l) w = set_strings d key l w
  set_entry d key v w = (set_argument d key v w).1

  unfoldable pub set_entries : ℕ → List (Bytes × Argument) → World → World
  unfolding set_entry
  set_entries d [] w = w
  set_entries d ((key, v) ∷ rest) w = set_entries d rest (set_entry d key v w)

  -- The test of the arguments refuses only what is no array: an array of other elements is one
  -- without entries.
  unfoldable pub device_set_multiple_properties :
      Site → Request → Option (List (Bytes × Argument)) → M Reply
  unfolding set_entries
  device_set_multiple_properties site r args = on_device r.path (λ d.
      if_privileged site r (with_args args (λ entries w. (returned, set_entries d entries w))))

  unfoldable pub device_set_property : Site → Request → Option (Bytes × Argument) → M Reply
  unfolding set_argument
  device_set_property site r args = with_args args (λ (key, v). if_privileged site r (
      on_device r.path (λ d w. or_error (property_type_error r.path key) (set_argument d key v w))))

unfoldable pub device_add_capability : Site → Request → Option Bytes → M Reply
device_add_capability site r args = if_privileged site r (
    on_device r.path
      (λ d. with_args args (λ capability w. (returned, add_capability d capability w))))

-- These two do not ask who the caller is.
unfoldable pub device_string_list_append_prepend : Bool → Request → Option (Bytes × Bytes) → M Reply
device_string_list_append_prepend do_prepend r args = on_device r.path (λ d.
    with_args args (λ (key, value) w.
      or_error (property_type_error r.path key)
        (if do_prepend then strlist_prepend d key value w else strlist_append d key value false w)))

unfoldable pub device_string_list_remove : Request → Option (Bytes × Bytes) → M Reply
device_string_list_remove r args = on_device r.path (λ d.
    with_args args
      (λ (key, value) w. or_error (property_type_error r.path key) (strlist_remove d key value w)))

unfoldable pub device_remove_property : Site → Request → Option Bytes → M Reply
device_remove_property site r args = if_privileged site r (
    on_device r.path (λ d.
      with_args args (λ key w. or_error (no_such_property r.path key) (property_remove d key w))))
