-- ===== src/Rules/Merge.antt =====
-- hald/device_info.c: `handle_merge`, the effect of a rule on a device.
use hal.Prelude.{
  ℕ, ◌-◌, Bool, true, false, not, ◌||◌, Option, none, some, ◌++◌, ◌==◌, if◌then◌else◌, Bytes, codes,
  str_eq, length, take,
}
use hal.Property.{type_invalid, type_string, type_strlist, same_type}
use hal.Property.Utf8.{Utf8}
use hal.World.{World, tdl, property_get_type}
use hal.World.Index.{device_get_string}
use hal.Device.{device_new, get_udi, has_property, strlist_contains}
use hal.Device.Set.{
  set_string, set_int, set_uint64, set_bool, set_double, set_udi, property_remove, copy_property,
}
use hal.Device.Strlist.{strlist_append, strlist_prepend, strlist_remove}
use hal.Device.Print.{get_as_string}
use hal.Store.{store_add, store_remove}
use hal.World.{gdl}
use hal.Rules.{
  Rule, MergeType, merge_unknown, merge_string, merge_boolean, merge_int32, merge_uint64,
  merge_double, merge_copy_property, merge_strlist, merge_remove, RuleType, rule_merge, rule_append,
  rule_prepend, rule_remove, rule_addset,
}
use hal.Rules.Text.{Libc, to_int32, hal_path_max}
use hal.Rules.Path.{resolve_udiprop_path, resolve_device, find_device}

-- `strncpy` of the first text, then `strncat` of the second, in a buffer.
abbrev pub join_bounded : Bytes → Bytes → Bytes
join_bounded a b = let a' = take hal_path_max a in a' ++ take (hal_path_max - length a') b

-- May an append or a prepend change the property?
abbrev pub is_text_or_list : ℕ → Bytes → World → Bool
is_text_or_list d key w =
    let t = property_get_type d key w in
    same_type t type_string || same_type t type_strlist || same_type t type_invalid

abbrev pub is_list_or_new : ℕ → Bytes → World → Bool
is_list_or_new d key w =
    let t = property_get_type d key w in same_type t type_strlist || same_type t type_invalid

-- The device and the property that a copy reads.
unfoldable pub copy_source : Bytes → ℕ → World → Option (ℕ × Bytes)
copy_source path d w = elim (resolve_udiprop_path path (get_udi d w) w) [
  | none ↦ none
  | some (udi, key) ↦ elim (find_device udi w) [ none ↦ none | some from ↦ some (from, key) ]
]

-- The two texts in the order of an append or of a prepend.
abbrev pub joined : Bool → Option Bytes → Bytes → Bytes
joined append none text = take hal_path_max text
joined append (some existing) text =
    if append then join_bounded existing text else join_bounded text existing

abbrev pub is_strlist : MergeType → Bool
is_strlist merge_strlist = true
is_strlist _ = false

unfoldable pub addset_rule : ℕ → Bytes → Bytes → World → World
addset_rule d key value w =
    if not (is_list_or_new d key w)
    then w
    else if not (has_property d key w) || not (strlist_contains d key value w)
    then (strlist_append d key value false w).1
    else w

unfoldable pub remove_rule : MergeType → ℕ → Bytes → Bytes → World → World
remove_rule type d key value w =
    if is_strlist type
    then (strlist_remove d key value w).1
    else if length value == 0
    then (property_remove d key w).1
    else w

-- `spawned_device_callouts_add_done`: from the temporary list to the global one.
unfoldable pub callouts_add_done : ℕ → World → World
callouts_add_done d w = store_add gdl d (store_remove tdl d w).1

-- A rule on the device that its key resolves to.
abbrev pub on_resolved : (ℕ → Bytes → World) → World → Option (ℕ × Bytes) → World
on_resolved f w none = w
on_resolved f w (some (e, key)) = f e key

module _ (utf8 : Utf8) where
  -- The new device of a spawn rule, in the temporary list.
  unfoldable pub spawn_device : ℕ → Bytes → World → World
  spawn_device d key w =
      let (spawned, w1) = device_new w in
      let w2 = (set_string utf8 spawned (codes "info.subsystem") (some (codes "unknown")) w1).1 in
      let w3 = (set_string utf8 spawned (codes "info.parent") (some (get_udi d w2)) w2).1 in
      store_add tdl spawned (set_udi utf8 spawned key w3).1

module _ (utf8 : Utf8) (libc : Libc) where
  unfoldable pub merge_rule : MergeType → ℕ → Bytes → Bytes → World → World
  unfolding copy_source
  merge_rule merge_string d key value w = (set_string utf8 d key (some value) w).1
  merge_rule merge_strlist d key value w =
      if is_list_or_new d key w
      then (strlist_append d key value false (property_remove d key w).1).1
      else w
  merge_rule merge_int32 d key value w = (set_int d key (to_int32 (libc.strtol value)) w).1
  merge_rule merge_uint64 d key value w = (set_uint64 d key (libc.strtoull value) w).1
  merge_rule merge_boolean d key value w = (set_bool d key (str_eq value (codes "true")) w).1
  merge_rule merge_double d key value w = (set_double d key (libc.atof value) w).1
  merge_rule merge_copy_property d key value w = elim (copy_source value d w) [
    | none ↦ w
    | some (from, prop) ↦ (copy_property utf8 from prop d key w).1
  ]
  merge_rule merge_remove d key value w = w
  merge_rule merge_unknown d key value w = w

  -- What the local buffer holds that is appended: where nothing was written, what the stack held.
  unfoldable pub text_to_join : MergeType → ℕ → Bytes → World → Bytes
  unfolding copy_source
  text_to_join merge_string d value w = take hal_path_max value
  text_to_join merge_copy_property d value w = elim (copy_source value d w) [
    | none ↦ libc.stack
    | some (from, prop) ↦ (get_as_string libc.print_double hal_path_max libc.stack from prop w).1
  ]
  text_to_join _ d value w = libc.stack

  unfoldable pub join_rule : Bool → MergeType → ℕ → Bytes → Bytes → World → World
  unfolding text_to_join
  join_rule append type d key value w =
      if not (is_text_or_list d key w)
      then w
      else if is_strlist type
      then if append
        then (strlist_append d key value false w).1
        else (strlist_prepend d key value w).1
      else (set_string utf8 d key
          (some (joined append (device_get_string d key w) (text_to_join type d value w))) w).1

  -- `handle_merge`, but for what a spawn does with its new device. A `clear` is an unknown rule
  -- type here.
  unfoldable pub change_device : RuleType → Rule → ℕ → World → World
  unfolding merge_rule join_rule addset_rule remove_rule
  change_device rule_merge rule d w =
      on_resolved (λ e key. merge_rule rule.type_merge e key rule.value w) w
        (resolve_device rule.key d w)
  change_device rule_append rule d w =
      on_resolved (λ e key. join_rule true rule.type_merge e key rule.value w) w
        (resolve_device rule.key d w)
  change_device rule_prepend rule d w =
      on_resolved (λ e key. join_rule false rule.type_merge e key rule.value w) w
        (resolve_device rule.key d w)
  change_device rule_addset rule d w =
      on_resolved (λ e key. addset_rule e key rule.value w) w (resolve_device rule.key d w)
  change_device rule_remove rule d w = remove_rule rule.type_merge d rule.key rule.value w
  change_device _ rule d w = w
