-- ===== src/Device/Merge.antt =====
-- hald/device.c: the merge of one device's properties into another, with a new prefix of the keys.
use hal.Prelude.{
  ℕ, false, not, ◌&&◌, ◌||◌, ◌==◌, none, some, List, [], ◌∷◌, ◌++◌, if◌then◌else◌, Bytes,
  starts_with, length, drop, keys,
}
use hal.Property.{
  PropertyType, type_invalid, same_type, Property, string, int32, uint64, boolean, double, strlist,
  property_type,
}
use hal.Property.Utf8.{Utf8}
use hal.World.{World, property_find, property_get_type}
use hal.Device.Set.{set_string, set_int, set_uint64, set_bool, set_double, property_remove}
use hal.Device.Strlist.{strlist_append, strlist_clear}

-- The loop over the elements of a list.
unfoldable pub append_all : ℕ → Bytes → List Bytes → World → World
unfolding strlist_append
append_all d key [] w = w
append_all d key (x ∷ l) w = append_all d key l (strlist_append d key x false w).1

module _ (utf8 : Utf8) where
  -- The `switch` of `merge_device_rewrite_cb`.
  unfoldable pub merge_value : ℕ → Bytes → Property → World → World
  unfolding set_string set_int set_uint64 set_bool set_double strlist_clear append_all
  merge_value target key (string s) w = (set_string utf8 target key (some s) w).1
  merge_value target key (int32 n) w = (set_int target key n w).1
  merge_value target key (uint64 n) w = (set_uint64 target key n w).1
  merge_value target key (boolean b) w = (set_bool target key b w).1
  merge_value target key (double x) w = (set_double target key x w).1
  merge_value target key (strlist l) w =
      append_all target key l (strlist_clear target key false w).1

  -- A target property of another type is removed first.
  unfoldable pub clear_other_type : ℕ → Bytes → PropertyType → World → World
  unfolding property_remove
  clear_other_type target key type w =
      let target_type = property_get_type target key w in
      if not (same_type target_type type_invalid) && not (same_type target_type type)
      then (property_remove target key w).1
      else w

  -- `merge_device_rewrite_cb`, for one key of the source.
  unfoldable pub merge_key : ℕ → ℕ → Bytes → Bytes → Bytes → World → World
  unfolding merge_value clear_other_type
  merge_key target source target_namespace source_namespace key w =
      if starts_with source_namespace key
      then elim (property_find source key w) [
        | none ↦ w
        | some p ↦
            let target_key = target_namespace ++ drop (length source_namespace) key in
            merge_value target target_key p (clear_other_type target target_key (property_type p) w)
      ]
      else w

  unfoldable pub merge_keys : ℕ → ℕ → Bytes → Bytes → List Bytes → World → World
  unfolding merge_key
  merge_keys target source target_namespace source_namespace [] w = w
  merge_keys target source target_namespace source_namespace (key ∷ rest) w =
      merge_keys target source target_namespace source_namespace rest
        (merge_key target source target_namespace source_namespace key w)

  -- `hal_device_merge_with_rewrite`, over the keys that the source has. A merge of a device into
  -- itself changes the table of properties that it walks, and reads the elements of a list that it
  -- has cleared.
  unfoldable pub merge_with_rewrite : ℕ → ℕ → Bytes → Bytes → World → World
  unfolding merge_keys
  merge_with_rewrite target source target_namespace source_namespace w =
      let merged =
        merge_keys target source target_namespace source_namespace (keys (w.heap source).props) w in
      record merged { may_dangle = merged.may_dangle || target == source }
