-- ===== src/Device/Keep/Merging.antt =====
-- The merge of devices of hald/device.c keeps the stores' indexes consistent.
use hal.Prelude.{ℕ, false, some, List, [], ◌∷◌, Bytes, keys, Option-cases, inl, inr}
use hal.Property.{PropertyType, Property, string, int32, uint64, boolean, double, strlist}
use hal.Property.Utf8.{Utf8}
use hal.World.{World, property_find}
use hal.World.Consistent.{IsConsistent, IsConsistent-may_dangle}
use hal.Device.Set.{set_value}
use hal.Device.Merge.{
  append_all, merge_value, clear_other_type, merge_key, merge_keys, merge_with_rewrite,
}
use hal.Device.Strlist.{strlist_append, strlist_clear}
use hal.Device.Keep.{either}
use hal.Device.Keep.Setters.{set_value-Keeps, set_string-Keeps, property_remove-Keeps}
use hal.Device.Keep.Strlists.{strlist_append-Keeps, strlist_clear-Keeps}

append_all-IsConsistent :
    (d : ℕ) (key : Bytes) (l : List Bytes) (w : World)
    → IsConsistent w
    → IsConsistent (append_all d key l w)
unfolding append_all
append_all-IsConsistent d key [] w h = h
append_all-IsConsistent d key (x ∷ l) w h =
    append_all-IsConsistent d key l (strlist_append d key x false w).1
      (strlist_append-Keeps d key x false w h).kept

module _ (utf8 : Utf8) (target : ℕ) where
  merge_value-IsConsistent :
      (key : Bytes) (p : Property) (w : World)
      → IsConsistent w
      → IsConsistent (merge_value utf8 target key p w)
  unfolding merge_value set_value
  merge_value-IsConsistent key (string s) w h = (set_string-Keeps utf8 target key (some s) w h).kept
  merge_value-IsConsistent key (int32 n) w h = (set_value-Keeps utf8 target key (int32 n) w h).kept
  merge_value-IsConsistent key (uint64 n) w h =
      (set_value-Keeps utf8 target key (uint64 n) w h).kept
  merge_value-IsConsistent key (boolean b) w h =
      (set_value-Keeps utf8 target key (boolean b) w h).kept
  merge_value-IsConsistent key (double x) w h =
      (set_value-Keeps utf8 target key (double x) w h).kept
  merge_value-IsConsistent key (strlist l) w h =
      append_all-IsConsistent target key l (strlist_clear target key false w).1
        (strlist_clear-Keeps target key false w h).kept

  clear_other_type-IsConsistent :
      (key : Bytes) (type : PropertyType) (w : World)
      → IsConsistent w
      → IsConsistent (clear_other_type utf8 target key type w)
  unfolding clear_other_type
  clear_other_type-IsConsistent key type w h =
      either _ (property_remove-Keeps target key w h).kept h

  module _ (source : ℕ) (target_namespace source_namespace : Bytes) where
    merge_key-IsConsistent :
        (key : Bytes) (w : World)
        → IsConsistent w
        → IsConsistent (merge_key utf8 target source target_namespace source_namespace key w)
    unfolding merge_key
    merge_key-IsConsistent key w h = elim (Option-cases (property_find source key w)) [
      | inl e ↦ rw (e, merge_key) (either _ h h)
      | inr (p, e) ↦
          rw (e, merge_key)
            (either _ (merge_value-IsConsistent _ p _ (clear_other_type-IsConsistent _ _ w h)) h)
    ]

    merge_keys-IsConsistent :
        (l : List Bytes) (w : World)
        → IsConsistent w
        → IsConsistent (merge_keys utf8 target source target_namespace source_namespace l w)
    unfolding merge_keys
    merge_keys-IsConsistent [] w h = h
    merge_keys-IsConsistent (key ∷ l) w h =
        merge_keys-IsConsistent l _ (merge_key-IsConsistent key w h)

    pub merge_with_rewrite-IsConsistent :
        (w : World)
        → IsConsistent w
        → IsConsistent (merge_with_rewrite utf8 target source target_namespace source_namespace w)
    unfolding merge_with_rewrite
    merge_with_rewrite-IsConsistent w h =
        IsConsistent-may_dangle _ _ (merge_keys-IsConsistent (keys (w.heap source).props) w h)
