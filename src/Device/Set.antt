-- ===== src/Device/Set.antt =====
-- hald/device.c: the setters of a property, its removal, and the copy of a property.
use hal.Prelude.{
  ℕ, Bool, true, false, not, Option, none, some, List, [], if◌then◌else◌, Bytes, codes, strlist_eq,
  or_else,
}
use hal.Property.{
  ℤ, type_strlist, same_type, Property, string, int32, uint64, boolean, double, strlist,
  property_type, property_get_strlist, same_value,
}
use hal.Property.Utf8.{Utf8, stored_string}
use hal.World.{
  M, pre_property_changed, property_changed, put_device, property_find, table_insert, table_remove,
}
use hal.World.Emit.{emit}

-- The shape of five of the setters: `offered` is compared with the value that is there, and
-- `stored` is written. A key of another type is refused; the same value is not written again.
unfoldable pub store_value : ℕ → Bytes → Property → Property → M Bool
store_value d key offered stored w = elim (property_find d key w) [
  | none ↦ (true, emit d (property_changed key false true) (table_insert d key stored w))
  | some old ↦
      if not (same_type (property_type old) (property_type offered))
      then (false, w)
      else if same_value old offered
      then (true, w)
      else (
        true,
        emit d (property_changed key false false)
            (table_insert d key stored (emit d (pre_property_changed key false) w)),
      )
]

unfoldable pub set_int : ℕ → Bytes → ℤ → M Bool
unfolding store_value
set_int d key value = store_value d key (int32 value) (int32 value)

unfoldable pub set_uint64 : ℕ → Bytes → ℕ → M Bool
unfolding store_value
set_uint64 d key value = store_value d key (uint64 value) (uint64 value)

unfoldable pub set_bool : ℕ → Bytes → Bool → M Bool
unfolding store_value
set_bool d key value = store_value d key (boolean value) (boolean value)

unfoldable pub set_double : ℕ → Bytes → ℕ → M Bool
unfolding store_value
set_double d key value = store_value d key (double value) (double value)

-- The list is not changed in place: the entry is removed and a new one inserted.
unfoldable pub set_strlist : ℕ → Bytes → List Bytes → M Bool
set_strlist d key value w = elim (property_find d key w) [
  | none ↦ (true, emit d (property_changed key false true) (table_insert d key (strlist value) w))
  | some old ↦
      if not (same_type (property_type old) type_strlist)
      then (false, w)
      else if strlist_eq value (property_get_strlist old)
      then (true, w)
      else (
        true,
        emit d (property_changed key false false) (
            table_insert d key (strlist value)
              (table_remove d key (emit d (pre_property_changed key false) w))),
      )
]

-- `hal_device_property_remove`
unfoldable pub property_remove : ℕ → Bytes → M Bool
property_remove d key w = elim (property_find d key w) [
  | none ↦ (false, w)
  | some _ ↦ (
    true,
    emit d (property_changed key true false)
        (table_remove d key (emit d (pre_property_changed key true) w)),
  )
]

module _ (utf8 : Utf8) where
  -- NULL is compared, and stored, as the empty text; the text is compared as it was given, and
  -- stored with its invalid bytes replaced.
  unfoldable pub set_string : ℕ → Bytes → Option Bytes → M Bool
  unfolding store_value
  set_string d key value =
      store_value d key (string (or_else [] value)) (string (stored_string utf8 value))

  unfoldable pub set_udi : ℕ → Bytes → M Bool
  unfolding set_string
  set_udi d udi w =
      set_string d (codes "info.udi") (some udi) (put_device d (record (w.heap d) { udi = udi }) w)

  -- The `switch` of `hal_device_copy_property` on the type of the source's property.
  unfoldable pub set_value : ℕ → Bytes → Property → M Bool
  unfolding set_string set_int set_uint64 set_bool set_double set_strlist
  set_value d key (string s) = set_string d key (some s)
  set_value d key (int32 n) = set_int d key n
  set_value d key (uint64 n) = set_uint64 d key n
  set_value d key (boolean b) = set_bool d key b
  set_value d key (double x) = set_double d key x
  set_value d key (strlist l) = set_strlist d key l

  unfoldable pub copy_property : ℕ → Bytes → ℕ → Bytes → M Bool
  unfolding set_value
  copy_property from_device from to_device to w = elim (property_find from_device from w) [
    | none ↦ (false, w)
    | some p ↦ set_value to_device to p w
  ]
