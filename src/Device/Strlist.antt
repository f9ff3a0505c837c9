-- ===== src/Device/Strlist.antt =====
-- hald/device.c: `hal_device_property_strlist_*`, the changes to string lists, and capabilities.
use hal.Prelude.{ℕ, Bool, true, false, not, none, some, [], if◌then◌else◌, Bytes, codes}
use hal.Property
use hal.Property.{PropertyType, type_strlist, same_type, Property, strlist, property_type}
use hal.World.{
  World, M, Signal, property_changed, capability_added, property_find, table_insert, table_remove,
}
use hal.World.Emit.{emit}

-- Inside a changeset the caller emits the signal later.
unfoldable pub emit_unless : Bool → ℕ → Signal → World → World
emit_unless true d sig w = w
emit_unless false d sig w = emit d sig w

unfoldable pub strlist_append : ℕ → Bytes → Bytes → Bool → M Bool
unfolding emit_unless Property.strlist_append
strlist_append d key value changeset w = elim (property_find d key w) [
  | none ↦ (
    true,
    emit_unless changeset d (property_changed key false true)
        (table_insert d key (Property.strlist_append value (strlist [])).1 w),
  )
  | some old ↦ if not (same_type (property_type old) type_strlist) then (false, w) else (
    true,
    emit_unless changeset d (property_changed key false false)
        (table_insert d key (Property.strlist_append value old).1 w),
  )
]

unfoldable pub strlist_append_finish_changeset : ℕ → Bytes → Bool → M Bool
strlist_append_finish_changeset d key is_added w = elim (property_find d key w) [
  | none ↦ (false, w)
  | some old ↦
      if not (same_type (property_type old) type_strlist)
      then (false, w)
      else (true, emit d (property_changed key false is_added) w)
]

unfoldable pub strlist_prepend : ℕ → Bytes → Bytes → M Bool
unfolding Property.strlist_prepend
strlist_prepend d key value w = elim (property_find d key w) [
  | none ↦ (
    true,
    emit d (property_changed key false true)
        (table_insert d key (Property.strlist_prepend value (strlist [])).1 w),
  )
  | some old ↦ if not (same_type (property_type old) type_strlist) then (false, w) else (
    true,
    emit d (property_changed key false false)
        (table_insert d key (Property.strlist_prepend value old).1 w),
  )
]

unfoldable pub strlist_remove_elem : ℕ → Bytes → ℕ → M Bool
unfolding Property.strlist_remove_elem
strlist_remove_elem d key index w = elim (property_find d key w) [
  | none ↦ (false, w)
  | some old ↦
      if not (same_type (property_type old) type_strlist)
      then (false, w)
      else if (Property.strlist_remove_elem index old).0
      then (
        true,
        emit d (property_changed key false false)
            (table_insert d key (Property.strlist_remove_elem index old).1 w),
      )
      else (false, w)
]

unfoldable pub strlist_clear : ℕ → Bytes → Bool → M Bool
unfolding emit_unless
strlist_clear d key changeset w = elim (property_find d key w) [
  | none ↦ (
    true,
    emit_unless changeset d (property_changed key false true) (table_insert d key (strlist []) w),
  )
  | some old ↦ if not (same_type (property_type old) type_strlist) then (false, w) else (
    true,
    emit_unless changeset d (property_changed key false false)
        (table_insert d key (strlist []) (table_remove d key w)),
  )
]

unfoldable pub strlist_add : ℕ → Bytes → Bytes → M Bool
unfolding Property.strlist_add Property.strlist_prepend
strlist_add d key value w = elim (property_find d key w) [
  | none ↦ (
    true,
    emit d (property_changed key false true)
        (table_insert d key (Property.strlist_prepend value (strlist [])).1 w),
  )
  | some old ↦
      if not (same_type (property_type old) type_strlist)
      then (false, w)
      else if (Property.strlist_add value old).0
      then (
        true,
        emit d (property_changed key false false)
            (table_insert d key (Property.strlist_add value old).1 w),
      )
      else (false, w)
]

-- TRUE also where the list did not hold the value.
unfoldable pub strlist_remove : ℕ → Bytes → Bytes → M Bool
unfolding Property.strlist_remove
strlist_remove d key value w = elim (property_find d key w) [
  | none ↦ (false, w)
  | some old ↦
      if not (same_type (property_type old) type_strlist)
      then (false, w)
      else if (Property.strlist_remove value old).0
      then (
        true,
        emit d (property_changed key false false)
            (table_insert d key (Property.strlist_remove value old).1 w),
      )
      else (true, w)
]

unfoldable pub add_capability : ℕ → Bytes → World → World
unfolding strlist_add
add_capability d capability w =
    let (added, w') = strlist_add d (codes "info.capabilities") capability w in
    if added then emit d (capability_added capability) w' else w'
