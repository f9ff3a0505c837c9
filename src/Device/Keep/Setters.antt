-- ===== src/Device/Keep/Setters.antt =====
-- The setters of hald/device.c keep the stores' indexes consistent.
use native.Mathlib.Nat.{le_refl}
use hal.Prelude.{
  or_else, ℕ, arith, refl, true, false, Option, some, List, [], Bytes, codes, Option-cases, inl,
  inr,
}
use hal.Property.{Property, string, int32, uint64, boolean, double, strlist}
use hal.Property.Utf8.{Utf8, stored_string}
use hal.World.{World, property_find, put_device}
use hal.World.Index.{index_of, has_string, device_get_string}
use hal.Device.{device_new}
use hal.World.Consistent.{
  IsConsistent, table_remove-KeyChange, replace-IsConsistent, same-IsConsistent,
}
use hal.Device.Set.{
  store_value, set_strlist, property_remove, set_string, set_udi, set_value, copy_property,
}
use hal.Device.Keep.{Keeps, Keeps-pair, keep_rules, renamed}

module _ (d : ℕ) (key : Bytes) where
  pub store_value-Keeps :
      (offered stored : Property) (w : World)
      → IsConsistent w
      → Keeps (store_value d key offered stored w)
  unfolding store_value
  store_value-Keeps offered stored w h = elim (Option-cases (property_find d key w)) [
    | inl e ↦ rw (e, store_value) (search keep_rules)
    | inr (old, e) ↦ rw (e, store_value) (search keep_rules)
  ]

  pub set_strlist-Keeps :
      (value : List Bytes) (w : World) → IsConsistent w → Keeps (set_strlist d key value w)
  unfolding set_strlist
  set_strlist-Keeps value w h = elim (Option-cases (property_find d key w)) [
    | inl e ↦ rw (e, set_strlist) (search keep_rules)
    | inr (old, e) ↦ rw (e, set_strlist) (search keep_rules)
  ]

  pub property_remove-Keeps : (w : World) → IsConsistent w → Keeps (property_remove d key w)
  unfolding property_remove
  property_remove-Keeps w h = elim (Option-cases (property_find d key w)) [
    | inl e ↦ rw (e, property_remove) (search keep_rules)
    | inr (old, e) ↦
        rw (e, property_remove)
          (Keeps-pair true _
            (replace-IsConsistent d key true true false _ w (table_remove-KeyChange d key _) h))
  ]

module _ (utf8 : Utf8) (d : ℕ) (key : Bytes) where
  pub set_string-Keeps :
      (value : Option Bytes) (w : World) → IsConsistent w → Keeps (set_string utf8 d key value w)
  unfolding set_string
  set_string-Keeps value w h =
      store_value-Keeps d key (string (or_else [] value)) (string (stored_string utf8 value)) w h

  pub set_value-Keeps :
      (p : Property) (w : World) → IsConsistent w → Keeps (set_value utf8 d key p w)
  unfolding set_value
  set_value-Keeps (string s) w h =
      store_value-Keeps d key (string s) (string (stored_string utf8 (some s))) w h
  set_value-Keeps (int32 n) w h = store_value-Keeps d key (int32 n) (int32 n) w h
  set_value-Keeps (uint64 n) w h = store_value-Keeps d key (uint64 n) (uint64 n) w h
  set_value-Keeps (boolean b) w h = store_value-Keeps d key (boolean b) (boolean b) w h
  set_value-Keeps (double x) w h = store_value-Keeps d key (double x) (double x) w h
  set_value-Keeps (strlist l) w h = set_strlist-Keeps d key l w h

pub copy_property-Keeps :
    (utf8 : Utf8) (from_device : ℕ) (from : Bytes) (to_device : ℕ) (to : Bytes) (w : World)
    → IsConsistent w
    → Keeps (copy_property utf8 from_device from to_device to w)
unfolding copy_property
copy_property-Keeps utf8 from_device from to_device to w h =
    elim (Option-cases (property_find from_device from w)) [
      | inl e ↦ rw (e, copy_property) (Keeps-pair false w h)
      | inr (p, e) ↦ rw (e, copy_property) (set_value-Keeps utf8 to_device to p w h)
    ]

pub set_udi-Keeps :
    (utf8 : Utf8) (d : ℕ) (udi : Bytes) (w : World) → IsConsistent w → Keeps (set_udi utf8 d udi w)
unfolding set_udi
set_udi-Keeps utf8 d udi w h =
    set_string-Keeps utf8 d (codes "info.udi") (some udi)
      (put_device d (record (w.heap d) { udi = udi }) w)
      (same-IsConsistent (put_device d (record (w.heap d) { udi = udi }) w) w
        (record {
          connections = refl;
          next = le_refl w.next;
          devices = λ t. refl;
          index = λ t k. unfold index_of in refl;
          properties = λ e k value _. renamed d e udi k value w;
        })
        h)

pub device_new-IsConsistent : (w : World) → IsConsistent w → IsConsistent (device_new w).1
unfolding device_new
device_new-IsConsistent w h =
    same-IsConsistent (device_new w).1 w
      (record {
        connections = refl;
        next = omega arith;
        devices = λ t. refl;
        index = λ t k. unfold index_of in refl;
        properties =
            λ e k value below. unfold has_string device_get_string property_find in ground arith;
      })
      h
