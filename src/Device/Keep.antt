-- ===== src/Device/Keep.antt =====
-- The operations of hald/device.c keep the stores' indexes consistent: the shapes of a change.
pub mod Setters
pub mod Strlists
pub mod Merging
use native.Mathlib.Nat.{le_refl}
use hal.Prelude.{
  or_else, ℕ, ◌≡◌, refl, Bool, true, false, not, Option, none, some, List, [], ◌∷◌, ◌++◌,
  if◌then◌else◌, arith, Bytes, codes, keys, starts_with, Bool-cases, Option-cases, inl, inr,
  strlist_eq, ◌∙◌, eq_refl,
}
use hal.Property
use hal.Property.{
  ℤ, PropertyType, type_invalid, type_strlist, same_type, Property, string, int32, uint64, boolean,
  double, strlist, property_type, property_get_strlist, same_value,
}
use hal.Property.Utf8.{Utf8, stored_string}
use hal.World.{
  World, M, Signal, pre_property_changed, property_changed, capability_added, property_find,
  property_get_type, put_device, table_insert, table_remove, property_find-table_insert,
}
use hal.World.Index.{index_of, has_string, device_get_string}
use hal.World.Emit.{emit}
use hal.World.Consistent.{
  IsConsistent, KeyChange, table_insert-KeyChange, table_remove-KeyChange, KeyChange-trans,
  KeyChange-refl, replace-IsConsistent, same-IsConsistent, fresh-IsConsistent, quiet-IsConsistent,
  notice-IsConsistent,
}
use hal.Device.Set.{
  store_value, set_int, set_uint64, set_bool, set_double, set_strlist, property_remove, set_string,
  set_udi, set_value, copy_property,
}
use hal.Device.Merge.{
  append_all, merge_value, clear_other_type, merge_key, merge_keys, merge_with_rewrite,
}
use hal.Device.Strlist.{
  emit_unless, strlist_append, strlist_append_finish_changeset, strlist_prepend,
  strlist_remove_elem, strlist_clear, strlist_add, strlist_remove, add_capability,
}

-- The world that an operation leaves is consistent.
pub record Keeps {A : Type 0} (x : A × World) : Type 0 where
  pub kept : IsConsistent x.1

pub Keeps-pair : {A : Type 0} (a : A) (w : World) → IsConsistent w → Keeps (a, w)
Keeps-pair a w h = record { kept = h }

pub Keeps-if :
    {A : Type 0} (b : Bool) (x y : A × World)
    → (b ≡ true → Keeps x)
    → (b ≡ false → Keeps y)
    → Keeps (if b then x else y)
Keeps-if true x y p q = p refl
Keeps-if false x y p q = q refl

pub either :
    (b : Bool) {v w : World} → IsConsistent v → IsConsistent w → IsConsistent (if b then v else w)
either true p q = p
either false p q = q

pub renamed :
    (d e : ℕ) (udi k value : Bytes) (w : World)
    → has_string e k value (put_device d (record (w.heap d) { udi = udi }) w)
      ≡ has_string e k value w
unfolding has_string device_get_string property_find
renamed d e udi k value w = ground arith

no_string :
    (d : ℕ) (key value : Bytes) (w : World)
    → property_find d key w ≡ none
    → has_string d key value w ≡ false
unfolding has_string device_get_string
no_string d key value w h = ground arith

strlist_no_string :
    (d : ℕ) (key value : Bytes) (p : Property) (w : World)
    → property_find d key w ≡ some p
    → not (same_type (property_type p) type_strlist) ≡ false
    → has_string d key value w ≡ false
unfolding has_string device_get_string
strlist_no_string d key value p w h t = ground arith

inserted_strlist :
    (d : ℕ) (key value : Bytes) (p : Property) (w : World)
    → not (same_type (property_type p) type_strlist) ≡ false
    → has_string d key value (table_insert d key p w) ≡ false
inserted_strlist d key value p w t =
    strlist_no_string d key value p (table_insert d key p w)
      (property_find-table_insert d d key key p w ∙ ground (arith, eq_refl key)) t

module _ (d : ℕ) (key : Bytes) (p : Property) (w : World) where
  pub Keeps-added :
      (c r a : Bool)
      → property_find d key w ≡ none
      → IsConsistent w
      → Keeps (c, emit d (property_changed key r a) (table_insert d key p w))
  Keeps-added c r a e h = record {
    kept =
        fresh-IsConsistent d key r a (table_insert d key p w) w (table_insert-KeyChange d key p w)
          (λ value. no_string d key value w e) h;
  }

  pub Keeps-replaced :
      (c r r' a : Bool)
      → IsConsistent w
      → Keeps (
        c,
        emit d
            (property_changed key r' a)
            (table_insert d key p (emit d (pre_property_changed key r) w)),
      )
  Keeps-replaced c r r' a h = record {
    kept = replace-IsConsistent d key r r' a _ w (table_insert-KeyChange d key p _) h;
  }

  pub Keeps-replaced_entry :
      (c r r' a : Bool)
      → IsConsistent w
      → Keeps (
        c,
        emit d
            (property_changed key r' a)
            (table_insert d key p (table_remove d key (emit d (pre_property_changed key r) w))),
      )
  Keeps-replaced_entry c r r' a h = record {
    kept =
        replace-IsConsistent d key r r' a _ w
          (KeyChange-trans d key (table_insert-KeyChange d key p _)
            (table_remove-KeyChange d key _))
          h;
  }

  pub Keeps-strlist :
      (c r a : Bool) (old : Property)
      → property_find d key w ≡ some old
      → not (same_type (property_type old) type_strlist) ≡ false
      → IsConsistent w
      → Keeps (c, emit d (property_changed key r a) (table_insert d key p w))
  Keeps-strlist c r a old e t h = record {
    kept =
        fresh-IsConsistent d key r a (table_insert d key p w) w (table_insert-KeyChange d key p w)
          (λ value. strlist_no_string d key value old w e t) h;
  }

  pub Keeps-touched :
      (c r a : Bool) (old : Property)
      → property_find d key w ≡ some old
      → not (same_type (property_type old) type_strlist) ≡ false
      → IsConsistent w
      → Keeps (c, emit d (property_changed key r a) w)
  Keeps-touched c r a old e t h = record {
    kept =
        fresh-IsConsistent d key r a w w (KeyChange-refl d key w)
          (λ value. strlist_no_string d key value old w e t) h;
  }

  pub Keeps-renewed :
      (c r a : Bool) (old : Property)
      → property_find d key w ≡ some old
      → not (same_type (property_type old) type_strlist) ≡ false
      → IsConsistent w
      → Keeps (c, emit d (property_changed key r a) (table_insert d key p (table_remove d key w)))
  Keeps-renewed c r a old e t h = record {
    kept =
        fresh-IsConsistent d key r a _ w
          (KeyChange-trans d key (table_insert-KeyChange d key p _)
            (table_remove-KeyChange d key w))
          (λ value. strlist_no_string d key value old w e t) h;
  }

  pub Keeps-renewed_quietly :
      (c : Bool) (old : Property)
      → property_find d key w ≡ some old
      → not (same_type (property_type old) type_strlist) ≡ false
      → not (same_type (property_type p) type_strlist) ≡ false
      → IsConsistent w
      → Keeps (c, table_insert d key p (table_remove d key w))
  Keeps-renewed_quietly c old e t t' h = record {
    kept =
        quiet-IsConsistent d key _ w
          (KeyChange-trans d key (table_insert-KeyChange d key p _)
            (table_remove-KeyChange d key w))
          (λ value. strlist_no_string d key value old w e t)
          (λ value. inserted_strlist d key value p _ t') h;
  }

  -- Inside a changeset.
  pub Keeps-quiet_added :
      (c : Bool)
      → property_find d key w ≡ none
      → not (same_type (property_type p) type_strlist) ≡ false
      → IsConsistent w
      → Keeps (c, table_insert d key p w)
  Keeps-quiet_added c e t h = record {
    kept =
        quiet-IsConsistent d key (table_insert d key p w) w (table_insert-KeyChange d key p w)
          (λ value. no_string d key value w e) (λ value. inserted_strlist d key value p w t) h;
  }

  pub Keeps-quiet_strlist :
      (c : Bool) (old : Property)
      → property_find d key w ≡ some old
      → not (same_type (property_type old) type_strlist) ≡ false
      → not (same_type (property_type p) type_strlist) ≡ false
      → IsConsistent w
      → Keeps (c, table_insert d key p w)
  Keeps-quiet_strlist c old e t t' h = record {
    kept =
        quiet-IsConsistent d key (table_insert d key p w) w (table_insert-KeyChange d key p w)
          (λ value. strlist_no_string d key value old w e t)
          (λ value. inserted_strlist d key value p w t') h;
  }

pub append_type :
    (value : Bytes) (old : Property)
    → not (same_type (property_type old) type_strlist) ≡ false
    → not (same_type (property_type (Property.strlist_append value old).1) type_strlist) ≡ false
unfolding Property.strlist_append
append_type value old t = ground arith

pub ruleset keep_rules = (
  Keeps-pair, Keeps-if, Keeps-added, Keeps-replaced, Keeps-replaced_entry, Keeps-strlist,
  Keeps-quiet_added, Keeps-quiet_strlist, append_type,
)
