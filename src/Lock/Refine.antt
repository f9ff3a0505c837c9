-- ===== src/Lock/Refine.antt =====
-- hald/device.c: `hal_device_acquire_lock` implements its specification.
use mathlib.Core.Path.{subst}
use hal.Prelude.{
  ℕ, ◌≡◌, refl, sym, ◌∙◌, Bool, true, false, Option, none, some, List, [], ◌∷◌, ◌++◌, if◌then◌else◌,
  arith, Bytes, str_eq, contains, ◌⊎◌,
}
use hal.Property.{Property, boolean, strlist}
use hal.World.{World, property_find}
use hal.Device.Set.{set_bool}
use hal.Device.Strlist.{strlist_append, strlist_add}
use hal.Device.Find.{
  property_find-emit, find-set_bool, find-strlist_append, find-strlist_append_new, find-strlist_add,
  find-strlist_add_new,
}
use hal.Lock.{locked_part, dbus_name_part, named_locks, lock_key, add_to_locked_set, enter_holders}
use hal.Lock.Key.{IsShort, str_eq-lock_key, str_eq-lock_key-named_locks}
use hal.Lock.View.{names_property, with_name}

property_find-add_to_locked_set :
    (d e : ℕ) (k : Bytes) (w : World)
    → property_find e k (add_to_locked_set d w) ≡ property_find e k w
unfolding property_find add_to_locked_set
property_find-add_to_locked_set d e k w = ground arith

names_property-some :
    (x : Bytes) (names : List Bytes)
    → names_property (with_name x names) ≡ some (strlist (with_name x names))
unfolding contains
names_property-some x [] = refl
names_property-some x (y ∷ l) = ground arith

-- The list of locks after one more is entered.
find-names :
    (d : ℕ) (name : Bytes) (names : List Bytes) (k : Bytes) (w : World)
    → property_find d named_locks w ≡ names_property names
    → property_find d k (strlist_add d named_locks name w).1 ≡ (
        if str_eq named_locks k then names_property (with_name name names) else property_find d k w)
unfolding contains
find-names d name [] k w h = find-strlist_add_new d named_locks d k name w h ∙ ground arith
find-names d name (x ∷ l) k w h =
    find-strlist_add d named_locks d k name (x ∷ l) w h
    ∙ ground (arith, names_property-some name (x ∷ l))

-- The holders after one more is entered.
find-holders :
    (d : ℕ) (key sender : Bytes) (old : List Bytes) (k : Bytes) (w : World)
    → property_find d key w ≡ names_property old
    → property_find d k (strlist_append d key sender false w).1
      ≡ (if str_eq key k then some (strlist (old ++ (sender ∷ []))) else property_find d k w)
find-holders d key sender [] k w h = find-strlist_append_new d key d k sender w h ∙ ground arith
find-holders d key sender (x ∷ l) k w h =
    find-strlist_append d key d k sender (x ∷ l) w h ∙ ground arith

pub find-flag :
    (d : ℕ) (key : Bytes) (value : Bool) (k : Bytes) (w : World)
    → (property_find d key w ≡ none) ⊎ ((b : Bool) × (property_find d key w ≡ some (boolean b)))
    → property_find d k (set_bool d key value w).1
      ≡ (if str_eq key k then some (boolean value) else property_find d k w)
find-flag d key value k w h = find-set_bool d key d k value w h ∙ ground arith

-- A flag of the lock: missing, or a boolean.
abbrev pub IsFlag : Option Property → Type 0
IsFlag o = (o ≡ none) ⊎ ((b : Bool) × (o ≡ some (boolean b)))

module _ (d : ℕ) (name sender : Bytes) (short : IsShort name) where
  -- The holders, the flag and the list of locks are written; nothing else is.
  pub find-enter_holders :
      (names : List Bytes) (old : List Bytes) (w : World)
      → property_find d (lock_key dbus_name_part name) w ≡ names_property old
      → IsFlag (property_find d (lock_key locked_part name) w)
      → property_find d named_locks w ≡ names_property names
      → (k : Bytes)
      → property_find d k (enter_holders d name sender w) ≡ (
          if str_eq named_locks k
          then names_property (with_name name names)
          else if str_eq (lock_key locked_part name) k
          then some (boolean true)
          else if str_eq (lock_key dbus_name_part name) k
          then some (strlist (old ++ (sender ∷ [])))
          else property_find d k w)
  unfolding enter_holders
  find-enter_holders names old w h flag n k =
      let H = lock_key dbus_name_part name in
      let L = lock_key locked_part name in
      let w1 = (strlist_append d H sender false w).1 in
      let w2 = (set_bool d L true w1).1 in
      let w3 = (strlist_add d named_locks name w2).1 in
      let hl : str_eq H L ≡ false =
        str_eq-lock_key dbus_name_part locked_part name name short short in
      let flag1 : IsFlag (property_find d L w1) =
        subst IsFlag (sym (find-holders d H sender old L w h ∙ rw hl)) flag in
      let n2 : property_find d named_locks w2 ≡ names_property names =
        find-flag d L true named_locks w1 flag1
        ∙ rw (str_eq-lock_key-named_locks locked_part name short) (
            find-holders d H sender old named_locks w h
            ∙ rw (str_eq-lock_key-named_locks dbus_name_part name short) n) in
      property_find-emit d d _ k _
      ∙ property_find-add_to_locked_set d d k w3
      ∙ find-names d name names k w2 n2
      ∙ rw (find-flag d L true k w1 flag1) (rw (find-holders d H sender old k w h))
