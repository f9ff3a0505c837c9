-- ===== src/Lock/Leaving.antt =====
-- hald/device.c: how a lock leaves the list of held locks, and its device the locked set.
use hal.Prelude.{
  ℕ, ◌+◌, ◌≡◌, refl, ap, ◌∙◌, true, false, none, some, List, [], ◌∷◌, ◌==◌, if◌then◌else◌, arith,
  Bytes, str_eq, eq_iff, contains, remove_first, Bool-cases, inl, inr, length,
}
use hal.Property.{strlist}
use hal.World.{World, property_find}
use hal.Device.{get_strlist, get_strlist_length}
use hal.Device.Set.{property_remove}
use hal.Device.Find.{find-property_remove, find-strlist_remove}
use hal.Device.Locked.{locked-property_remove, locked-strlist_remove}
use hal.Store.{remove_device}
use hal.Lock.{named_locks, remove_from_locked_set, leave_names}
use hal.Lock.View.{names_property, is_empty, all_distinct}

contains-remove_first_le :
    (n x : Bytes) (l : List Bytes) → contains n l ≡ false → contains n (remove_first x l) ≡ false
unfolding contains remove_first
contains-remove_first_le n x [] h = refl
contains-remove_first_le n x (y ∷ l) h = ground (arith, contains-remove_first_le n x l)

pub contains-remove_first :
    (n x : Bytes) (l : List Bytes)
    → all_distinct l ≡ true
    → contains n (remove_first x l) ≡ (if str_eq x n then false else contains n l)
unfolding contains remove_first all_distinct
contains-remove_first n x [] h = ground arith
contains-remove_first n x (y ∷ l) h =
    ground (arith, contains-remove_first n x l, eq_iff y x, eq_iff y n, eq_iff x n)

pub all_distinct-remove_first :
    (x : Bytes) (l : List Bytes) → all_distinct l ≡ true → all_distinct (remove_first x l) ≡ true
unfolding remove_first all_distinct
all_distinct-remove_first x [] h = refl
all_distinct-remove_first x (y ∷ l) h =
    ground (arith, all_distinct-remove_first x l, contains-remove_first_le y x l)

pub length-remove_first :
    (x : Bytes) (l : List Bytes) → contains x l ≡ true → length (remove_first x l) + 1 ≡ length l
unfolding contains remove_first
length-remove_first x [] h = absurd (ground arith)
length-remove_first x (y ∷ l) h = ground (arith, length-remove_first x l)

names_property_ne : (l : List Bytes) → is_empty l ≡ false → names_property l ≡ some (strlist l)
names_property_ne [] h = absurd (ground arith)
names_property_ne (x ∷ l) h = refl

names_property_empty : (l : List Bytes) → is_empty l ≡ true → names_property l ≡ none
names_property_empty [] h = refl
names_property_empty (x ∷ l) h = absurd (ground arith)

pub empty_eq : (l : List Bytes) → is_empty l ≡ true → l ≡ []
empty_eq [] h = refl
empty_eq (x ∷ l) h = absurd (ground arith)

pub is_empty-length : (l : List Bytes) → is_empty l ≡ (length l == 0)
is_empty-length [] = refl
is_empty-length (x ∷ l) = ground arith

pub get_strlist_length-names :
    (d : ℕ) (key : Bytes) (w : World) (l : List Bytes)
    → property_find d key w ≡ names_property l
    → get_strlist_length d key w ≡ length l
unfolding get_strlist_length
get_strlist_length-names d key w [] h = rw (h, get_strlist_length, get_strlist)
get_strlist_length-names d key w (x ∷ l) h = rw (h, get_strlist_length, get_strlist)

pub find-removed :
    (d : ℕ) (key k : Bytes) (w : World)
    → property_find d k (property_remove d key w).1
      ≡ (if str_eq key k then none else property_find d k w)
find-removed d key k w = find-property_remove d key d k w ∙ ground arith

property_find-remove_from_locked_set :
    (d e : ℕ) (k : Bytes) (w : World)
    → property_find e k (remove_from_locked_set d w) ≡ property_find e k w
unfolding property_find remove_from_locked_set
property_find-remove_from_locked_set d e k w = refl

module _ (d : ℕ) (name : Bytes) (names : List Bytes) (w : World) (here : contains name names ≡ true)
    (list : property_find d named_locks w ≡ names_property names) where
  pub find-leave_names :
      (k : Bytes)
      → property_find d k (leave_names d name w) ≡ (
          if str_eq named_locks k
          then names_property (remove_first name names)
          else property_find d k w)
  unfolding leave_names
  find-leave_names k = elim (Bool-cases (length names == 1)) [
    | inl last ↦
        let empty : is_empty (remove_first name names) ≡ true = ground (
          arith,
          last,
          length-remove_first name names,
          is_empty-length (remove_first name names),
        ) in
        rw (get_strlist_length-names d named_locks w names list, last)
          (property_find-remove_from_locked_set d d k _
            ∙ find-removed d named_locks k w
            ∙ rw (names_property_empty (remove_first name names) empty))
    | inr more ↦
        let left : is_empty (remove_first name names) ≡ false = ground (
          arith,
          more,
          here,
          length-remove_first name names,
          is_empty-length (remove_first name names),
        ) in
        rw (get_strlist_length-names d named_locks w names list, more)
          (find-strlist_remove d named_locks d k name names w (
              list
              ∙ names_property_ne names (
                  ground
                    (arith, here, more, length-remove_first name names, is_empty-length names)))
            ∙ rw (names_property_ne (remove_first name names) left) (ground arith))
  ]

  pub locked_devices-leave_names : (leave_names d name w).locked_devices ≡ (
      if is_empty (remove_first name names)
      then remove_device d w.locked_devices
      else w.locked_devices)
  unfolding leave_names
  locked_devices-leave_names = elim (Bool-cases (length names == 1)) [
    | inl last ↦
        let empty : is_empty (remove_first name names) ≡ true = ground (
          arith,
          last,
          length-remove_first name names,
          is_empty-length (remove_first name names),
        ) in
        rw (get_strlist_length-names d named_locks w names list, last, empty)
          (unfold remove_from_locked_set in
            ap (remove_device d) (locked-property_remove d named_locks w))
    | inr more ↦
        let left : is_empty (remove_first name names) ≡ false = ground (
          arith,
          more,
          here,
          length-remove_first name names,
          is_empty-length (remove_first name names),
        ) in
        rw (get_strlist_length-names d named_locks w names list, more, left)
          (locked-strlist_remove d named_locks name w)
  ]
