-- ===== src/Lock/Entered.antt =====
-- hald/device.c: a lock whose holders or whose mark change is represented by the properties that
-- `hal_device_acquire_lock` writes.
use mathlib.Core.Path.{subst}
use hal.Prelude.{
  ℕ, ◌≡◌, refl, sym, ◌∙◌, Bool, true, false, ◌&&◌, ◌||◌, some, List, [], ◌∷◌, ◌++◌, if◌then◌else◌,
  arith, Bytes, str_eq, eq_iff, eq_refl, contains, Bool-cases, inl, inr,
}
use hal.Property.{boolean, strlist}
use hal.World.{World, mem, no_duplicates, property_find, lock_acquired}
use hal.World.Kept.{emit-OnlyIndex}
use hal.Device.Set.{set_bool}
use hal.Device.Strlist.{strlist_append, strlist_add}
use hal.Device.Locked.{locked-set_bool, locked-strlist_append, locked-strlist_add}
use hal.Lock.{
  Part, exclusive_part, locked_part, dbus_name_part, named_locks, lock_key, add_to_locked_set,
  enter_holders,
}
use hal.Lock.Key.{
  IsShort, same_part, str_eq-lock_key, str_eq-lock_key-named_locks, str_eq-named_locks-lock_key,
}
use hal.Lock.View.{
  LockState, free, held, is_held, holders, part_property, names_property, is_empty, all_distinct,
  Locks, with_state, with_name,
}
use hal.Lock.Refine.{IsFlag, find-enter_holders}

contains-append :
    (x y : Bytes) (l : List Bytes) → contains x (l ++ (y ∷ [])) ≡ (contains x l || str_eq y x)
unfolding contains
contains-append x y [] = ground arith
contains-append x y (z ∷ l) = ground (arith, contains-append x y l)

all_distinct-append :
    (y : Bytes) (l : List Bytes)
    → all_distinct l ≡ true
    → contains y l ≡ false
    → all_distinct (l ++ (y ∷ [])) ≡ true
unfolding all_distinct contains
all_distinct-append y [] d a = refl
all_distinct-append y (z ∷ l) d a =
    ground (arith, contains-append z y l, all_distinct-append y l, eq_iff z y, eq_iff y z)

module _ (d : ℕ) (name sender : Bytes) where
  locked_devices-enter_holders :
      (w : World)
      → (enter_holders d name sender w).locked_devices
        ≡ (if mem d w.locked_devices then w.locked_devices else d ∷ w.locked_devices)
  unfolding enter_holders add_to_locked_set
  locked_devices-enter_holders w =
      let w1 = (strlist_append d (lock_key dbus_name_part name) sender false w).1 in
      let w2 = (set_bool d (lock_key locked_part name) true w1).1 in
      let w3 = (strlist_add d named_locks name w2).1 in
      (emit-OnlyIndex d (lock_acquired name sender) _).locked
      ∙ ground (
        arith,
        locked-strlist_append d (lock_key dbus_name_part name) sender w,
        locked-set_bool d (lock_key locked_part name) true w1,
        locked-strlist_add d named_locks name w2,
      )

-- The state that entering the holders leaves.
abbrev pub entered : Bool → Bytes → List Bytes → LockState
entered x sender [] = held x sender []
entered x sender (h ∷ l) = held x h (l ++ (sender ∷ []))

holders_property : (st : LockState) → part_property dbus_name_part st ≡ names_property (holders st)
holders_property free = refl
holders_property (held x h l) = refl

locked-IsFlag : (st : LockState) → IsFlag (part_property locked_part st)
locked-IsFlag free = inl refl
locked-IsFlag (held x h l) = inr (true, refl)

-- The property of each part, as the writes leave it, is that of the new state.
entered_parts :
    (p : Part) (x : Bool) (sender : Bytes) (old : List Bytes) (b : Bool) (st : LockState)
    → (if same_part locked_part p && b
        then some (boolean true)
        else if same_part dbus_name_part p && b
        then some (strlist (old ++ (sender ∷ [])))
        else if same_part exclusive_part p && b
        then some (boolean x)
        else part_property p st)
      ≡ part_property p (if b then entered x sender old else st)
entered_parts exclusive_part x sender [] b st = ground arith
entered_parts exclusive_part x sender (h ∷ l) b st = ground arith
entered_parts locked_part x sender [] b st = ground arith
entered_parts locked_part x sender (h ∷ l) b st = ground arith
entered_parts dbus_name_part x sender [] b st = ground arith
entered_parts dbus_name_part x sender (h ∷ l) b st = ground arith

marked_parts :
    (p : Part) (x y : Bool) (first : Bytes) (l : List Bytes) (b : Bool) (st : LockState)
    → (b ≡ true → st ≡ held y first l)
    → (if same_part exclusive_part p && b then some (boolean x) else part_property p st)
      ≡ part_property p (if b then held x first l else st)
marked_parts exclusive_part x y first l b st h = ground arith
marked_parts locked_part x y first l b st h = ground arith
marked_parts dbus_name_part x y first l b st h = ground arith

contains-with_name :
    (n name : Bytes) (names : List Bytes)
    → contains n (with_name name names) ≡ (if str_eq name n then true else contains n names)
contains-with_name n name names = ground (arith, contains-append n name names, eq_iff name n)

entered_held :
    (x : Bool) (sender : Bytes) (old : List Bytes) → is_held (entered x sender old) ≡ true
entered_held x sender [] = refl
entered_held x sender (h ∷ l) = refl

with_name-some : (name : Bytes) (names : List Bytes) → is_empty (with_name name names) ≡ false
unfolding contains
with_name-some name [] = refl
with_name-some name (y ∷ l) = ground arith

module _ (d : ℕ) (name sender : Bytes) (short : IsShort name) where
  -- The exclusive flag of an unlocked or shared lock has been set, and the caller is entered.
  pub Locks-enter :
      (x : Bool) (state : Bytes → LockState) (names : List Bytes) (w v : World)
      → Locks d w state names
      → ((k : Bytes)
          → property_find d k v ≡ (
              if str_eq (lock_key exclusive_part name) k
              then some (boolean x)
              else property_find d k w))
      → v.locked_devices ≡ w.locked_devices
      → Locks d
          (enter_holders d name sender v)
          (with_state state name (entered x sender (holders (state name))))
          (with_name name names)
  unfolding mem no_duplicates
  Locks-enter x state names w v h change locked =
      let X = lock_key exclusive_part name in
      let H = lock_key dbus_name_part name in
      let L = lock_key locked_part name in
      let old = holders (state name) in
      let find =
        find-enter_holders d name sender short names old v
          (change H
            ∙ rw (str_eq-lock_key exclusive_part dbus_name_part name name short short)
                (h.parts dbus_name_part name short ∙ holders_property (state name)))
          (subst IsFlag
            (sym (
              change L
              ∙ rw (str_eq-lock_key exclusive_part locked_part name name short short)
                  (h.parts locked_part name short)))
            (locked-IsFlag (state name)))
          (change named_locks
            ∙ rw (str_eq-lock_key-named_locks exclusive_part name short) h.list) in
      record {
        parts = λ p n s.
            find (lock_key p n)
            ∙ rw
                (
                  str_eq-named_locks-lock_key p n s,
                  change (lock_key p n),
                  str_eq-lock_key locked_part p name n short s,
                  str_eq-lock_key dbus_name_part p name n short s,
                  str_eq-lock_key exclusive_part p name n short s,
                  h.parts p n s,
                )
                (entered_parts p x sender old (str_eq name n) (state n));
        held_names = λ n s.
            ground
              (arith, contains-with_name n name names, h.held_names n s, entered_held x sender old);
        short_names = λ n c. elim (Bool-cases (str_eq name n)) [
          | inl same ↦ subst IsShort ((eq_iff name n).0 same) short
          | inr other ↦ h.short_names n (ground (arith, other, contains-with_name n name names))
        ];
        distinct = ground (arith, h.distinct, all_distinct-append name names);
        list = find named_locks ∙ rw (eq_refl named_locks) refl;
        in_locked_set =
            ground (arith, locked_devices-enter_holders d name sender v, with_name-some name names);
        locked_set_distinct =
            ground
              (arith, locked_devices-enter_holders d name sender v, locked, h.locked_set_distinct);
      }

  -- Only the exclusive flag of a shared lock is set.
  pub Locks-mark :
      (x : Bool) (y : Bool) (first : Bytes) (l : List Bytes) (state : Bytes → LockState)
      (names : List Bytes) (w v : World)
      → state name ≡ held y first l
      → Locks d w state names
      → ((k : Bytes)
          → property_find d k v ≡ (
              if str_eq (lock_key exclusive_part name) k
              then some (boolean x)
              else property_find d k w))
      → v.locked_devices ≡ w.locked_devices
      → Locks d v (with_state state name (held x first l)) names
  Locks-mark x y first l state names w v st h change locked = record {
    parts = λ p n s.
        change (lock_key p n)
        ∙ rw (str_eq-lock_key exclusive_part p name n short s, h.parts p n s)
            (marked_parts p x y first l (str_eq name n) (state n)
              (λ e. rw (← (eq_iff name n).0 e) st));
    held_names = λ n s. ground (arith, h.held_names n s, st, eq_iff name n);
    short_names = h.short_names;
    distinct = h.distinct;
    list = change named_locks ∙ rw (str_eq-lock_key-named_locks exclusive_part name short) h.list;
    in_locked_set = ground (arith, h.in_locked_set, locked);
    locked_set_distinct = ground (arith, h.locked_set_distinct, locked);
  }
