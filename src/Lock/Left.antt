-- ===== src/Lock/Left.antt =====
-- hald/device.c: a lock with one holder fewer, or free, is represented by the properties that
-- `hal_device_release_lock` leaves.
use hal.Prelude.{
  ℕ, ◌≡◌, refl, ◌∙◌, Bool, true, false, ◌&&◌, none, some, List, [], ◌∷◌, if◌then◌else◌, arith,
  Bytes, str_eq, eq_iff, eq_refl, contains, remove_first,
}
use hal.Property.{boolean, strlist}
use hal.World.{World, property_find}
use hal.Device.Set.{property_remove}
use hal.Device.Locked.{locked-property_remove}
use hal.Store.Members.{mem-remove_device_self, remove_device-no_duplicates}
use hal.Lock.{Part, exclusive_part, locked_part, dbus_name_part, named_locks, lock_key, drop_lock}
use hal.Lock.Key.{
  IsShort, same_part, str_eq-lock_key, str_eq-lock_key-named_locks, str_eq-named_locks-lock_key,
}
use hal.Lock.View.{
  LockState, free, held, is_held, holders, with_holders, part_property, names_property, is_empty,
  Locks, with_state,
}
use hal.Lock.Leaving.{
  contains-remove_first, all_distinct-remove_first, find-removed, find-leave_names,
  locked_devices-leave_names,
}

is_empty-contains : (x : Bytes) (l : List Bytes) → contains x l ≡ true → is_empty l ≡ false
unfolding contains
is_empty-contains x [] h = absurd (ground arith)
is_empty-contains x (y ∷ l) h = refl

-- The properties of a lock go.
dropped_parts :
    (p : Part) (b : Bool) (st : LockState)
    → (if same_part dbus_name_part p && b
        then none
        else if same_part locked_part p && b
        then none
        else if same_part exclusive_part p && b
        then none
        else part_property p st)
      ≡ part_property p (if b then free else st)
dropped_parts exclusive_part b st = ground arith
dropped_parts locked_part b st = ground arith
dropped_parts dbus_name_part b st = ground arith

pub with_holders_held :
    (x : Bool) (new : List Bytes) → is_empty new ≡ false → is_held (with_holders x new) ≡ true
with_holders_held x [] h = absurd (ground arith)
with_holders_held x (y ∷ l) h = refl

left_parts :
    (p : Part) (x : Bool) (new : List Bytes) (b : Bool) (st : LockState)
    → is_empty new ≡ false
    → (b ≡ true → is_held st ≡ true)
    → (b ≡ true → part_property exclusive_part st ≡ some (boolean x))
    → (if same_part dbus_name_part p && b then some (strlist new) else part_property p st)
      ≡ part_property p (if b then with_holders x new else st)
left_parts p x [] b st e h m = absurd (ground arith)
left_parts exclusive_part x (y ∷ l) b st e h m = ground (arith, m)
left_parts locked_part x (y ∷ l) b free e h m = ground (arith, h)
left_parts locked_part x (y ∷ l) b (held z f r) e h m = ground arith
left_parts dbus_name_part x (y ∷ l) b st e h m = ground arith

module _ (d : ℕ) (name sender : Bytes) (short : IsShort name) where
  -- The properties of the lock are gone, and the lock leaves the list.
  pub Locks-drop :
      (state : Bytes → LockState) (names : List Bytes) (w : World)
      → is_held (state name) ≡ true
      → Locks d w state names
      → Locks d (drop_lock d name w) (with_state state name free) (remove_first name names)
  unfolding drop_lock
  Locks-drop state names w busy h =
      let X = lock_key exclusive_part name in
      let L = lock_key locked_part name in
      let H = lock_key dbus_name_part name in
      let w1 = (property_remove d X w).1 in
      let w2 = (property_remove d L w1).1 in
      let w3 = (property_remove d H w2).1 in
      let here : contains name names ≡ true = h.held_names name short ∙ busy in
      let list : property_find d named_locks w3 ≡ names_property names =
        find-removed d H named_locks w2
        ∙ rw (str_eq-lock_key-named_locks dbus_name_part name short) (
            find-removed d L named_locks w1
            ∙ rw (str_eq-lock_key-named_locks locked_part name short) (
                find-removed d X named_locks w
                ∙ rw (str_eq-lock_key-named_locks exclusive_part name short) h.list)) in
      let find = find-leave_names d name names w3 here list in
      let locked : w3.locked_devices ≡ w.locked_devices =
        locked-property_remove d H w2
        ∙ locked-property_remove d L w1
        ∙ locked-property_remove d X w in
      let leaves = locked_devices-leave_names d name names w3 here list in
      record {
        parts = λ p n s.
            find (lock_key p n)
            ∙ rw
                (
                  str_eq-named_locks-lock_key p n s,
                  find-removed d H (lock_key p n) w2,
                  find-removed d L (lock_key p n) w1,
                  find-removed d X (lock_key p n) w,
                  str_eq-lock_key locked_part p name n short s,
                  str_eq-lock_key dbus_name_part p name n short s,
                  str_eq-lock_key exclusive_part p name n short s,
                  h.parts p n s,
                )
                (dropped_parts p (str_eq name n) (state n));
        held_names =
            λ n s. ground (arith, contains-remove_first n name names h.distinct, h.held_names n s);
        short_names = λ n c.
            h.short_names n (ground (arith, c, contains-remove_first n name names h.distinct));
        distinct = all_distinct-remove_first name names h.distinct;
        list = find named_locks ∙ rw (eq_refl named_locks) refl;
        in_locked_set = ground (
          arith,
          leaves,
          locked,
          h.in_locked_set,
          h.locked_set_distinct,
          mem-remove_device_self d w.locked_devices,
          is_empty-contains name names here,
        );
        locked_set_distinct = ground (
          arith,
          leaves,
          locked,
          h.locked_set_distinct,
          remove_device-no_duplicates d w.locked_devices,
        );
      }

  -- Only the holders of the lock change, and some are left.
  pub Locks-leave :
      (x : Bool) (old new : List Bytes) (state : Bytes → LockState) (names : List Bytes)
      (w v : World)
      → holders (state name) ≡ old
      → is_held (state name) ≡ true
      → is_empty new ≡ false
      → part_property exclusive_part (state name) ≡ some (boolean x)
      → Locks d w state names
      → ((k : Bytes)
          → property_find d k v ≡ (
              if str_eq (lock_key dbus_name_part name) k
              then some (strlist new)
              else property_find d k w))
      → v.locked_devices ≡ w.locked_devices
      → Locks d v (with_state state name (with_holders x new)) names
  Locks-leave x old new state names w v same busy some_left mark h change locked = record {
    parts = λ p n s.
        change (lock_key p n)
        ∙ rw (str_eq-lock_key dbus_name_part p name n short s, h.parts p n s)
            (left_parts p x new (str_eq name n) (state n) some_left
              (λ e. rw (← (eq_iff name n).0 e) busy) (λ e. rw (← (eq_iff name n).0 e) mark));
    held_names = λ n s.
        ground (arith, h.held_names n s, busy, eq_iff name n, with_holders_held x new some_left);
    short_names = h.short_names;
    distinct = h.distinct;
    list = change named_locks ∙ rw (str_eq-lock_key-named_locks dbus_name_part name short) h.list;
    in_locked_set = ground (arith, h.in_locked_set, locked);
    locked_set_distinct = ground (arith, h.locked_set_distinct, locked);
  }
