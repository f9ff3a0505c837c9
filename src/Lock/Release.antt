-- ===== src/Lock/Release.antt =====
-- hald/device.c: `hal_device_release_lock` implements its specification.
use mathlib.Core.Path.{subst, fun_ext}
use hal.Prelude.{
  ℕ, ◌≡◌, refl, ap, ◌∙◌, Bool, true, false, not, none, some, List, [], ◌∷◌, ◌==◌, if◌then◌else◌,
  arith, Bytes, eq_iff, contains, remove_first, Bool-cases, inl, inr, length,
}
use hal.Property.{boolean}
use hal.Property.Strlists.{remove_first_absent}
use hal.World.{World, Signal, property_find, lock_released}
use hal.World.Emit.{emit}
use hal.World.Kept.{emit-OnlyIndex}
use hal.Device.{get_bool}
use hal.Device.Strlist.{strlist_remove}
use hal.Device.Find.{property_find-emit, find-strlist_remove}
use hal.Device.Locked.{locked-strlist_remove}
use hal.Lock.{
  exclusive_part, locked_part, dbus_name_part, named_locks, lock_key, drop_lock, release_lock,
}
use hal.Lock.Key.{IsShort}
use hal.Lock.View.{
  LockState, free, held, is_held, holders, with_holders, release_state, part_property,
  names_property, is_empty, Locks, with_state,
}
use hal.Lock.Acquire.{get_bool-find, get_bool-none, strlist_contains-names}
use hal.Lock.Leaving.{length-remove_first, empty_eq, is_empty-length, get_strlist_length-names}
use hal.Lock.Left.{with_holders_held, Locks-drop, Locks-leave}

module _ (d : ℕ) (name sender : Bytes) (short : IsShort name) where
  abbrev Released : (Bytes → LockState) → List Bytes → LockState → World → Type 0
  Released state names st w =
      ((release_lock d name sender w).0 ≡ (release_state sender st).0)
      × Locks d (release_lock d name sender w).1 (with_state state name (release_state sender st).1)
          (if is_held (release_state sender st).1 then names else remove_first name names)

  -- The call on a held lock, by its holders.
  release_held :
      (old : List Bytes) (w : World)
      → get_bool d (lock_key locked_part name) w ≡ true
      → property_find d (lock_key dbus_name_part name) w ≡ names_property old
      → release_lock d name sender w ≡ (
          if not (contains sender old) then (false, w) else (
            true,
            emit d (lock_released name sender) (
                if length old == 1
                then drop_lock d name w
                else (strlist_remove d (lock_key dbus_name_part name) sender w).1),
          ))
  unfolding release_lock
  release_held old w flag holding = rw (
    flag,
    strlist_contains-names d (lock_key dbus_name_part name) sender w old holding,
    get_strlist_length-names d (lock_key dbus_name_part name) w old holding,
  )

  Locks-notice :
      (state : Bytes → LockState) (names : List Bytes) (sig : Signal) (w : World)
      → Locks d w state names
      → Locks d (emit d sig w) state names
  Locks-notice state names sig w h = record {
    parts = λ p n s. property_find-emit d d sig (lock_key p n) w ∙ h.parts p n s;
    held_names = h.held_names;
    short_names = h.short_names;
    distinct = h.distinct;
    list = property_find-emit d d sig named_locks w ∙ h.list;
    in_locked_set = rw ((emit-OnlyIndex d sig w).locked) h.in_locked_set;
    locked_set_distinct = rw ((emit-OnlyIndex d sig w).locked) h.locked_set_distinct;
  }

  -- The same states, given by another function.
  Locks-state :
      (state state' : Bytes → LockState) (names : List Bytes) (w : World)
      → ((n : Bytes) → state n ≡ state' n)
      → Locks d w state names
      → Locks d w state' names
  Locks-state state state' names w e h = subst (λ f. Locks d w f names) (fun_ext e) h

  unchanged :
      (state : Bytes → LockState) (n : Bytes) → state n ≡ with_state state name (state name) n
  unchanged state n = ground (arith, eq_iff name n)

  kept_state :
      (st : LockState) (state : Bytes → LockState) (names : List Bytes) (w : World)
      → state name ≡ st
      → Locks d w state names
      → Locks d w (with_state state name st) names
  kept_state st state names w e h =
      Locks-state state (with_state state name st) names w
        (λ n. unchanged state n ∙ ap (λ s. with_state state name s n) e) h

  module _ (state : Bytes → LockState) (names : List Bytes) (w : World) where
    -- A holder leaves: the last one frees the lock.
    leaves :
        (x : Bool) (first : Bytes) (l : List Bytes)
        → state name ≡ held x first l
        → contains sender (first ∷ l) ≡ true
        → Locks d w state names
        → Locks d
            (emit d (lock_released name sender) (
              if length (first ∷ l) == 1
              then drop_lock d name w
              else (strlist_remove d (lock_key dbus_name_part name) sender w).1))
            (with_state state name (with_holders x (remove_first sender (first ∷ l))))
            (if is_held (with_holders x (remove_first sender (first ∷ l)))
              then names
              else remove_first name names)
    leaves x first l st here h =
        let H = lock_key dbus_name_part name in
        let old = first ∷ l in
        let new = remove_first sender old in
        let busy : is_held (state name) ≡ true = ap is_held st in
        elim (Bool-cases (length old == 1)) [
          | inl last ↦
              let none_left : new ≡ [] = ground (
                arith,
                last,
                length-remove_first sender old here,
                is_empty-length new,
                empty_eq new,
              ) in
              rw (last, none_left)
                (Locks-notice (with_state state name free) (remove_first name names)
                  (lock_released name sender) (drop_lock d name w)
                  (Locks-drop d name sender short state names w busy h))
          | inr more ↦
              let some_left : is_empty new ≡ false =
                ground (arith, more, length-remove_first sender old here, is_empty-length new) in
              rw (more, with_holders_held x new some_left)
                (Locks-notice (with_state state name (with_holders x new)) names
                  (lock_released name sender) (strlist_remove d H sender w).1
                  (Locks-leave d name sender short x old new state names w
                    (strlist_remove d H sender w).1 (ap holders st) busy some_left
                    (ap (part_property exclusive_part) st) h
                    (λ k.
                      find-strlist_remove d H d k sender old w
                        (h.parts dbus_name_part name short ∙ ap (part_property dbus_name_part) st)
                      ∙ ground arith)
                    (locked-strlist_remove d H sender w)))
        ]

    release-free : state name ≡ free → Locks d w state names → Released state names free w
    unfolding release_state
    release-free st h =
        let flag : property_find d (lock_key locked_part name) w ≡ none =
          h.parts locked_part name short ∙ ap (part_property locked_part) st in
        let call : release_lock d name sender w ≡ (false, w) =
          unfold release_lock in rw (get_bool-none d (lock_key locked_part name) w flag) in
        rw call (
          refl,
          rw (remove_first_absent name names (h.held_names name short ∙ ap is_held st))
              (kept_state free state names w st h),
        )

    release-held :
        (x : Bool) (first : Bytes) (l : List Bytes)
        → state name ≡ held x first l
        → Locks d w state names
        → Released state names (held x first l) w
    unfolding release_state
    release-held x first l st h =
        let flag : property_find d (lock_key locked_part name) w ≡ some (boolean true) =
          h.parts locked_part name short ∙ ap (part_property locked_part) st in
        let holding : property_find d (lock_key dbus_name_part name) w
            ≡ names_property (first ∷ l) =
          h.parts dbus_name_part name short ∙ ap (part_property dbus_name_part) st in
        let call =
          release_held (first ∷ l) w (get_bool-find d (lock_key locked_part name) w true flag)
            holding in
        elim (Bool-cases (contains sender (first ∷ l))) [
          | inr absent ↦ rw (call, absent) (refl, kept_state (held x first l) state names w st h)
          | inl here ↦ rw (call, here) (refl, leaves x first l st here h)
        ]

    -- For every state of a lock whose name fits the buffer, `hal_device_release_lock` returns what
    -- the specification returns and leaves the device with that one lock in the state that it
    -- gives; all other locks of the device keep their states.
    pub release_lock-Locks : Locks d w state names → Released state names (state name) w
    release_lock-Locks h = by_state (state name) refl
      where
        by_state : (st : LockState) → state name ≡ st → Released state names st w
        by_state free e = release-free e h
        by_state (held x first l) e = release-held x first l e h
