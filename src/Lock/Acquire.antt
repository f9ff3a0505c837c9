-- ===== src/Lock/Acquire.antt =====
-- hald/device.c: `hal_device_acquire_lock` implements its specification.
use mathlib.Core.Path.{subst}
use hal.Prelude.{
  ℕ, ◌≡◌, refl, ap, ◌∙◌, Bool, true, false, not, ◌&&◌, none, some, List, [], ◌∷◌, ◌++◌,
  if◌then◌else◌, arith, Bytes, eq_iff, contains, inl, inr,
}
use hal.Property.{boolean}
use hal.World.{World, property_find}
use hal.Device.{has_property, get_bool, get_strlist, strlist_contains}
use hal.Device.Set.{set_bool}
use hal.Device.Locked.{locked-set_bool}
use hal.Lock.{exclusive_part, dbus_name_part, lock_key, enter_holders, acquire_lock}
use hal.Lock.Key.{IsShort, str_eq-lock_key}
use hal.Lock.View.{
  LockState, free, held, holders, acquire_state, part_property, names_property, is_empty, Locks,
  with_state, with_name,
}
use hal.Lock.Refine.{find-flag}
use hal.Lock.Entered.{entered, Locks-enter, Locks-mark}

pub get_bool-find :
    (d : ℕ) (key : Bytes) (w : World) (b : Bool)
    → property_find d key w ≡ some (boolean b)
    → get_bool d key w ≡ b
unfolding get_bool
get_bool-find d key w b h = ground arith

pub get_bool-none :
    (d : ℕ) (key : Bytes) (w : World) → property_find d key w ≡ none → get_bool d key w ≡ false
unfolding get_bool
get_bool-none d key w h = ground arith

has_property-names :
    (d : ℕ) (key : Bytes) (w : World) (l : List Bytes)
    → property_find d key w ≡ names_property l
    → has_property d key w ≡ not (is_empty l)
unfolding has_property
has_property-names d key w [] h = ground arith
has_property-names d key w (x ∷ l) h = ground arith

pub strlist_contains-names :
    (d : ℕ) (key value : Bytes) (w : World) (l : List Bytes)
    → property_find d key w ≡ names_property l
    → strlist_contains d key value w ≡ contains value l
unfolding strlist_contains contains
strlist_contains-names d key value w [] h = rw (h, strlist_contains, get_strlist)
strlist_contains-names d key value w (x ∷ l) h = rw (h, strlist_contains, get_strlist)

module _ (d : ℕ) (name sender : Bytes) (short : IsShort name) where
  -- The result and the state of the call, for each state of the lock.
  abbrev Acquired : Bool → (Bytes → LockState) → List Bytes → LockState → World → Type 0
  Acquired exclusive state names st w =
      ((acquire_lock d name exclusive sender w).0 ≡ (acquire_state exclusive sender st).0)
      × Locks d (acquire_lock d name exclusive sender w).1
          (with_state state name (acquire_state exclusive sender st).1)
          (if (acquire_state exclusive sender st).0 then with_name name names else names)

  -- The call on a lock that is not marked exclusive, by the holders it has.
  acquire_unmarked :
      (exclusive : Bool) (old : List Bytes) (w : World)
      → get_bool d (lock_key exclusive_part name) w ≡ false
      → property_find d
          (lock_key dbus_name_part name)
          (set_bool d (lock_key exclusive_part name) exclusive w).1
        ≡ names_property old
      → acquire_lock d name exclusive sender w ≡ (
          let v = (set_bool d (lock_key exclusive_part name) exclusive w).1 in
          if exclusive && not (is_empty old)
          then (false, v)
          else if contains sender old
          then (false, v)
          else (true, enter_holders d name sender v))
  unfolding acquire_lock
  acquire_unmarked exclusive old w unmarked holding = rw (
    unmarked,
    has_property-names d (lock_key dbus_name_part name) _ old holding,
    strlist_contains-names d (lock_key dbus_name_part name) sender _ old holding,
  )

  shared_result :
      (exclusive c : Bool) (first : Bytes) (l : List Bytes) (state : Bytes → LockState)
      (names : List Bytes) (v u : World)
      → Locks d v (with_state state name (held exclusive first l)) names
      → Locks d u
          (with_state state name (held exclusive first (l ++ (sender ∷ []))))
          (with_name name names)
      → (let call : Bool × World =
            if exclusive && true then (false, v) else if c then (false, v) else (true, u) in
          let spec : Bool × LockState =
            if exclusive
            then (false, held true first l)
            else if c
            then (false, held false first l)
            else (true, held false first (l ++ (sender ∷ []))) in
          (call.0 ≡ spec.0)
          × Locks d call.1
              (with_state state name spec.1)
              (if spec.0 then with_name name names else names))
  shared_result true c first l state names v u marked entering = (refl, marked)
  shared_result false true first l state names v u marked entering = (refl, marked)
  shared_result false false first l state names v u marked entering = (refl, entering)

  module _ (exclusive : Bool) (state : Bytes → LockState) (names : List Bytes) (w : World) where
    acquire-free : state name ≡ free → Locks d w state names → Acquired exclusive state names free w
    unfolding acquire_state contains
    acquire-free st h =
        let X = lock_key exclusive_part name in
        let H = lock_key dbus_name_part name in
        let v = (set_bool d X exclusive w).1 in
        let no_flag : property_find d X w ≡ none =
          h.parts exclusive_part name short ∙ ap (part_property exclusive_part) st in
        let change = λ (k : Bytes). find-flag d X exclusive k w (inl no_flag) in
        let no_holders : property_find d H v ≡ names_property [] =
          change H
          ∙ rw (str_eq-lock_key exclusive_part dbus_name_part name name short short)
              (h.parts dbus_name_part name short ∙ ap (part_property dbus_name_part) st) in
        let call : acquire_lock d name exclusive sender w ≡ (true, enter_holders d name sender v) =
          acquire_unmarked exclusive [] w (get_bool-none d X w no_flag) no_holders ∙ ground arith in
        let kept =
          Locks-enter d name sender short exclusive state names w v h change
            (locked-set_bool d X exclusive w) in
        rw call (
          refl,
          subst
              (λ st'.
                Locks d (enter_holders d name sender v)
                  (with_state state name (entered exclusive sender (holders st')))
                  (with_name name names))
              st kept,
        )

    acquire-marked :
        (first : Bytes) (l : List Bytes)
        → state name ≡ held true first l
        → Locks d w state names
        → Acquired exclusive state names (held true first l) w
    unfolding acquire_state
    acquire-marked first l st h =
        let X = lock_key exclusive_part name in
        let flag : property_find d X w ≡ some (boolean true) =
          h.parts exclusive_part name short ∙ ap (part_property exclusive_part) st in
        let call : acquire_lock d name exclusive sender w ≡ (false, w) =
          unfold acquire_lock in rw (get_bool-find d X w true flag) in
        rw call (
          refl,
          Locks-mark d name sender short true true first l state names w w st h
              (λ k. ground (arith, flag, eq_iff X k)) refl,
        )

    acquire-shared :
        (first : Bytes) (l : List Bytes)
        → state name ≡ held false first l
        → Locks d w state names
        → Acquired exclusive state names (held false first l) w
    unfolding acquire_state
    acquire-shared first l st h =
        let X = lock_key exclusive_part name in
        let H = lock_key dbus_name_part name in
        let v = (set_bool d X exclusive w).1 in
        let flag : property_find d X w ≡ some (boolean false) =
          h.parts exclusive_part name short ∙ ap (part_property exclusive_part) st in
        let change = λ (k : Bytes). find-flag d X exclusive k w (inr (false, flag)) in
        let holding : property_find d H v ≡ names_property (first ∷ l) =
          change H
          ∙ rw (str_eq-lock_key exclusive_part dbus_name_part name name short short)
              (h.parts dbus_name_part name short ∙ ap (part_property dbus_name_part) st) in
        let call =
          acquire_unmarked exclusive (first ∷ l) w (get_bool-find d X w false flag) holding in
        let marked =
          Locks-mark d name sender short exclusive false first l state names w v st h change
            (locked-set_bool d X exclusive w) in
        let entering =
          Locks-enter d name sender short exclusive state names w v h change
            (locked-set_bool d X exclusive w) in
        rw call (
          shared_result exclusive (contains sender (first ∷ l)) first l state names v
            (enter_holders d name sender v) marked
            (subst
              (λ st'.
                Locks d (enter_holders d name sender v)
                  (with_state state name (entered exclusive sender (holders st')))
                  (with_name name names))
              st entering))

  -- For every state of a lock whose name fits the buffer, `hal_device_acquire_lock` returns what
  -- the specification returns and leaves the device with that one lock in the state that it
  -- gives; all other locks of the device keep their states.
  pub acquire_lock-Locks :
      (exclusive : Bool) (state : Bytes → LockState) (names : List Bytes) (w : World)
      → Locks d w state names
      → Acquired exclusive state names (state name) w
  acquire_lock-Locks exclusive state names w h = by_state (state name) refl
    where
      by_state : (st : LockState) → state name ≡ st → Acquired exclusive state names st w
      by_state free e = acquire-free exclusive state names w e h
      by_state (held true first l) e = acquire-marked exclusive state names w first l e h
      by_state (held false first l) e = acquire-shared exclusive state names w first l e h
