-- ===== src/Lock/View.antt =====
-- The named locks of a device as a client sees them: a specification of hald/device.c's
-- `hal_device_acquire_lock` and `hal_device_release_lock`, and how properties represent it.
use hal.Prelude.{
  ℕ, ◌≡◌, Bool, true, false, not, ◌&&◌, Option, none, some, List, [], ◌∷◌, ◌++◌, if◌then◌else◌,
  Bytes, str_eq, contains, remove_first,
}
use hal.Property.{Property, boolean, strlist}
use hal.World.{World, mem, no_duplicates, property_find}
use hal.Lock.{Part, exclusive_part, locked_part, dbus_name_part, named_locks, lock_key}
use hal.Lock.Key.{IsShort}

-- A lock is free, or held, exclusively or not, by one caller or more.
pub data LockState : Type 0 where
  free : LockState
  held : Bool → Bytes → List Bytes → LockState

abbrev pub is_held : LockState → Bool
is_held free = false
is_held (held x h l) = true

abbrev pub is_exclusive : LockState → Bool
is_exclusive free = false
is_exclusive (held x h l) = x

abbrev pub holders : LockState → List Bytes
holders free = []
holders (held x h l) = h ∷ l

-- What a call does, and the lock's state after it. A shared lock is marked exclusive by the caller
-- that fails to get it exclusively.
unfoldable pub acquire_state : Bool → Bytes → LockState → Bool × LockState
acquire_state exclusive sender free = (true, held exclusive sender [])
acquire_state exclusive sender (held true h l) = (false, held true h l)
acquire_state exclusive sender (held false h l) =
    if exclusive
    then (false, held true h l)
    else if contains sender (h ∷ l)
    then (false, held false h l)
    else (true, held false h (l ++ (sender ∷ [])))

-- The holders that are left keep the lock as it was marked.
abbrev pub with_holders : Bool → List Bytes → LockState
with_holders x [] = free
with_holders x (h ∷ l) = held x h l

unfoldable pub release_state : Bytes → LockState → Bool × LockState
release_state sender free = (false, free)
release_state sender (held x h l) =
    if contains sender (h ∷ l)
    then (true, with_holders x (remove_first sender (h ∷ l)))
    else (false, held x h l)

-- The property of each part of a lock.
abbrev pub part_property : Part → LockState → Option Property
part_property p free = none
part_property exclusive_part (held x h l) = some (boolean x)
part_property locked_part (held x h l) = some (boolean true)
part_property dbus_name_part (held x h l) = some (strlist (h ∷ l))

abbrev pub names_property : List Bytes → Option Property
names_property [] = none
names_property (x ∷ l) = some (strlist (x ∷ l))

abbrev pub is_empty : List Bytes → Bool
is_empty [] = true
is_empty (x ∷ l) = false

unfoldable pub all_distinct : List Bytes → Bool
unfolding contains
all_distinct [] = true
all_distinct (x ∷ l) = not (contains x l) && all_distinct l

-- The device's properties represent the states of its locks: `names` are the held ones.
pub record Locks (d : ℕ) (w : World) (state : Bytes → LockState) (names : List Bytes) : Type 0 where
  pub parts :
      (p : Part) (n : Bytes)
      → IsShort n
      → property_find d (lock_key p n) w ≡ part_property p (state n)
  pub held_names : (n : Bytes) → IsShort n → contains n names ≡ is_held (state n)
  pub short_names : (n : Bytes) → contains n names ≡ true → IsShort n
  pub distinct : all_distinct names ≡ true
  pub list : property_find d named_locks w ≡ names_property names
  pub in_locked_set : mem d w.locked_devices ≡ not (is_empty names)
  pub locked_set_distinct : no_duplicates w.locked_devices ≡ true

-- The states with one lock changed.
abbrev pub with_state : (Bytes → LockState) → Bytes → LockState → Bytes → LockState
with_state state name st n = if str_eq name n then st else state n

-- The names of the held locks when one more is held.
abbrev pub with_name : Bytes → List Bytes → List Bytes
with_name name names = if contains name names then names else names ++ (name ∷ [])
