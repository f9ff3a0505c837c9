-- ===== src/Access/Granted.antt =====
-- hald/access-check.c with hald/device.c: what a granted lock means for the access checks.
use hal.Prelude.{
  ℕ, ◌≡◌, refl, sym, ap, ◌∙◌, Bool, true, false, some, List, arith, Bytes, eq_refl, contains,
}
use hal.World.{World, property_find}
use hal.Device.{get_strlist, dup_strlist_as_strv}
use hal.Lock.{dbus_name_part, lock_key, acquire_lock, get_lock_holders}
use hal.Lock.Key.{IsShort}
use hal.Lock.View.{LockState, free, held, holders, acquire_state, part_property, Locks}
use hal.Lock.Acquire.{acquire_lock-Locks}
use hal.Lock.Sequence.{contains-append_last}
use hal.Access.{Site, find_computer, holders_of, caller_locked_out}
use hal.Access.Locked.{caller_locked_out_lem}

-- The holders that the access checks read are those of the lock's state.
holders_of-Locks :
    (d : ℕ) (name : Bytes) (state : Bytes → LockState) (names : List Bytes) (w : World)
    → IsShort name
    → Locks d w state names
    → holders_of d name w ≡ holders (state name)
unfolding get_lock_holders dup_strlist_as_strv get_strlist
holders_of-Locks d name state names w short h =
    by_state (state name) (h.parts dbus_name_part name short)
  where
    by_state :
        (st : LockState)
        → property_find d (lock_key dbus_name_part name) w ≡ part_property dbus_name_part st
        → holders_of d name w ≡ holders st
    by_state free e = rw (e, get_lock_holders, dup_strlist_as_strv, get_strlist) refl
    by_state (held x first l) e = rw (e, get_lock_holders, dup_strlist_as_strv, get_strlist) refl

granted-holds :
    (exclusive : Bool) (sender : Bytes) (st : LockState)
    → (acquire_state exclusive sender st).0 ≡ true
    → contains sender (holders (acquire_state exclusive sender st).1) ≡ true
unfolding acquire_state contains
granted-holds exclusive sender free h = rw (eq_refl sender) refl
granted-holds exclusive sender (held true first l) h = absurd (ground arith)
granted-holds true sender (held false first l) h = absurd (ground arith)
granted-holds false sender (held false first l) h = ground (arith, contains-append_last sender l)

-- Where the device's properties represent its locks, and the computer device is found: the caller
-- that has just been granted a lock on an interface, whose name fits the buffer, is not locked out
-- of that interface of the device.
pub caller_locked_out-acquire_lock :
    (site : Site) (d computer : ℕ) (caller name : Bytes) (exclusive : Bool)
    (state : Bytes → LockState) (names : List Bytes) (w : World)
    → IsShort name
    → Locks d w state names
    → (acquire_lock d name exclusive caller w).0 ≡ true
    → find_computer (acquire_lock d name exclusive caller w).1 ≡ some computer
    → caller_locked_out site d caller name (acquire_lock d name exclusive caller w).1 ≡ false
caller_locked_out-acquire_lock site d computer caller name exclusive state names w short h granted
      there =
    let v = (acquire_lock d name exclusive caller w).1 in
    let (result, locks) = acquire_lock-Locks d name caller short exclusive state names w h in
    let mine : contains caller (holders_of d name v) ≡ true =
      ap (contains caller) (holders_of-Locks d name _ _ v short locks)
      ∙ rw (eq_refl name) (granted-holds exclusive caller (state name) (sym result ∙ granted)) in
    caller_locked_out_lem site d computer caller name v there ∙ rw mine (ground arith)
