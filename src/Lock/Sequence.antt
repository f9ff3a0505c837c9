-- ===== src/Lock/Sequence.antt =====
-- hald/device.c: what `hal_device_acquire_lock`, `hal_device_release_lock` and
-- `hal_device_client_disconnected` do one after the other.
use hal.Prelude.{
  ℕ, ◌≡◌, refl, sym, ap, ◌∙◌, Bool, true, false, none, some, List, [], ◌∷◌, ◌++◌, if◌then◌else◌,
  arith, Bytes, eq_iff, eq_refl, contains, remove_first,
}
use hal.World.{World, property_find, mem}
use hal.Device.{dup_strlist_as_strv, get_strlist}
use hal.Lock.{
  Part, named_locks, lock_key, exclusive_part, acquire_lock, release_lock, is_lock_exclusive,
  release_locks, disconnect_loop, client_disconnected,
}
use hal.Lock.Key.{IsShort}
use hal.Lock.View.{
  LockState, free, held, is_held, acquire_state, release_state, part_property, names_property,
  Locks, with_state, with_name,
}
use hal.Lock.Acquire.{acquire_lock-Locks, get_bool-find}
use hal.Lock.Release.{release_lock-Locks}

with_state_same :
    (state : Bytes → LockState) (n : Bytes) (st : LockState) → with_state state n st n ≡ st
with_state_same state n st = rw (eq_refl n) refl

-- For a lock whose name fits the buffer: an exclusive request for a lock that callers share fails,
-- the lock is marked exclusive all the same, and the next request for it, shared or exclusive and
-- by any caller, fails.
pub acquire_lock_failed_exclusive :
    (d : ℕ) (name sender first : Bytes) (l : List Bytes) (state : Bytes → LockState)
    (names : List Bytes) (w : World) (exclusive : Bool) (other : Bytes)
    → IsShort name
    → Locks d w state names
    → state name ≡ held false first l
    → ((acquire_lock d name true sender w).0 ≡ false)
      × (is_lock_exclusive d name (acquire_lock d name true sender w).1 ≡ true)
      × ((acquire_lock d name exclusive other (acquire_lock d name true sender w).1).0 ≡ false)
unfolding acquire_state is_lock_exclusive
acquire_lock_failed_exclusive d name sender first l state names w exclusive other short h st =
    let (failed, locks) = acquire_lock-Locks d name sender short true state names w h in
    let v = (acquire_lock d name true sender w).1 in
    let after = with_state state name (acquire_state true sender (state name)).1 in
    let marked : after name ≡ held true first l =
      with_state_same state name _ ∙ ap (λ s. (acquire_state true sender s).1) st in
    let later = (acquire_lock-Locks d name other short exclusive after _ v locks).0 in
    (
      failed ∙ ap (λ s. (acquire_state true sender s).0) st,
      get_bool-find d (lock_key exclusive_part name) v true
          (locks.parts exclusive_part name short ∙ ap (part_property exclusive_part) marked),
      later ∙ ap (λ s. (acquire_state exclusive other s).0) marked,
    )

dup_strlist-named_locks :
    (d : ℕ) (name : Bytes) (l : List Bytes) (w : World)
    → property_find d named_locks w ≡ names_property (name ∷ l)
    → dup_strlist_as_strv d named_locks w ≡ some (name ∷ l)
unfolding dup_strlist_as_strv get_strlist
dup_strlist-named_locks d name l w h = rw (h, dup_strlist_as_strv, get_strlist) refl

disconnect_loop_last :
    (d : ℕ) (rest : List ℕ) (name sender : Bytes) (w : World)
    → dup_strlist_as_strv d named_locks w ≡ some (name ∷ [])
    → mem d (release_lock d name sender w).1.locked_devices ≡ false
    → disconnect_loop sender (d ∷ rest) w ≡ none
unfolding disconnect_loop release_locks
disconnect_loop_last d rest name sender w locks gone = rw locks (rw gone refl)

-- Where the first device of the locked set has one held lock, whose name fits the buffer, and one
-- caller holds it, the disconnection of this caller is a fault: the loop over the locked set
-- frees the node that it stands at.
pub client_disconnected_fault :
    (d : ℕ) (rest : List ℕ) (name sender : Bytes) (exclusive : Bool) (state : Bytes → LockState)
    (w : World)
    → IsShort name
    → w.locked_devices ≡ d ∷ rest
    → Locks d w state (name ∷ [])
    → state name ≡ held exclusive sender []
    → client_disconnected sender w ≡ none
unfolding client_disconnected
client_disconnected_fault d rest name sender exclusive state w short first h st =
    let v = (release_lock d name sender w).1 in
    let locks = (release_lock-Locks d name sender short state (name ∷ []) w h).1 in
    let after : (release_state sender (state name)).1 ≡ free =
      unfold release_state contains remove_first in rw (st, eq_refl sender) refl in
    let gone : mem d v.locked_devices ≡ false =
      locks.in_locked_set ∙ unfold remove_first in rw (after, eq_refl name) refl in
    ap (λ l. disconnect_loop sender l w) first
    ∙ disconnect_loop_last d rest name sender w (dup_strlist-named_locks d name [] w h.list) gone

abbrev taken : Bool → Bytes → LockState → Bool
taken exclusive sender st = (acquire_state exclusive sender st).0

pub contains-append_last : (s : Bytes) (l : List Bytes) → contains s (l ++ (s ∷ [])) ≡ true
unfolding contains
contains-append_last s [] = rw (eq_refl s) refl
contains-append_last s (x ∷ l) = ground (arith, contains-append_last s l)

remove_first-append_last :
    (s : Bytes) (l : List Bytes) → contains s l ≡ false → remove_first s (l ++ (s ∷ [])) ≡ l
unfolding contains remove_first
remove_first-append_last s [] h = rw (eq_refl s) refl
remove_first-append_last s (x ∷ l) h = ground (arith, remove_first-append_last s l)

-- A call that is granted, and the release by the same caller, give the lock the state it had.
release_state-acquire_state :
    (exclusive : Bool) (sender : Bytes) (st : LockState)
    → taken exclusive sender st ≡ true
    → release_state sender (acquire_state exclusive sender st).1 ≡ (true, st)
unfolding acquire_state release_state contains remove_first
release_state-acquire_state exclusive sender free h = rw (eq_refl sender) refl
release_state-acquire_state exclusive sender (held true first l) h = absurd (ground arith)
release_state-acquire_state true sender (held false first l) h = absurd (ground arith)
release_state-acquire_state false sender (held false first l) h =
    ground (arith, contains-append_last sender l, remove_first-append_last sender l)

-- The list of held locks after a name is entered and, if its lock is free again, taken out.
names_again :
    (name : Bytes) (names : List Bytes) (st : LockState)
    → contains name names ≡ is_held st
    → (if is_held st then with_name name names else remove_first name (with_name name names))
      ≡ names
names_again name names free h = rw h (remove_first-append_last name names h)
names_again name names (held x first l) h = rw h refl

-- Where the device's properties represent its locks and the lock's name fits the buffer, a request
-- that is granted and the release by the same caller: the release succeeds, and every property of
-- every lock whose name fits the buffer, and the list of held locks, are what they were before the
-- request.
pub release_lock-acquire_lock :
    (d : ℕ) (name sender : Bytes) (exclusive : Bool) (state : Bytes → LockState)
    (names : List Bytes) (w : World) (p : Part) (n : Bytes)
    → IsShort name
    → IsShort n
    → Locks d w state names
    → (acquire_lock d name exclusive sender w).0 ≡ true
    → ((release_lock d name sender (acquire_lock d name exclusive sender w).1).0 ≡ true)
      × (property_find d
            (lock_key p n)
            (release_lock d name sender (acquire_lock d name exclusive sender w).1).1
          ≡ property_find d (lock_key p n) w)
      × (property_find d named_locks
            (release_lock d name sender (acquire_lock d name exclusive sender w).1).1
          ≡ property_find d named_locks w)
release_lock-acquire_lock d name sender exclusive state names w p n short short_n h granted =
    let (result, locks) = acquire_lock-Locks d name sender short exclusive state names w h in
    let v = (acquire_lock d name exclusive sender w).1 in
    let st = (acquire_state exclusive sender (state name)).1 in
    let after = with_state state name st in
    let (released, again) = release_lock-Locks d name sender short after _ v locks in
    let is_granted : taken exclusive sender (state name) ≡ true = sym result ∙ granted in
    let back : release_state sender (after name) ≡ (true, state name) =
      ap (release_state sender) (with_state_same state name st)
      ∙ release_state-acquire_state exclusive sender (state name) is_granted in
    let same_state : with_state after name (release_state sender (after name)).1 n ≡ state n =
      ap (λ (r : Bool × LockState). with_state after name r.1 n) back
      ∙ ground (arith, eq_iff name n) in
    let entered : List Bytes → List Bytes =
      λ l. if is_held (release_state sender (after name)).1 then l else remove_first name l in
    let same_names =
      ap (λ b. entered (if b then with_name name names else names)) is_granted
      ∙ ap
          (λ (r : Bool × LockState).
            if is_held r.1 then with_name name names else remove_first name (with_name name names))
          back
      ∙ names_again name names (state name) (h.held_names name short) in
    (
      released ∙ ap (λ r. r.0) back,
      again.parts p n short_n ∙ ap (part_property p) same_state ∙ sym (h.parts p n short_n),
      again.list ∙ ap names_property same_names ∙ sym h.list,
    )
