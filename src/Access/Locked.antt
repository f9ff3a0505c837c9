-- ===== src/Access/Locked.antt =====
-- hald/access-check.c: who is locked out, as a condition on the holders of the two locks.
use hal.Prelude.{
  ℕ, ◌≡◌, refl, ap, ◌∙◌, Bool, true, false, not, ◌&&◌, ◌||◌, none, some, List, [], ◌∷◌,
  if◌then◌else◌, arith, Bytes, str_eq, eq_iff, contains, Option-cases, Bool-cases, inl, inr,
}
use hal.World.{World}
use hal.Lock.View.{is_empty}
use hal.Access.{
  Site, have_access_to_device, hal_lock, find_computer, global_lock_name, holders_of, scan_holders,
  scan_global, caller_locked_out, is_other, any_holder, locked_by_others,
}

scan_holders-contains :
    (caller : Bytes) (l : List Bytes) (b : Bool)
    → scan_holders caller l b ≡ (if contains caller l then none else some (b || not (is_empty l)))
unfolding scan_holders contains
scan_holders-contains caller [] b = ground arith
scan_holders-contains caller (h ∷ rest) b = ground (arith, scan_holders-contains caller rest true)

scan_global-any_holder :
    (access : Bytes → Bool) (caller : Bytes) (l : List Bytes) (b : Bool)
    → scan_global access caller l b ≡ (
        if contains caller l && access caller
        then false
        else b || any_holder (λ h. is_other (some caller) h && access h) l)
unfolding scan_global contains any_holder
scan_global-any_holder access caller [] b = ground arith
scan_global-any_holder access caller (h ∷ rest) b = elim (Bool-cases (str_eq h caller)) [
  | inl same ↦ ground (
    arith,
    same,
    ap access ((eq_iff h caller).0 same),
    scan_global-any_holder access caller rest b,
  )
  | inr other ↦ ground (
    arith,
    other,
    scan_global-any_holder access caller rest b,
    scan_global-any_holder access caller rest true,
  )
]

-- The calling process has a say of its own: it holds the lock on the device, or the global lock
-- and may use the device.
abbrev pub holds_itself : Site → ℕ → ℕ → Bytes → Bytes → World → Bool
holds_itself site d computer caller name w =
    contains caller (holders_of d name w)
    || contains caller (holders_of computer (global_lock_name name) w)
      && have_access_to_device site d (some hal_lock) caller w

-- Another process holds the lock on the device, or the global lock and may use the device.
abbrev pub other_holds : Site → ℕ → ℕ → Bytes → Bytes → World → Bool
other_holds site d computer caller name w =
    any_holder (is_other (some caller)) (holders_of d name w)
    || any_holder
        (λ h. is_other (some caller) h && have_access_to_device site d (some hal_lock) h w)
        (holders_of computer (global_lock_name name) w)

other_of_holders :
    (caller : Bytes) (l : List Bytes)
    → contains caller l ≡ false
    → any_holder (is_other (some caller)) l ≡ not (is_empty l)
unfolding contains any_holder
other_of_holders caller [] h = refl
other_of_holders caller (x ∷ l) h = ground (arith, other_of_holders caller l)

-- The two loops on any holders.
loops :
    (access : Bytes → Bool) (caller : Bytes) (local global : List Bytes)
    → (elim (scan_holders caller local false) [
      | none ↦ false
      | some b ↦ scan_global access caller global b
    ])
      ≡ ((any_holder (is_other (some caller)) local
            || any_holder (λ h. is_other (some caller) h && access h) global)
          && not (contains caller local || contains caller global && access caller))
loops access caller local global = elim (Bool-cases (contains caller local)) [
  | inl mine ↦ rw (scan_holders-contains caller local false, mine) (ground arith)
  | inr absent ↦
      rw (scan_holders-contains caller local false, absent)
        (scan_global-any_holder access caller global (not (is_empty local))
          ∙ ground (arith, other_of_holders caller local absent))
]

-- With the computer device there, a caller is locked out exactly when another process holds the
-- lock on the device, or holds the global lock and may use the device, and the caller neither
-- holds the lock on the device nor holds the global lock with leave to use the device.
pub caller_locked_out_lem :
    (site : Site) (d computer : ℕ) (caller name : Bytes) (w : World)
    → find_computer w ≡ some computer
    → caller_locked_out site d caller name w ≡ (
        other_holds site d computer caller name w
        && not (holds_itself site d computer caller name w))
unfolding caller_locked_out any_holder
caller_locked_out_lem site d computer caller name w h =
    rw (h, caller_locked_out)
      (loops (λ x. have_access_to_device site d (some hal_lock) x w) caller (holders_of d name w)
        (holders_of computer (global_lock_name name) w))

locked_by_others_lem :
    (site : Site) (d computer : ℕ) (caller name : Bytes) (w : World)
    → find_computer w ≡ some computer
    → locked_by_others site d (some caller) name w ≡ other_holds site d computer caller name w
unfolding locked_by_others any_holder
locked_by_others_lem site d computer caller name w h = rw (h, locked_by_others) (ground arith)

-- A caller that is locked out is so by others: the test for the locks of other processes finds one.
pub caller_locked_out-locked_by_others :
    (site : Site) (d : ℕ) (caller name : Bytes) (w : World)
    → caller_locked_out site d caller name w ≡ true
    → locked_by_others site d (some caller) name w ≡ true
unfolding locked_by_others
caller_locked_out-locked_by_others site d caller name w h = elim (Option-cases (find_computer w)) [
  | inl no_computer ↦ rw (no_computer, locked_by_others) refl
  | inr (computer, e) ↦ ground (
    arith,
    locked_by_others_lem site d computer caller name w e,
    caller_locked_out_lem site d computer caller name w e,
  )
]
