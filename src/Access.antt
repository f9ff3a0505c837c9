-- ===== src/Access.antt =====
-- hald/access-check.c: which callers may use a device, and who is kept out of it by the locks of
-- others. The build with PolicyKit is not modelled.
pub mod Locked
pub mod Granted
use hal.Prelude.{
  ℕ, ◌≡◌, refl, Bool, true, false, not, ◌&&◌, ◌||◌, Option, none, some, List, [], ◌∷◌, ◌++◌, ◌==◌,
  if◌then◌else◌, Bytes, codes, str_eq, or_else,
}
use hal.World.{World, gdl, tdl}
use hal.Device.{get_udi}
use hal.Store.{store_find}
use hal.Lock.{get_lock_holders}

-- `CICallerInfo`, what the daemon knows of a caller: its user, its ConsoleKit session if it has
-- one, and whether that session is local and active.
pub record Caller : Type 0 where
  pub uid : ℕ
  pub session_objpath : Option Bytes
  pub is_local : Bool
  pub in_active_session : Bool

-- Built with `HAVE_CONKIT` or not; the daemon's own user; and the answers of `ci_tracker_get_info`,
-- with `none` for a caller that the bus does not know.
pub record Site : Type 0 where
  pub have_conkit : Bool
  pub euid : ℕ
  pub get_info : Bytes → Option Caller

abbrev pub computer_udi : Bytes
computer_udi = codes "/org/freedesktop/Hal/devices/computer"

abbrev pub hal_lock : Bytes
hal_lock = codes "hal-lock"

abbrev pub is_privileged : Site → Caller → Bool
is_privileged site ci = ci.uid == 0 || ci.uid == site.euid

unfoldable pub caller_is_root_or_hal : Site → Bytes → Bool
caller_is_root_or_hal site caller = elim (site.get_info caller) [
  | none ↦ false
  | some ci ↦ is_privileged site ci
]

-- A message may have no sender.
unfoldable pub message_caller_is_root_or_hal : Site → Option Bytes → Bool
unfolding caller_is_root_or_hal
message_caller_is_root_or_hal site none = false
message_caller_is_root_or_hal site (some sender) = caller_is_root_or_hal site sender

abbrev pub is_hal_lock : Option Bytes → Bool
is_hal_lock none = false
is_hal_lock (some action) = str_eq action hal_lock

-- A caller who is not privileged, on a device that is not the computer.
abbrev pub session_allows : Caller → Bool
session_allows ci = elim (ci.session_objpath) [
  | none ↦ false
  | some path ↦ if not ci.is_local then false else if not ci.in_active_session then false else true
]

unfoldable pub have_access_to_device : Site → ℕ → Option Bytes → Bytes → World → Bool
have_access_to_device site d action caller w =
    if not site.have_conkit then true else elim (site.get_info caller) [
      | none ↦ false
      | some ci ↦
          if is_privileged site ci
          then true
          else if is_hal_lock action && str_eq (get_udi d w) computer_udi
          then true
          else session_allows ci
    ]

-- The root device, in one of the two lists.
unfoldable pub find_computer : World → Option ℕ
find_computer w = elim (store_find gdl computer_udi w) [
  | none ↦ store_find tdl computer_udi w
  | some c ↦ some c
]

abbrev pub global_lock_name : Bytes → Bytes
global_lock_name interface_name = codes "Global." ++ interface_name

-- Without holders the code has NULL, and does not enter the loops.
abbrev pub holders_of : ℕ → Bytes → World → List Bytes
holders_of d name w = or_else [] (get_lock_holders d name w)

-- The first loop: `none` where the caller is a holder, else whether there is a holder.
unfoldable pub scan_holders : Bytes → List Bytes → Bool → Option Bool
scan_holders caller [] is_locked = some is_locked
scan_holders caller (h ∷ rest) is_locked =
    let later = scan_holders caller rest true in if str_eq h caller then none else later

-- The second loop, with the test of access to the device: is the caller locked out?
unfoldable pub scan_global : (Bytes → Bool) → Bytes → List Bytes → Bool → Bool
scan_global access caller [] is_locked = is_locked
scan_global access caller (h ∷ rest) is_locked =
    if str_eq h caller
    then (if access h then false else scan_global access caller rest is_locked)
    else scan_global access caller rest (if access h then true else is_locked)

unfoldable pub caller_locked_out : Site → ℕ → Bytes → Bytes → World → Bool
unfolding scan_holders scan_global have_access_to_device
caller_locked_out site d caller interface_name w = elim (find_computer w) [
  | none ↦ true
  | some computer ↦ elim (scan_holders caller (holders_of d interface_name w) false) [
    | none ↦ false
    | some is_locked ↦
        scan_global (λ h. have_access_to_device site d (some hal_lock) h w) caller
          (holders_of computer (global_lock_name interface_name) w) is_locked
  ]
]

-- Without a name the caller is connected directly, and every holder is another one.
abbrev pub is_other : Option Bytes → Bytes → Bool
is_other none h = true
is_other (some caller) h = not (str_eq h caller)

-- The loops that stop at the first holder that passes the test.
unfoldable pub any_holder : (Bytes → Bool) → List Bytes → Bool
any_holder test [] = false
any_holder test (h ∷ rest) = if test h then true else any_holder test rest

unfoldable pub locked_by_others : Site → ℕ → Option Bytes → Bytes → World → Bool
unfolding any_holder have_access_to_device
locked_by_others site d caller interface_name w = elim (find_computer w) [
  | none ↦ true
  | some computer ↦
      if any_holder (is_other caller) (holders_of d interface_name w)
      then true
      else any_holder (λ h. is_other caller h && have_access_to_device site d (some hal_lock) h w)
          (holders_of computer (global_lock_name interface_name) w)
]
