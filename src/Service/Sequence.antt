-- ===== src/Service/Sequence.antt =====
-- hald/hald_dbus.c: requests one after the other.
use hal.Prelude.{
  ◌∙◌, ap, sym, ℕ, ◌≡◌, refl, Bool, true, false, some, List, if◌then◌else◌, Bytes, arith,
  Bool-cases, inl, inr,
}
use hal.World.{World}
use hal.Lock.{acquire_lock}
use hal.Lock.Key.{IsShort}
use hal.Lock.View.{LockState, Locks}
use hal.Lock.Place.{acquire_lock-Stays}
use hal.Access.{Site, find_computer, computer_udi, caller_locked_out}
use hal.Access.Granted.{caller_locked_out-acquire_lock}
use hal.Rules.Path.{find_device}
use hal.Service.{
  Reply, Request, returned_bool, permission_denied, interface_already_locked, is_trusted, on_device,
  with_args, with_sender, if_privileged, or_error,
}
use hal.Service.Interface.{may_lock, device_acquire_interface_lock, device_is_caller_locked_out}
use hal.Service.Cases.{is_returned}
use hal.Service.Place.{find_device-SamePlace}

find_computer-find_device : (w : World) → find_computer w ≡ find_device computer_udi w
unfolding find_computer find_device
find_computer-find_device w = refl

pub or_error-granted :
    (e : Reply) (x : Bool × World)
    → is_returned e ≡ false
    → is_returned (or_error e x).0 ≡ true
    → x.0 ≡ true
or_error-granted e (true, v) other h = refl
or_error-granted e (false, v) other h = absurd (ground (arith, other, h))

pub or_error-state : (e : Reply) (x : Bool × World) → (or_error e x).1 ≡ x.1
or_error-state e (true, v) = refl
or_error-state e (false, v) = refl

module _ (site : Site) (r : Request) (name caller : Bytes) (exclusive : Bool) (d : ℕ) (w : World)
    (there : find_device r.path w ≡ some d) (sent : r.sender ≡ some caller) where
  abbrev request : Reply × World
  request = device_acquire_interface_lock site r (some (name, exclusive)) w

  -- A request with good arguments from a sender, for a device that is found.
  acquire_request : request ≡ (
      if may_lock site r d caller w
      then or_error (interface_already_locked name) (acquire_lock d name exclusive caller w)
      else (permission_denied, w))
  unfolding device_acquire_interface_lock on_device with_args with_sender
  acquire_request =
      rw (there, sent, device_acquire_interface_lock, on_device, with_args, with_sender) refl

  acquire_returned :
      is_returned request.0 ≡ true
      → ((acquire_lock d name exclusive caller w).0 ≡ true)
        × (request.1 ≡ (acquire_lock d name exclusive caller w).1)
  acquire_returned h = elim (Bool-cases (may_lock site r d caller w)) [
    | inl may ↦
        let same : request
            ≡ or_error (interface_already_locked name) (acquire_lock d name exclusive caller w) =
          acquire_request ∙ rw may refl in
        (
          or_error-granted (interface_already_locked name) _ refl
              (ap (λ x. is_returned x.0) (sym same) ∙ h),
          ap (λ x. x.1) same ∙ or_error-state _ _,
        )
    | inr not_may ↦
        let denied : request ≡ (permission_denied, w) = acquire_request ∙ rw not_may refl in
        let same : is_returned request.0 ≡ false = ap (λ x. is_returned x.0) denied in
        absurd (ground (arith, same, h))
  ]

  -- A caller whose request for the lock of an interface has just been granted, where the device's
  -- properties represent its locks, the lock's name fits the buffer and there is a computer device:
  -- the question whether the caller is locked out of the interface, asked for the same object by a
  -- trusted process, is answered no.
  pub device_is_caller_locked_out-acquire :
      (asker : Request) (computer : ℕ) (state : Bytes → LockState) (names : List Bytes)
      → IsShort name
      → Locks d w state names
      → find_computer w ≡ some computer
      → asker.path ≡ r.path
      → is_trusted site asker ≡ true
      → is_returned (device_acquire_interface_lock site r (some (name, exclusive)) w).0 ≡ true
      → (device_is_caller_locked_out site asker
          (some (name, caller))
          (device_acquire_interface_lock site r (some (name, exclusive)) w).1).0
        ≡ returned_bool false
  unfolding device_is_caller_locked_out on_device with_args if_privileged
  device_is_caller_locked_out-acquire asker computer state names short locks root path trusted
        granted =
      let (taken, after) = acquire_returned granted in
      let v = (acquire_lock d name exclusive caller w).1 in
      let place = (acquire_lock-Stays d name caller exclusive w).place in
      let there' : find_device asker.path v ≡ some d =
        ap (λ p. find_device p v) path ∙ find_device-SamePlace r.path w v place ∙ there in
      let root' : find_computer v ≡ some computer =
        find_computer-find_device v
        ∙ find_device-SamePlace computer_udi w v place
        ∙ sym (find_computer-find_device w)
        ∙ root in
      let free : caller_locked_out site d caller name v ≡ false =
        caller_locked_out-acquire_lock site d computer caller name exclusive state names w short
          locks taken root' in
      let asked : (device_is_caller_locked_out site asker (some (name, caller)) v).0
          ≡ returned_bool false =
        rw (there', trusted, free, device_is_caller_locked_out, on_device, with_args, if_privileged)
          refl in
      ap (λ x. (device_is_caller_locked_out site asker (some (name, caller)) x).0) after ∙ asked
