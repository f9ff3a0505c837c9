-- ===== src/Service/Interface.antt =====
-- hald/hald_dbus.c: the locks on interfaces of a device, and on interfaces of all devices.
use hal.Prelude.{ℕ, Bool, true, Option, some, if◌then◌else◌, Bytes, codes}
use hal.World.{World, M}
use hal.Lock.{acquire_lock, release_lock}
use hal.Access.{
  Site, computer_udi, global_lock_name, have_access_to_device, caller_locked_out, locked_by_others,
}
use hal.Service.{
  Reply, Request, permission_denied, interface_already_locked, interface_not_locked, returned_bool,
  no_policykit, on_device, with_args, with_sender, if_privileged, or_error,
}

abbrev pub lock_action : Bytes
lock_action = codes "org.freedesktop.hal.lock"

-- May the sender take locks of the device?
abbrev pub may_lock : Site → Request → ℕ → Bytes → World → Bool
may_lock site r d sender w =
    if r.local_interface then true else have_access_to_device site d (some lock_action) sender w

unfoldable pub device_acquire_interface_lock : Site → Request → Option (Bytes × Bool) → M Reply
device_acquire_interface_lock site r args = on_device r.path (λ d.
    with_args args (λ (name, exclusive). with_sender r.sender (λ sender w.
      if may_lock site r d sender w
      then or_error (interface_already_locked name) (acquire_lock d name exclusive sender w)
      else (permission_denied, w))))

unfoldable pub device_release_interface_lock : Request → Option Bytes → M Reply
device_release_interface_lock r args = on_device r.path (λ d. with_args args (λ name.
    with_sender r.sender
      (λ sender w. or_error (interface_not_locked name) (release_lock d name sender w))))

unfoldable pub device_is_caller_locked_out : Site → Request → Option (Bytes × Bytes) → M Reply
device_is_caller_locked_out site r args = on_device r.path (λ d. if_privileged site r (
    with_args args
      (λ (name, caller) w. (returned_bool (caller_locked_out site d caller name w), w))))

-- In a build without PolicyKit.
unfoldable pub device_is_caller_privileged : M Reply
device_is_caller_privileged w = (no_policykit, w)

unfoldable pub device_is_locked_by_others : Site → Request → Option Bytes → M Reply
device_is_locked_by_others site r args =
    on_device r.path
      (λ d. with_args args (λ name w. (returned_bool (locked_by_others site d r.sender name w), w)))

unfoldable pub device_acquire_global_interface_lock : Request → Option (Bytes × Bool) → M Reply
device_acquire_global_interface_lock r args = on_device computer_udi (λ d.
    with_args args (λ (name, exclusive). with_sender r.sender (λ sender w.
      or_error (interface_already_locked name)
        (acquire_lock d (global_lock_name name) exclusive sender w))))

unfoldable pub device_release_global_interface_lock : Request → Option Bytes → M Reply
device_release_global_interface_lock r args = on_device computer_udi (λ d. with_args args (λ name.
    with_sender r.sender (λ sender w.
      or_error (interface_not_locked name) (release_lock d (global_lock_name name) sender w))))
