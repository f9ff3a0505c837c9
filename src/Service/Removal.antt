-- ===== src/Service/Removal.antt =====
-- hald/hald_dbus.c: the removal of a device over D-Bus.
use hal.Prelude.{ℕ, Option, none, some, Bytes, codes}
use hal.World.{World, M, gdl}
use hal.Device.{dup_strlist_as_strv}
use hal.Store.{store_find, store_remove, unref}
use hal.Access.{Site}
use hal.Service.{Reply, Request, no_such_device, returned, if_privileged, with_args}

-- `hal_util_callout_device_remove` with `manager_remove_done`: a device without programs to call is
-- done at once, and leaves the list. The programs run after the request.
unfoldable pub call_out_remove : ℕ → World → World
call_out_remove d w = elim (dup_strlist_as_strv d (codes "info.callouts.remove") w) [
  | none ↦ (store_remove gdl d w).1
  | some programs ↦ w
]

-- The device loses the reference of the list and one more. A device that is in the temporary list
-- only is looked up there, but what the lookup finds is dropped.
unfoldable pub manager_remove : Site → Request → Option Bytes → M Reply
unfolding call_out_remove
manager_remove site r args = if_privileged site r (
    with_args args (λ udi w. elim (store_find gdl udi w) [
      | none ↦ (no_such_device udi, w)
      | some d ↦ (returned, unref d (store_remove gdl d (call_out_remove d w)).1)
    ]))
