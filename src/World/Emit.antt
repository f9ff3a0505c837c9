-- ===== src/World/Emit.antt =====
-- hald/device_store.c: the handlers that a store connects to its devices, and hald/device.c: the
-- emission of a device's signals, which runs them.
use hal.Prelude.{ℕ, true, false, List, [], ◌∷◌, ◌==◌, if◌then◌else◌}
use hal.Property.{type_string, same_type}
use hal.World.{
  World, StoreId, Signal, pre_property_changed, property_changed, capability_added, lock_acquired,
  lock_released, device_property_changed, device_capability_added, device_lock_acquired,
  device_lock_released, property_get_type, log_event,
}
use hal.World.Index.{index_modify_string}

-- The handlers `device_pre_property_changed`, `emit_device_property_changed`,
-- `emit_device_capability_added`, `emit_device_lock_acquired` and `emit_device_lock_released`.
unfoldable pub handle : StoreId → ℕ → Signal → World → World
handle s d (pre_property_changed key removed) w =
    if same_type (property_get_type d key w) type_string
    then index_modify_string s d key false w
    else w
handle s d (property_changed key removed added) w =
    log_event (device_property_changed s d key removed added) (
      if same_type (property_get_type d key w) type_string
      then index_modify_string s d key true w
      else w)
handle s d (capability_added capability) w = log_event (device_capability_added s d capability) w
handle s d (lock_acquired name owner) w = log_event (device_lock_acquired s d name owner) w
handle s d (lock_released name owner) w = log_event (device_lock_released s d name owner) w

-- The handlers of the connections that are the device's, in order.
unfoldable pub deliver : ℕ → Signal → List (StoreId × ℕ) → World → World
deliver d sig [] w = w
deliver d sig ((s, e) ∷ rest) w = deliver d sig rest (if e == d then handle s d sig w else w)

-- `g_signal_emit`
unfoldable pub emit : ℕ → Signal → World → World
unfolding deliver
emit d sig w = deliver d sig w.connections w
