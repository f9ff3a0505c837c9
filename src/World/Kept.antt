-- ===== src/World/Kept.antt =====
-- hald/device_store.c: what the handlers of a store leave as it was.
use hal.Prelude.{ℕ, ◌≡◌, refl, Bool, true, false, List, [], ◌∷◌, ◌∙◌, ◌==◌, if◌then◌else◌, Bytes}
use hal.Property.{type_string, same_type}
use hal.World.{
  World, StoreId, Signal, Event, pre_property_changed, property_changed, capability_added,
  lock_acquired, lock_released, property_get_type, log_event,
}
use hal.World.Index.{
  index_modify_string, indexed, index_of, indexed-index_modify_string, heap-index_modify_string,
  connections-index_modify_string, next-index_modify_string, temp-index_modify_string,
  locked_devices-index_modify_string, devices-index_modify_string,
}
use hal.World.Emit.{handle, deliver, emit}

-- What no handler changes.
pub record OnlyIndex (v w : World) : Type 0 where
  pub heap : v.heap ≡ w.heap
  pub next : v.next ≡ w.next
  pub temp : v.temp_device_counter ≡ w.temp_device_counter
  pub locked : v.locked_devices ≡ w.locked_devices
  pub connections : v.connections ≡ w.connections
  pub devices : (t : StoreId) → (v.stores t).devices ≡ (w.stores t).devices
  pub indexed_keys : (t : StoreId) (k : Bytes) → indexed t k v ≡ indexed t k w

pub OnlyIndex-refl : (w : World) → OnlyIndex w w
OnlyIndex-refl w = record {
  heap = refl;
  next = refl;
  temp = refl;
  locked = refl;
  connections = refl;
  devices = λ t. refl;
  indexed_keys = λ t k. refl;
}

pub OnlyIndex-trans : {u v w : World} → OnlyIndex u v → OnlyIndex v w → OnlyIndex u w
OnlyIndex-trans p q = record {
  heap = p.heap ∙ q.heap;
  next = p.next ∙ q.next;
  temp = p.temp ∙ q.temp;
  locked = p.locked ∙ q.locked;
  connections = p.connections ∙ q.connections;
  devices = λ t. p.devices t ∙ q.devices t;
  indexed_keys = λ t k. p.indexed_keys t k ∙ q.indexed_keys t k;
}

OnlyIndex-log_event : (ev : Event) {v w : World} → OnlyIndex v w → OnlyIndex (log_event ev v) w
unfolding indexed index_of
OnlyIndex-log_event ev p = record {
  heap = p.heap;
  next = p.next;
  temp = p.temp;
  locked = p.locked;
  connections = p.connections;
  devices = p.devices;
  indexed_keys = p.indexed_keys;
}

OnlyIndex-if :
    (b : Bool) {u v w : World} → OnlyIndex u w → OnlyIndex v w → OnlyIndex (if b then u else v) w
OnlyIndex-if true p q = p
OnlyIndex-if false p q = q

module _ (s : StoreId) (d : ℕ) where
  index_modify_string-OnlyIndex :
      (key : Bytes) (added : Bool) (w : World) → OnlyIndex (index_modify_string s d key added w) w
  index_modify_string-OnlyIndex key added w = record {
    heap = heap-index_modify_string s d key added w;
    next = next-index_modify_string s d key added w;
    temp = temp-index_modify_string s d key added w;
    locked = locked_devices-index_modify_string s d key added w;
    connections = connections-index_modify_string s d key added w;
    devices = devices-index_modify_string s d key added w;
    indexed_keys = λ t k. indexed-index_modify_string s t d key k added w;
  }

  pub reindex-OnlyIndex :
      (key : Bytes) (added : Bool) (w : World)
      → OnlyIndex
          (if same_type (property_get_type d key w) type_string
            then index_modify_string s d key added w
            else w)
          w
  reindex-OnlyIndex key added w =
      OnlyIndex-if _ (index_modify_string-OnlyIndex key added w) (OnlyIndex-refl w)

  pub handle-OnlyIndex : (sig : Signal) (w : World) → OnlyIndex (handle s d sig w) w
  unfolding handle
  handle-OnlyIndex (pre_property_changed key removed) w =
      OnlyIndex-if _ (index_modify_string-OnlyIndex key false w) (OnlyIndex-refl w)
  handle-OnlyIndex (property_changed key removed added) w =
      OnlyIndex-log_event _
        (OnlyIndex-if _ (index_modify_string-OnlyIndex key true w) (OnlyIndex-refl w))
  handle-OnlyIndex (capability_added capability) w = OnlyIndex-log_event _ (OnlyIndex-refl w)
  handle-OnlyIndex (lock_acquired name owner) w = OnlyIndex-log_event _ (OnlyIndex-refl w)
  handle-OnlyIndex (lock_released name owner) w = OnlyIndex-log_event _ (OnlyIndex-refl w)

module _ (d : ℕ) (sig : Signal) where
  deliver-OnlyIndex : (cs : List (StoreId × ℕ)) (w : World) → OnlyIndex (deliver d sig cs w) w
  unfolding deliver
  deliver-OnlyIndex [] w = OnlyIndex-refl w
  deliver-OnlyIndex ((s, e) ∷ cs) w =
      OnlyIndex-trans (deliver-OnlyIndex cs (if e == d then handle s d sig w else w))
        (OnlyIndex-if (e == d) (handle-OnlyIndex s d sig w) (OnlyIndex-refl w))

  -- A signal changes at most the contents of the index and the store's own signals.
  pub emit-OnlyIndex : (w : World) → OnlyIndex (emit d sig w) w
  unfolding emit
  emit-OnlyIndex w = deliver-OnlyIndex w.connections w
