-- ===== src/System.antt =====
-- The operations of hald/device.c and hald/device_store.c together: a run is a sequence of calls, in
-- any order, from the start of the daemon.
use native.Mathlib.Nat.{le_refl}
use hal.Prelude.{
  ℕ, ◌<◌, ◌≡◌, refl, Bool, true, false, Option, [], arith, lookup, Bytes, Bool-cases, inl, inr,
}
use hal.Property.{Property}
use hal.Property.Utf8.{Utf8}
use hal.World.{
  World, Device, StoreId, mem, mem_connection, no_duplicates, connected, put_device, property_find,
}
use hal.World.Index.{index_of, indexed, has_string, device_get_string}
use hal.World.Consistent.{IsConsistent, same-IsConsistent}
use hal.Device.{device_new, inc_num_addons, inc_num_ready_addons, are_all_addons_ready}
use hal.Device.Set.{set_string, set_udi, set_value, property_remove, copy_property}
use hal.Device.Strlist.{
  strlist_append, strlist_append_finish_changeset, strlist_prepend, strlist_remove_elem,
  strlist_clear, strlist_add, strlist_remove, add_capability,
}
use hal.Device.Merge.{merge_with_rewrite}
use hal.Device.Keep.Setters.{
  device_new-IsConsistent, set_string-Keeps, set_udi-Keeps, set_value-Keeps, copy_property-Keeps,
  property_remove-Keeps,
}
use hal.Device.Keep.Strlists.{
  add_capability-IsConsistent, strlist_append-Keeps, strlist_append_finish_changeset-Keeps,
  strlist_prepend-Keeps, strlist_remove_elem-Keeps, strlist_clear-Keeps, strlist_add-Keeps,
  strlist_remove-Keeps,
}
use hal.Device.Keep.Merging.{merge_with_rewrite-IsConsistent}
use hal.Store.{store_add, store_remove, index_property, match_key_value_string}
use hal.Store.Keep.{store_add-IsConsistent, store_remove-tables, index_property-tables}
use hal.Store.Search.{Found, match_key_value_string-Found}
use hal.Lock.{acquire_lock, release_lock}
use hal.Lock.Keep.{acquire_lock-Keeps, release_lock-Keeps}

pub data Operation : Type 0 where
  op_new : Operation
  op_set_udi : ℕ → Bytes → Operation
  op_set_string : ℕ → Bytes → Option Bytes → Operation
  op_set_value : ℕ → Bytes → Property → Operation
  op_remove : ℕ → Bytes → Operation
  op_copy : ℕ → Bytes → ℕ → Bytes → Operation
  op_merge : ℕ → ℕ → Bytes → Bytes → Operation
  op_add_capability : ℕ → Bytes → Operation
  op_append : ℕ → Bytes → Bytes → Bool → Operation
  op_finish_changeset : ℕ → Bytes → Bool → Operation
  op_prepend : ℕ → Bytes → Bytes → Operation
  op_remove_elem : ℕ → Bytes → ℕ → Operation
  op_clear : ℕ → Bytes → Bool → Operation
  op_add : ℕ → Bytes → Bytes → Operation
  op_remove_value : ℕ → Bytes → Bytes → Operation
  op_inc_num_addons op_inc_num_ready_addons : ℕ → Operation
  op_acquire : ℕ → Bytes → Bool → Bytes → Operation
  op_release : ℕ → Bytes → Bytes → Operation
  op_store_add op_store_remove : StoreId → ℕ → Operation
  op_index : StoreId → Bytes → Operation

-- What the callers see to: a device is added to a store that does not have it, and a key is
-- indexed before devices with a string under it are in the store.
abbrev pub Allowed : Operation → World → Type 0
Allowed (op_store_add s d) w = (d < w.next) × (mem d (w.stores s).devices ≡ false)
Allowed (op_index s key) w =
    (e : ℕ) (value : Bytes) → connected s e w ≡ true → has_string e key value w ≡ false
Allowed _ w = Unit

module _ (utf8 : Utf8) where
  unfoldable pub run : Operation → World → World
  run op_new w = (device_new w).1
  run (op_set_udi d udi) w = (set_udi utf8 d udi w).1
  run (op_set_string d key value) w = (set_string utf8 d key value w).1
  run (op_set_value d key p) w = (set_value utf8 d key p w).1
  run (op_remove d key) w = (property_remove d key w).1
  run (op_copy d k e j) w = (copy_property utf8 d k e j w).1
  run (op_merge t s tn sn) w = merge_with_rewrite utf8 t s tn sn w
  run (op_add_capability d c) w = add_capability d c w
  run (op_append d key v cs) w = (strlist_append d key v cs w).1
  run (op_finish_changeset d key a) w = (strlist_append_finish_changeset d key a w).1
  run (op_prepend d key v) w = (strlist_prepend d key v w).1
  run (op_remove_elem d key i) w = (strlist_remove_elem d key i w).1
  run (op_clear d key cs) w = (strlist_clear d key cs w).1
  run (op_add d key v) w = (strlist_add d key v w).1
  run (op_remove_value d key v) w = (strlist_remove d key v w).1
  run (op_inc_num_addons d) w = inc_num_addons d w
  run (op_inc_num_ready_addons d) w = (inc_num_ready_addons d w).1
  run (op_acquire d name x sender) w = (acquire_lock d name x sender w).1
  run (op_release d name sender) w = (release_lock d name sender w).1
  run (op_store_add s d) w = store_add s d w
  run (op_store_remove s d) w = (store_remove s d w).1
  run (op_index s key) w = index_property s key w

  -- The worlds that calls lead to.
  pub data Reach (start : World) : World → Type 0 where
    here : Reach start start
    next : {w : World} (op : Operation) → Reach start w → Allowed op w → Reach start (run op w)

-- The daemon's start: no device, no index, no connection.
abbrev pub empty_device : Device
empty_device = record { udi = []; num_addons = 0; num_addons_ready = 0; props = [] }

abbrev pub initial : World
initial = record {
  heap = λ d. empty_device;
  next = 0;
  temp_device_counter = 0;
  locked_devices = [];
  stores = λ s. record { devices = []; property_index = [] };
  connections = [];
  events = [];
  key_owners = [];
  may_dangle = false;
}

initial-IsConsistent : IsConsistent initial
unfolding indexed index_of lookup mem mem_connection no_duplicates
initial-IsConsistent = record {
  agrees = λ s k value e i. absurd (ground arith);
  members = λ s e. refl;
  distinct = λ s. refl;
  allocated = λ s e q. absurd (ground arith);
}

-- A change of a device that keeps its properties.
counted-IsConsistent :
    (d : ℕ) (x : Device) (w : World)
    → x.props ≡ (w.heap d).props
    → IsConsistent w
    → IsConsistent (put_device d x w)
counted-IsConsistent d x w same h =
    same-IsConsistent (put_device d x w) w
      (record {
        connections = refl;
        next = le_refl w.next;
        devices = λ t. refl;
        index = λ t k. unfold index_of in refl;
        properties =
            λ e k value _. unfold has_string device_get_string property_find in ground arith;
      })
      h

inc_num_ready_addons-IsConsistent :
    (d : ℕ) (w : World) → IsConsistent w → IsConsistent (inc_num_ready_addons d w).1
unfolding inc_num_ready_addons
inc_num_ready_addons-IsConsistent d w h = elim (Bool-cases (are_all_addons_ready d w)) [
  | inl all ↦ rw (all, inc_num_ready_addons) h
  | inr some_left ↦ rw (some_left, inc_num_ready_addons) (counted-IsConsistent d _ w refl h)
]

module _ (utf8 : Utf8) where
  run-IsConsistent :
      (op : Operation) (w : World) → Allowed op w → IsConsistent w → IsConsistent (run utf8 op w)
  unfolding run inc_num_addons
  run-IsConsistent op_new w a h = device_new-IsConsistent w h
  run-IsConsistent (op_set_udi d udi) w a h = (set_udi-Keeps utf8 d udi w h).kept
  run-IsConsistent (op_set_string d key value) w a h = (set_string-Keeps utf8 d key value w h).kept
  run-IsConsistent (op_set_value d key p) w a h = (set_value-Keeps utf8 d key p w h).kept
  run-IsConsistent (op_remove d key) w a h = (property_remove-Keeps d key w h).kept
  run-IsConsistent (op_copy d k e j) w a h = (copy_property-Keeps utf8 d k e j w h).kept
  run-IsConsistent (op_merge t s tn sn) w a h = merge_with_rewrite-IsConsistent utf8 t s tn sn w h
  run-IsConsistent (op_add_capability d c) w a h = add_capability-IsConsistent d c w h
  run-IsConsistent (op_append d key v cs) w a h = (strlist_append-Keeps d key v cs w h).kept
  run-IsConsistent (op_finish_changeset d key b) w a h =
      (strlist_append_finish_changeset-Keeps d key b w h).kept
  run-IsConsistent (op_prepend d key v) w a h = (strlist_prepend-Keeps d key v w h).kept
  run-IsConsistent (op_remove_elem d key i) w a h = (strlist_remove_elem-Keeps d key i w h).kept
  run-IsConsistent (op_clear d key cs) w a h = (strlist_clear-Keeps d key cs w h).kept
  run-IsConsistent (op_add d key v) w a h = (strlist_add-Keeps d key v w h).kept
  run-IsConsistent (op_remove_value d key v) w a h = (strlist_remove-Keeps d key v w h).kept
  run-IsConsistent (op_inc_num_addons d) w a h = counted-IsConsistent d _ w refl h
  run-IsConsistent (op_inc_num_ready_addons d) w a h = inc_num_ready_addons-IsConsistent d w h
  run-IsConsistent (op_acquire d name x sender) w a h =
      (acquire_lock-Keeps d name sender x w h).kept
  run-IsConsistent (op_release d name sender) w a h = (release_lock-Keeps d name sender w h).kept
  run-IsConsistent (op_store_add s d) w a h = store_add-IsConsistent s d w a.0 a.1 h
  run-IsConsistent (op_store_remove s d) w a h = store_remove-tables s d w h
  run-IsConsistent (op_index s key) w a h = index_property-tables s key w a h

  pub Reach-tables : {w : World} → Reach utf8 initial w → IsConsistent w
  Reach-tables here = initial-IsConsistent
  Reach-tables (next {w = w} op r a) = run-IsConsistent op w a (Reach-tables r)

  -- Every world that allowed calls lead to from the start has consistent indexes, as long as no
  -- call may have freed memory that is still read, such as a string that keys an index entry.
  pub Reach-IsConsistent :
      {w : World} → w.may_dangle ≡ false → Reach utf8 initial w → IsConsistent w
  Reach-IsConsistent live r = Reach-tables r

  -- After any allowed calls, in any order, none of which may have freed memory that is still read,
  -- such as a string that keys an index entry, the search of a store for a string value returns a
  -- device of the store that has the value now, and nothing only where no device of the store has
  -- it, whether the key is indexed or not.
  pub Reach-match_key_value_string :
      {w : World} (s : StoreId) (key value : Bytes)
      → w.may_dangle ≡ false
      → Reach utf8 initial w
      → Found
          (λ e. has_string e key value w)
          (w.stores s).devices
          (match_key_value_string s key value w)
  Reach-match_key_value_string {w} s key value live r =
      match_key_value_string-Found s key value w (Reach-IsConsistent live r)
