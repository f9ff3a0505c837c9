-- ===== src/Store/Keep.antt =====
-- hald/device_store.c: adding, removing and indexing keep the invariant of the index.
use hal.Prelude.{
  ℕ, ◌<◌, ◌≡◌, refl, true, false, not, ◌&&◌, some, if◌then◌else◌, [], arith, Bytes, str_eq, eq_iff,
  starts_with, lookup, Option-cases, Bool-cases, inl, inr, ◌∙◌,
}
use hal.World.{World, StoreId, store_changed, log_event, same_store, mem, connected}
use hal.World.Index.{
  index_of-put_index, index_of, put_index, indexed, listed, has_string, same_store_eq,
}
use hal.World.Listed.{has_string-heap, same_store_comm}
use hal.World.Consistent.{
  IsConsistent, IsConsistent-log_event, IsConsistent-may_dangle, listed-index, indexed-index,
}
use hal.Device.{get_udi}
use hal.Device.Keep.{either}
use hal.Store.{
  device_prefix, check_all, connect, store_add, disconnect, unref, store_remove, index_property,
}
use hal.Store.Check.{listed-check_all, check_all-OnlyIndex}
use hal.Store.Members.{
  index_of-connect, index_of-disconnect, connect_next, disconnect_next, connected-connect,
  connected-disconnect, mem-connect, mem-disconnect, distinct-connect, distinct-disconnect,
}

-- In a consistent world, adding a device that is on the heap and not in the store leaves the
-- indexes consistent, whether the device is taken in or refused for its UDI.
pub store_add-IsConsistent :
    (s : StoreId) (d : ℕ) (w : World)
    → d < w.next
    → mem d (w.stores s).devices ≡ false
    → IsConsistent w
    → IsConsistent (store_add s d w)
unfolding store_add
store_add-IsConsistent s d w below absent h =
    let v = connect s d w in
    let u = check_all s d true v in
    let o = check_all-OnlyIndex s d true v in
    either (starts_with device_prefix (get_udi d w))
      (IsConsistent-log_event _ u (record {
        agrees = λ t k value e i. ground (
          arith,
          h.agrees t k value e,
          h.members t e,
          listed-check_all s d true t k value e v,
          listed-index t k value e v w (index_of-connect s t d k w),
          indexed-index t k v w (index_of-connect s t d k w),
          o.indexed_keys t k,
          o.connections,
          connected-connect s t d e w,
          has_string-heap e k value u v o.heap,
          has_string-heap e k value v w (unfold connect in refl),
          same_store_eq s t,
          same_store_comm s t,
        );
        members = λ t e. ground (
          arith,
          h.members t e,
          o.devices t,
          o.connections,
          connected-connect s t d e w,
          mem-connect s t d e w,
        );
        distinct = λ t. ground (arith, o.devices t, distinct-connect s t d w absent (h.distinct t));
        allocated = λ t e q. ground (
          arith,
          h.allocated t e,
          o.next,
          o.connections,
          connected-connect s t d e w,
          connect_next s d w,
        );
      }))
      h

pub store_remove-tables :
    (s : StoreId) (d : ℕ) (w : World) → IsConsistent w → IsConsistent (store_remove s d w).1
unfolding store_remove unref
store_remove-tables s d w h =
    let v = disconnect s d w in
    let u = check_all s d false v in
    let o = check_all-OnlyIndex s d false v in
    let result : IsConsistent u = (record {
      agrees = λ t k value e i. ground (
        arith,
        h.agrees t k value e,
        listed-check_all s d false t k value e v,
        listed-index t k value e v w (index_of-disconnect s t d k w),
        indexed-index t k v w (index_of-disconnect s t d k w),
        o.indexed_keys t k,
        o.connections,
        connected-disconnect s t d e w,
        has_string-heap e k value u v o.heap,
        has_string-heap e k value v w (unfold disconnect in refl),
        same_store_eq s t,
        same_store_comm s t,
      );
      members = λ t e. ground (
        arith,
        h.members t e,
        o.devices t,
        o.connections,
        connected-disconnect s t d e w,
        mem-disconnect s t d e w (h.distinct s),
      );
      distinct = λ t. ground (arith, o.devices t, distinct-disconnect s t d w (h.distinct t));
      allocated = λ t e q. ground (
        arith,
        h.allocated t e,
        o.next,
        o.connections,
        connected-disconnect s t d e w,
        disconnect_next s d w,
      );
    }) in
    elim (Bool-cases (mem d (w.stores s).devices)) [
      | inl here ↦
          rw (here, store_remove, unref)
            (IsConsistent-may_dangle _ (log_event (store_changed s d false) u)
              (IsConsistent-log_event _ u result))
      | inr absent ↦ rw (absent, store_remove) h
    ]

-- In a consistent world a device, in the store or not, is removed, and no memory that is still read
-- may have been freed by then, or with the device. Then the indexes are consistent.
pub store_remove-IsConsistent :
    (s : StoreId) (d : ℕ) (w : World)
    → (store_remove s d w).1.may_dangle ≡ false
    → IsConsistent w
    → IsConsistent (store_remove s d w).1
store_remove-IsConsistent s d w live = store_remove-tables s d w

connected-put_index :
    (s t : StoreId) (d : ℕ) (key : Bytes) (w : World)
    → connected t d (put_index s key [] w) ≡ connected t d w
unfolding put_index
connected-put_index s t d key w = refl

devices-put_index :
    (s t : StoreId) (key : Bytes) (w : World)
    → ((put_index s key [] w).stores t).devices ≡ (w.stores t).devices
unfolding put_index
devices-put_index s t key w = ground (arith, same_store_eq s t)

pub index_property-tables :
    (s : StoreId) (key : Bytes) (w : World)
    → ((e : ℕ) (value : Bytes) → connected s e w ≡ true → has_string e key value w ≡ false)
    → IsConsistent w
    → IsConsistent (index_property s key w)
unfolding index_property
index_property-tables s key w none_yet h = elim (Option-cases (index_of s key w)) [
  | inr (index, e) ↦ rw (e, index_property) h
  | inl e ↦
      let v = put_index s key [] w in
      rw (e, index_property)
        (record {
          agrees = λ t k value d i. elim (Bool-cases (same_store t s && str_eq key k)) [
            | inl this ↦
                unfold listed mem lookup in
                ground (
                  arith,
                  this,
                  index_of-put_index s t key k [] w,
                  none_yet d value,
                  same_store_eq s t,
                  eq_iff key k,
                  has_string-heap d k value v w (unfold put_index in refl),
                  connected-put_index s t d key w,
                )
            | inr other ↦ ground (
              arith,
              other,
              h.agrees t k value d,
              listed-index t k value d v w (index_of-put_index s t key k [] w ∙ rw other),
              indexed-index t k v w (index_of-put_index s t key k [] w ∙ rw other),
              has_string-heap d k value v w (unfold put_index in refl),
              connected-put_index s t d key w,
            )
          ];
          members = λ t d.
              ground (
                arith,
                h.members t d,
                connected-put_index s t d key w,
                devices-put_index s t key w,
              );
          distinct = λ t. ground (arith, h.distinct t, devices-put_index s t key w);
          allocated = λ t d q. unfold put_index in h.allocated t d q;
        })
]

index_of-index_property :
    (s t : StoreId) (key k : Bytes) (w : World)
    → index_of t k (index_property s key w) ≡ (
        if same_store t s && str_eq key k && not (indexed s key w) then some [] else index_of t k w)
unfolding index_property indexed
index_of-index_property s t key k w = elim (Option-cases (index_of s key w)) [
  | inl e ↦
      rw (e, index_property, indexed)
        (index_of-put_index s t key k [] w ∙ ground (arith, same_store_eq s t))
  | inr (index, e) ↦ rw (e, index_property, indexed) (ground (arith, same_store_eq s t))
]

-- In a consistent world a call indexes a key under which no device of the store has a string. Then
-- the indexes are consistent, the key of the store has a new, empty index where it had none, and
-- every index that was there, also that of the key, is as it was.
pub index_property-IsConsistent :
    (s t : StoreId) (key k : Bytes) (w : World)
    → ((e : ℕ) (value : Bytes) → connected s e w ≡ true → has_string e key value w ≡ false)
    → IsConsistent w
    → IsConsistent (index_property s key w)
      × (index_of t k (index_property s key w) ≡ (
          if same_store t s && str_eq key k && not (indexed s key w)
          then some []
          else index_of t k w))
index_property-IsConsistent s t key k w none_yet h =
    (index_property-tables s key w none_yet h, index_of-index_property s t key k w)
