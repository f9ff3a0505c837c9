-- ===== src/Store/Members.antt =====
-- hald/device_store.c: the devices and connections of a store when a device comes or goes.
use hal.Prelude.{
  ℕ, ◌≡◌, refl, true, false, ◌&&◌, ◌||◌, List, [], ◌∷◌, ◌++◌, ◌==◌, if◌then◌else◌, arith, Bytes,
}
use hal.World.{World, StoreId, same_store, mem, no_duplicates, mem_connection, connected}
use hal.World.Index.{index_of, same_store_eq}
use hal.World.Listed.{same_store_comm}
use hal.Store.{connect, remove_device, disconnect_all, disconnect}

mem_connection-append :
    (s t : StoreId) (d e : ℕ) (l : List (StoreId × ℕ))
    → mem_connection t e (l ++ ((s, d) ∷ [])) ≡ (mem_connection t e l || same_store s t && d == e)
unfolding mem_connection
mem_connection-append s t d e [] = ground arith
mem_connection-append s t d e ((u, x) ∷ l) = ground (arith, mem_connection-append s t d e l)

mem_connection-disconnect_all :
    (s t : StoreId) (d e : ℕ) (l : List (StoreId × ℕ))
    → mem_connection t e (disconnect_all s d l)
      ≡ (if same_store s t && d == e then false else mem_connection t e l)
unfolding mem_connection disconnect_all
mem_connection-disconnect_all s t d e [] = ground arith
mem_connection-disconnect_all s t d e ((u, x) ∷ l) = ground (
  arith,
  mem_connection-disconnect_all s t d e l,
  same_store_eq u s,
  same_store_eq u t,
  same_store_eq s t,
)

-- Other members stay, and so does a device that stood in the list twice.
mem-remove_device_ne :
    (d e : ℕ) (l : List ℕ) → (d == e) ≡ false → mem e (remove_device d l) ≡ mem e l
unfolding mem remove_device
mem-remove_device_ne d e [] h = refl
mem-remove_device_ne d e (x ∷ l) h = ground (arith, mem-remove_device_ne d e l h)

pub mem-remove_device_self :
    (d : ℕ) (l : List ℕ) → no_duplicates l ≡ true → mem d (remove_device d l) ≡ false
unfolding mem remove_device no_duplicates
mem-remove_device_self d [] h = refl
mem-remove_device_self d (x ∷ l) h = ground (arith, mem-remove_device_self d l)

pub remove_device-no_duplicates :
    (d : ℕ) (l : List ℕ) → no_duplicates l ≡ true → no_duplicates (remove_device d l) ≡ true
unfolding mem remove_device no_duplicates
remove_device-no_duplicates d [] h = refl
remove_device-no_duplicates d (x ∷ l) h =
    ground (arith, remove_device-no_duplicates d l, mem-remove_device_ne d x l)

pub index_of-connect :
    (s t : StoreId) (d : ℕ) (k : Bytes) (w : World) → index_of t k (connect s d w) ≡ index_of t k w
unfolding index_of connect
index_of-connect s t d k w = ground (arith, same_store_eq s t)

pub index_of-disconnect :
    (s t : StoreId) (d : ℕ) (k : Bytes) (w : World)
    → index_of t k (disconnect s d w) ≡ index_of t k w
unfolding index_of disconnect
index_of-disconnect s t d k w = ground (arith, same_store_eq s t)

pub connect_next : (s : StoreId) (d : ℕ) (w : World) → (connect s d w).next ≡ w.next
unfolding connect
connect_next s d w = refl

pub disconnect_next : (s : StoreId) (d : ℕ) (w : World) → (disconnect s d w).next ≡ w.next
unfolding disconnect
disconnect_next s d w = refl

module _ (s t : StoreId) (d e : ℕ) (w : World) where
  pub connected-connect :
      connected t e (connect s d w) ≡ (connected t e w || same_store s t && d == e)
  unfolding connect
  connected-connect = mem_connection-append s t d e w.connections

  pub connected-disconnect :
      connected t e (disconnect s d w)
      ≡ (if same_store s t && d == e then false else connected t e w)
  unfolding disconnect
  connected-disconnect = mem_connection-disconnect_all s t d e w.connections

  pub mem-connect :
      mem e ((connect s d w).stores t).devices
      ≡ (if same_store s t && d == e then true else mem e (w.stores t).devices)
  unfolding connect mem
  mem-connect = ground (arith, same_store_eq s t, same_store_comm s t)

  pub mem-disconnect :
      no_duplicates (w.stores s).devices ≡ true
      → mem e ((disconnect s d w).stores t).devices
        ≡ (if same_store s t && d == e then false else mem e (w.stores t).devices)
  unfolding disconnect
  mem-disconnect distinct = ground (
    arith,
    same_store_eq s t,
    same_store_comm s t,
    mem-remove_device_self d (w.stores s).devices,
    mem-remove_device_ne d e (w.stores s).devices,
  )

module _ (s t : StoreId) (d : ℕ) (w : World) where
  pub distinct-connect :
      mem d (w.stores s).devices ≡ false
      → no_duplicates (w.stores t).devices ≡ true
      → no_duplicates ((connect s d w).stores t).devices ≡ true
  unfolding connect no_duplicates
  distinct-connect absent h = ground (arith, same_store_eq s t)

  pub distinct-disconnect :
      no_duplicates (w.stores t).devices ≡ true
      → no_duplicates ((disconnect s d w).stores t).devices ≡ true
  unfolding disconnect
  distinct-disconnect h =
      ground (arith, same_store_eq s t, remove_device-no_duplicates d (w.stores s).devices)
