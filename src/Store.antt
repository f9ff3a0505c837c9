-- ===== src/Store.antt =====
-- hald/device_store.c: a store's devices, the index of string properties, and the searches.
pub mod Check
pub mod Members
pub mod Keep
pub mod Search
use hal.Prelude.{
  ℕ, ◌+◌, ◌≡◌, refl, Bool, true, false, not, ◌&&◌, ◌||◌, Option, none, some, List, [], ◌∷◌, ◌++◌,
  ◌==◌, if◌then◌else◌, ltb, Bytes, codes, str_eq, starts_with, insert, Assoc, keys,
}
use hal.Property.{ℤ, int_eq, type_string, type_int32, same_type}
use hal.World.{
  World, KeyOwner, M, StoreId, store_changed, same_store, mem, put_store, log_event, property_find,
  property_get_type,
}
use hal.World.Index.{index_modify_string, index_of, put_index, bucket, device_get_string}
use hal.Device.{get_udi, has_property, get_int}

-- `property_index_check_all`, over the keys of the index.
unfoldable pub check_keys : StoreId → ℕ → Bool → List Bytes → World → World
check_keys s d added [] w = w
check_keys s d added (key ∷ rest) w = check_keys s d added rest (
    if same_type (property_get_type d key w) type_string
    then index_modify_string s d key added w
    else w)

unfoldable pub check_all : StoreId → ℕ → Bool → World → World
unfolding check_keys
check_all s d added w = check_keys s d added (keys (w.stores s).property_index) w

abbrev pub device_prefix : Bytes
device_prefix = codes "/org/freedesktop/Hal/devices/"

-- The device enters the list, and its signals are connected.
unfoldable pub connect : StoreId → ℕ → World → World
connect s d w =
    let w' = put_store s (record (w.stores s) { devices = d ∷ (w.stores s).devices }) w in
    record w' { connections = w.connections ++ ((s, d) ∷ []) }

-- A device whose UDI has another prefix is not added.
unfoldable pub store_add : StoreId → ℕ → World → World
store_add s d w =
    if starts_with device_prefix (get_udi d w)
    then log_event (store_changed s d true) (check_all s d true (connect s d w))
    else w

-- `g_slist_remove`: the first occurrence.
unfoldable pub remove_device : ℕ → List ℕ → List ℕ
remove_device d [] = []
remove_device d (e ∷ l) = if e == d then l else e ∷ remove_device d l

unfoldable pub disconnect_all : StoreId → ℕ → List (StoreId × ℕ) → List (StoreId × ℕ)
disconnect_all s d [] = []
disconnect_all s d ((t, e) ∷ l) =
    let rest = disconnect_all s d l in if same_store t s && e == d then rest else (t, e) ∷ rest

unfoldable pub disconnect : StoreId → ℕ → World → World
unfolding remove_device disconnect_all
disconnect s d w =
    let w' =
      put_store s (record (w.stores s) { devices = remove_device d (w.stores s).devices }) w in
    record w' { connections = disconnect_all s d w.connections }

-- Does an entry of an index have a string of the device as its key?
unfoldable pub owns_entries : ℕ → List KeyOwner → Bool
owns_entries d [] = false
owns_entries d (o ∷ l) = if o.owner == d then true else owns_entries d l

-- `g_object_unref`: the reference may be the last one, and the device's strings are freed with it.
unfoldable pub unref : ℕ → World → World
unfolding owns_entries
unref d w = record w { may_dangle = w.may_dangle || owns_entries d w.key_owners }

unfoldable pub store_remove : StoreId → ℕ → M Bool
unfolding unref
store_remove s d w =
    if mem d (w.stores s).devices
    then (
      true,
      unref d (log_event (store_changed s d false) (check_all s d false (disconnect s d w))),
    )
    else (false, w)

-- `hal_device_store_index_property`: an index that is new is empty.
unfoldable pub index_property : StoreId → Bytes → World → World
index_property s key w = elim (index_of s key w) [ none ↦ put_index s key [] w | some _ ↦ w ]

-- The loops of the searches: the first device of the list that passes the test.
unfoldable pub first_device : (ℕ → Bool) → List ℕ → Option ℕ
first_device test [] = none
first_device test (d ∷ l) = if test d then some d else first_device test l

unfoldable pub store_find : StoreId → Bytes → World → Option ℕ
unfolding first_device
store_find s udi w = first_device (λ d. str_eq (get_udi d w) udi) (w.stores s).devices

-- The three tests of the search for a string.
unfoldable pub matches_string : Bytes → Bytes → World → ℕ → Bool
matches_string key value w d =
    if not (has_property d key w)
    then false
    else if not (same_type (property_get_type d key w) type_string)
    then false
    else elim (device_get_string d key w) [ none ↦ false | some v ↦ str_eq v value ]

unfoldable pub matches_int : Bytes → ℤ → World → ℕ → Bool
matches_int key value w d =
    if not (has_property d key w)
    then false
    else if not (same_type (property_get_type d key w) type_int32)
    then false
    else int_eq (get_int d key w) value

unfoldable pub first : List ℕ → Option ℕ
first [] = none
first (d ∷ l) = some d

-- An indexed key is looked up, any other is searched for.
unfoldable pub match_key_value_string : StoreId → Bytes → Bytes → World → Option ℕ
unfolding matches_string first_device first
match_key_value_string s key value w = elim (index_of s key w) [
  | none ↦ first_device (matches_string key value w) (w.stores s).devices
  | some index ↦ first (bucket value index)
]

unfoldable pub match_key_value_int : StoreId → Bytes → ℤ → World → Option ℕ
unfolding matches_int first_device
match_key_value_int s key value w = first_device (matches_int key value w) (w.stores s).devices

-- The loop prepends each match.
unfoldable pub all_devices : (ℕ → Bool) → List ℕ → List ℕ → List ℕ
all_devices test matches [] = matches
all_devices test matches (d ∷ l) = all_devices test (if test d then d ∷ matches else matches) l

unfoldable pub match_multiple_key_value_string : StoreId → Bytes → Bytes → World → List ℕ
unfolding matches_string all_devices
match_multiple_key_value_string s key value w = elim (index_of s key w) [
  | none ↦ all_devices (matches_string key value w) [] (w.stores s).devices
  | some index ↦ bucket value index
]

-- `hal_device_store_foreach`: the callback may change the state, and stops the loop by FALSE.
unfoldable pub store_foreach {ℓ} : {A : Type ℓ} → (ℕ → A → Bool × A) → List ℕ → A → A
store_foreach callback [] a = a
store_foreach callback (d ∷ l) a =
    let (go_on, a') = callback d a in
    let rest = store_foreach callback l a' in if go_on then rest else a'
