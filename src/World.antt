-- ===== src/World.antt =====
-- The state that hald/device.c and hald/device_store.c share: the devices on the heap, the two
-- device stores of hald.c, the signal connections between them, and the set of locked devices.
pub mod Index
pub mod Emit
pub mod Kept
pub mod Listed
pub mod Consistent
pub mod Owners
use hal.Prelude.{
  ℕ, ◌+◌, ◌≡◌, refl, Bool, true, false, not, ◌&&◌, ◌||◌, Option, none, some, List, [], ◌∷◌, ◌==◌,
  if◌then◌else◌, arith, Bytes, codes, str_eq, eq_iff, or_else, update, Assoc, lookup, insert,
  remove, lookup-insert, lookup-remove,
}
use hal.Property.{Property, PropertyType, string, property_type, property_get_string, type_invalid}

-- `HalDevice` with its `HalDevicePrivate`.
pub record Device : Type 0 where
  pub udi : Bytes
  pub num_addons : ℕ
  pub num_addons_ready : ℕ
  pub props : Assoc Property

-- `HalDeviceStore`: the devices, and for each indexed key a table from values to devices.
pub record Store : Type 0 where
  pub devices : List ℕ
  pub property_index : Assoc (Assoc (List ℕ))

-- The global and the temporary device list of hald.c.
pub data StoreId : Type 0 where
  gdl tdl : StoreId

abbrev pub same_store : StoreId → StoreId → Bool
same_store gdl gdl = true
same_store tdl tdl = true
same_store _ _ = false

-- The signals of a device.
pub data Signal : Type 0 where
  pre_property_changed : Bytes → Bool → Signal
  property_changed : Bytes → Bool → Bool → Signal
  capability_added : Bytes → Signal
  lock_acquired : Bytes → Bytes → Signal
  lock_released : Bytes → Bytes → Signal

-- The signals of a store, which name the device first.
pub data Event : Type 0 where
  store_changed : StoreId → ℕ → Bool → Event
  device_property_changed : StoreId → ℕ → Bytes → Bool → Bool → Event
  device_capability_added : StoreId → ℕ → Bytes → Event
  device_lock_acquired : StoreId → ℕ → Bytes → Bytes → Event
  device_lock_released : StoreId → ℕ → Bytes → Bytes → Event

-- The index tables do not own their keys: the key of an entry is the string of the device that made
-- the entry.
pub record KeyOwner : Type 0 where
  pub store : StoreId
  pub key : Bytes
  pub value : Bytes
  pub owner : ℕ

-- A device is the number of its place on the heap, its pointer. `connections` are the stores
-- whose handlers a device's signals run, in the order of `g_signal_connect`: the five connections
-- of one `hal_device_store_add` are one entry. `events` are the signals of the stores, the newest
-- first. `key_owners` has an element for each entry of the index tables. `may_dangle`: memory that is
-- still read may have been freed, such as a string that keys an entry of an index. From then on the
-- other fields say nothing of the program any more.
pub record World : Type 0 where
  pub heap : ℕ → Device
  pub next : ℕ
  pub temp_device_counter : ℕ
  pub locked_devices : List ℕ
  pub stores : StoreId → Store
  pub connections : List (StoreId × ℕ)
  pub events : List Event
  pub key_owners : List KeyOwner
  pub may_dangle : Bool

-- An operation that changes the world and returns a value.
abbrev pub M : Type 0 → Type 0
M A = World → A × World

infixl 5 ◌>>=◌ ◌>>◌
abbrev pub ◌>>=◌ : {A B : Type 0} → M A → (A → M B) → M B
◌>>=◌ m f w = let (a, w') = m w in f a w'

abbrev pub ◌>>◌ : {A B : Type 0} → M A → M B → M B
◌>>◌ m k w = let (a, w') = m w in k w'

abbrev pub pure : {A : Type 0} → A → M A
pure a w = (a, w)

-- Is the number one of the list?
unfoldable pub mem : ℕ → List ℕ → Bool
mem d [] = false
mem d (e ∷ l) = if e == d then true else mem d l

unfoldable pub no_duplicates : List ℕ → Bool
unfolding mem
no_duplicates [] = true
no_duplicates (d ∷ l) = not (mem d l) && no_duplicates l

unfoldable pub mem_connection : StoreId → ℕ → List (StoreId × ℕ) → Bool
mem_connection s d [] = false
mem_connection s d ((t, e) ∷ l) = if same_store t s && e == d then true else mem_connection s d l

-- The signals of the device run the handlers of the store.
abbrev pub connected : StoreId → ℕ → World → Bool
connected s d w = mem_connection s d w.connections

-- `hal_device_property_find`: a key that was never a quark has no entry either.
unfoldable pub property_find : ℕ → Bytes → World → Option Property
property_find d key w = lookup key (w.heap d).props

-- `hal_device_property_get_type`
unfoldable pub property_get_type : ℕ → Bytes → World → PropertyType
unfolding property_find
property_get_type d key w = elim (property_find d key w) [
  | none ↦ type_invalid
  | some p ↦ property_type p
]

abbrev pub put_device : ℕ → Device → World → World
put_device d x w = record w { heap = update w.heap d x }

-- Does an entry of an index have the device's string as its key?
unfoldable pub owns_entry : ℕ → Bytes → Bytes → List KeyOwner → Bool
owns_entry d key value [] = false
owns_entry d key value (o ∷ l) =
    if o.owner == d && (str_eq o.key key && str_eq o.value value)
    then true
    else owns_entry d key value l

-- Does the device's string under the key, when it is freed, leave an entry of an index without its
-- key?
unfoldable pub frees_index_key : ℕ → Bytes → World → Bool
unfolding property_find owns_entry
frees_index_key d key w = elim (property_find d key w) [
  | none ↦ false
  | some p ↦ elim (property_get_string p) [
    | none ↦ false
    | some value ↦ owns_entry d key value w.key_owners
  ]
]

-- The table entry of a key is set, or removed, with no signal; the string that was there is freed.
unfoldable pub table_insert : ℕ → Bytes → Property → World → World
unfolding frees_index_key
table_insert d key p w = record w {
  heap = update w.heap d (record (w.heap d) { props = insert key p (w.heap d).props });
  may_dangle = w.may_dangle || frees_index_key d key w;
}

unfoldable pub table_remove : ℕ → Bytes → World → World
unfolding frees_index_key
table_remove d key w = record w {
  heap = update w.heap d (record (w.heap d) { props = remove key (w.heap d).props });
  may_dangle = w.may_dangle || frees_index_key d key w;
}

pub property_find-table_insert :
    (d e : ℕ) (k j : Bytes) (p : Property) (w : World)
    → property_find e j (table_insert d k p w)
      ≡ (if e == d && str_eq k j then some p else property_find e j w)
unfolding property_find table_insert
property_find-table_insert d e k j p w = ground (arith, lookup-insert k j p (w.heap d).props)

pub property_find-table_remove :
    (d e : ℕ) (k j : Bytes) (w : World)
    → property_find e j (table_remove d k w)
      ≡ (if e == d && str_eq k j then none else property_find e j w)
unfolding property_find table_remove
property_find-table_remove d e k j w = ground (arith, lookup-remove k j (w.heap d).props)

abbrev pub put_store : StoreId → Store → World → World
put_store s x w = record w { stores = λ t. if same_store t s then x else w.stores t }

abbrev pub log_event : Event → World → World
log_event e w = record w { events = e ∷ w.events }
