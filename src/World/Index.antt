-- ===== src/World/Index.antt =====
-- hald/device_store.c: the index from keys and string values to devices.
use hal.Prelude.{
  ℕ, ◌≡◌, refl, Bool, true, false, ◌&&◌, Option, none, some, List, [], ◌∷◌, ◌==◌, if◌then◌else◌,
  arith, Bytes, str_eq, eq_iff, or_else, Assoc, lookup, insert, lookup-insert, Option-cases, inl,
  inr,
}
use hal.Property.{property_get_string}
use hal.World.{World, StoreId, KeyOwner, gdl, tdl, same_store, mem, property_find, put_store}

-- `g_slist_remove_all`
unfoldable pub remove_all : ℕ → List ℕ → List ℕ
remove_all d [] = []
remove_all d (e ∷ l) = let rest = remove_all d l in if e == d then rest else e ∷ rest

pub mem-remove_all :
    (d e : ℕ) (l : List ℕ) → mem e (remove_all d l) ≡ (if d == e then false else mem e l)
unfolding mem remove_all
mem-remove_all d e [] = ground arith
mem-remove_all d e (x ∷ l) = ground (arith, mem-remove_all d e l)

-- `hal_device_property_get_string`
unfoldable pub device_get_string : ℕ → Bytes → World → Option Bytes
device_get_string d key w = elim (property_find d key w) [
  | none ↦ none
  | some p ↦ property_get_string p
]

-- The devices under a value of an indexed key.
abbrev pub bucket : Bytes → Assoc (List ℕ) → List ℕ
bucket value index = or_else [] (lookup value index)

-- The table of an indexed key.
unfoldable pub index_of : StoreId → Bytes → World → Option (Assoc (List ℕ))
index_of s key w = lookup key (w.stores s).property_index

unfoldable pub put_index : StoreId → Bytes → Assoc (List ℕ) → World → World
put_index s key index w =
    put_store s
      (record (w.stores s) { property_index = insert key index (w.stores s).property_index }) w

-- The devices that a change leaves under a value.
abbrev changed : Bool → ℕ → List ℕ → List ℕ
changed added d l = if added then d ∷ l else remove_all d l

-- `g_hash_table_insert` keeps the key of an entry that is there, and makes a new entry with the
-- device's own string as its key.
abbrev owners_with : StoreId → ℕ → Bytes → Bytes → Assoc (List ℕ) → List KeyOwner → List KeyOwner
owners_with s d key value index owners = elim (lookup value index) [
  | some _ ↦ owners
  | none ↦ record { store = s; key = key; value = value; owner = d } ∷ owners
]

-- `property_index_modify_string`. Its callers have tested that the value is a string, so that the
-- lookup of a NULL value, which would crash, is not reached.
unfoldable pub index_modify_string : StoreId → ℕ → Bytes → Bool → World → World
index_modify_string s d key added w = elim (index_of s key w) [
  | none ↦ w
  | some index ↦ elim (device_get_string d key w) [
    | none ↦ w
    | some value ↦
        record (put_index s key (insert value (changed added d (bucket value index)) index) w) {
          key_owners = owners_with s d key value index w.key_owners;
        }
  ]
]

-- What the index says: is the key indexed, and does the index list the device under the value?
unfoldable pub indexed : StoreId → Bytes → World → Bool
indexed s key w = elim (index_of s key w) [ none ↦ false | some _ ↦ true ]

unfoldable pub listed : StoreId → Bytes → Bytes → ℕ → World → Bool
listed s key value d w = elim (index_of s key w) [
  | none ↦ false
  | some index ↦ mem d (bucket value index)
]

-- What the devices say: the device has the string as its value of the key.
unfoldable pub has_string : ℕ → Bytes → Bytes → World → Bool
has_string d key value w = elim (device_get_string d key w) [
  | none ↦ false
  | some v ↦ str_eq v value
]

pub index_of-put_index :
    (s t : StoreId) (key k : Bytes) (index : Assoc (List ℕ)) (w : World)
    → index_of t k (put_index s key index w)
      ≡ (if same_store t s && str_eq key k then some index else index_of t k w)
unfolding index_of put_index
index_of-put_index gdl gdl key k index w = lookup-insert key k index (w.stores gdl).property_index
index_of-put_index gdl tdl key k index w = refl
index_of-put_index tdl gdl key k index w = refl
index_of-put_index tdl tdl key k index w = lookup-insert key k index (w.stores tdl).property_index

mem-changed :
    (added : Bool) (d e : ℕ) (l : List ℕ)
    → mem e (changed added d l) ≡ (if e == d then added else mem e l)
unfolding mem
mem-changed added d e l = ground (arith, mem-remove_all d e l)

mem-bucket-insert :
    (added : Bool) (d e : ℕ) (value v : Bytes) (index : Assoc (List ℕ))
    → mem e (bucket v (insert value (changed added d (bucket value index)) index))
      ≡ (if e == d && str_eq value v then added else mem e (bucket v index))
mem-bucket-insert added d e value v index = ground (
  arith,
  lookup-insert value v (changed added d (bucket value index)) index,
  mem-changed added d e (bucket value index),
  eq_iff value v,
)

pub same_store_eq : (s t : StoreId) → same_store t s ≡ true → t ≡ s
same_store_eq gdl gdl h = refl
same_store_eq gdl tdl h = cc
same_store_eq tdl gdl h = cc
same_store_eq tdl tdl h = refl

-- The index of any store and key after a change is the old one, but at the changed key.
index_of-index_modify_string :
    (s t : StoreId) (d : ℕ) (key k : Bytes) (added : Bool) (w : World)
    → index_of t k (index_modify_string s d key added w) ≡ (
        if same_store t s && str_eq key k
        then elim (index_of s key w) [
          | none ↦ none
          | some index ↦ elim (device_get_string d key w) [
            | none ↦ some index
            | some value ↦ some (insert value (changed added d (bucket value index)) index)
          ]
        ]
        else index_of t k w)
unfolding index_modify_string
index_of-index_modify_string s t d key k added w = elim (Option-cases (index_of s key w)) [
  | inl e ↦ rw (e, index_modify_string) (ground (arith, e, same_store_eq s t, eq_iff key k))
  | inr (index, e) ↦ elim (Option-cases (device_get_string d key w)) [
    | inl v ↦ rw (e, v, index_modify_string) (ground (arith, e, same_store_eq s t, eq_iff key k))
    | inr (value, v) ↦
        rw (e, v, index_modify_string) (unfold index_of in index_of-put_index s t key k _ w)
  ]
]

module _ (s t : StoreId) (d : ℕ) (key k : Bytes) (added : Bool) (w : World) where
  pub indexed-index_modify_string :
      indexed t k (index_modify_string s d key added w) ≡ indexed t k w
  unfolding indexed
  indexed-index_modify_string =
      ground
        (arith, index_of-index_modify_string s t d key k added w, same_store_eq s t, eq_iff key k)

  pub listed-index_modify_string :
      (value : Bytes) (e : ℕ)
      → listed t k value e (index_modify_string s d key added w) ≡ (
          if same_store t s && indexed s key w && str_eq key k && e == d && has_string d key value w
          then added
          else listed t k value e w)
  unfolding listed indexed has_string
  listed-index_modify_string value e =
      let step = index_of-index_modify_string s t d key k added w in
      elim (Option-cases (index_of s key w)) [
        | inl i ↦ ground (arith, step, i, same_store_eq s t, eq_iff key k)
        | inr (index, i) ↦ elim (Option-cases (device_get_string d key w)) [
          | inl v ↦ ground (arith, step, i, v, same_store_eq s t, eq_iff key k)
          | inr (old, v) ↦ ground (
            arith,
            step,
            i,
            v,
            same_store_eq s t,
            eq_iff key k,
            mem-bucket-insert added d e old value index,
          )
        ]
      ]

module _ (s : StoreId) (d : ℕ) (key : Bytes) (added : Bool) (w : World) where
  pub heap-index_modify_string : (index_modify_string s d key added w).heap ≡ w.heap
  unfolding index_modify_string put_index
  heap-index_modify_string = ground arith

  pub next-index_modify_string : (index_modify_string s d key added w).next ≡ w.next
  unfolding index_modify_string put_index
  next-index_modify_string = ground arith

  pub temp-index_modify_string :
      (index_modify_string s d key added w).temp_device_counter ≡ w.temp_device_counter
  unfolding index_modify_string put_index
  temp-index_modify_string = ground arith

  pub connections-index_modify_string :
      (index_modify_string s d key added w).connections ≡ w.connections
  unfolding index_modify_string put_index
  connections-index_modify_string = ground arith

  pub locked_devices-index_modify_string :
      (index_modify_string s d key added w).locked_devices ≡ w.locked_devices
  unfolding index_modify_string put_index
  locked_devices-index_modify_string = ground arith

  pub devices-index_modify_string :
      (t : StoreId)
      → ((index_modify_string s d key added w).stores t).devices ≡ (w.stores t).devices
  unfolding index_modify_string put_index
  devices-index_modify_string t = ground (arith, same_store_eq s t)
