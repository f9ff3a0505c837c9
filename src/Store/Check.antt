-- ===== src/Store/Check.antt =====
-- hald/device_store.c: what `property_index_check_all` enters in the index.
use hal.Prelude.{
  ℕ, ◌≡◌, refl, Bool, true, false, ◌&&◌, none, some, List, [], ◌∷◌, ◌==◌, if◌then◌else◌, arith,
  Bytes, str_eq, eq_iff, lookup, contains, Assoc, keys, ◌∙◌,
}
use hal.World.{World, StoreId, same_store, property_get_type}
use hal.World.Index.{index_modify_string, index_of, indexed, listed, has_string, same_store_eq}
use hal.World.Kept.{OnlyIndex, OnlyIndex-refl, OnlyIndex-trans, reindex-OnlyIndex}
use hal.World.Listed.{listed-reindex, has_string-heap}
use hal.Property.{type_string, same_type}
use hal.Store.{check_keys, check_all}

contains-keys {ℓ} :
    {V : Type ℓ} (k : Bytes) (t : Assoc V)
    → contains k (keys t) ≡ elim (lookup k t) [ none ↦ false | some _ ↦ true ]
unfolding contains lookup
contains-keys k [] = refl
contains-keys k ((j, v) ∷ t) = ground (arith, contains-keys k t)

indexed-keys :
    (s : StoreId) (k : Bytes) (w : World)
    → contains k (keys (w.stores s).property_index) ≡ indexed s k w
unfolding indexed index_of
indexed-keys s k w = contains-keys k (w.stores s).property_index

module _ (s : StoreId) (d : ℕ) (added : Bool) where
  check_keys-OnlyIndex : (l : List Bytes) (w : World) → OnlyIndex (check_keys s d added l w) w
  unfolding check_keys
  check_keys-OnlyIndex [] w = OnlyIndex-refl w
  check_keys-OnlyIndex (key ∷ l) w =
      OnlyIndex-trans (check_keys-OnlyIndex l _) (reindex-OnlyIndex s d key added w)

  listed-check_keys :
      (t : StoreId) (k value : Bytes) (e : ℕ) (l : List Bytes) (w : World)
      → listed t k value e (check_keys s d added l w) ≡ (
          if same_store t s && contains k l && indexed t k w && e == d && has_string d k value w
          then added
          else listed t k value e w)
  unfolding check_keys contains
  listed-check_keys t k value e [] w = ground arith
  listed-check_keys t k value e (key ∷ l) w =
      let v : World =
        if same_type (property_get_type d key w) type_string
        then index_modify_string s d key added w
        else w in
      let o : OnlyIndex v w = reindex-OnlyIndex s d key added w in
      listed-check_keys t k value e l v
      ∙ step v (listed-reindex t k value e d key false false added s w) (o.indexed_keys t k)
          (has_string-heap d k value v w o.heap)
    where
      step :
          (v : World)
          → listed t k value e v ≡ (
              if same_store t s
                && indexed s key w
                && str_eq key k
                && e == d
                && has_string d key value w
              then added
              else listed t k value e w)
          → indexed t k v ≡ indexed t k w
          → has_string d k value v ≡ has_string d k value w
          → (if same_store t s && contains k l && indexed t k v && e == d && has_string d k value v
              then added
              else listed t k value e v)
            ≡ (if same_store t s
                  && (if str_eq key k then true else contains k l)
                  && indexed t k w
                  && e == d
                  && has_string d k value w
                then added
                else listed t k value e w)
      step v changed same_index same_value = ground (arith, same_store_eq s t, eq_iff key k)

  pub listed-check_all :
      (t : StoreId) (k value : Bytes) (e : ℕ) (w : World)
      → listed t k value e (check_all s d added w) ≡ (
          if same_store t s && indexed t k w && e == d && has_string d k value w
          then added
          else listed t k value e w)
  unfolding check_all
  listed-check_all t k value e w = ground (
    arith,
    listed-check_keys t k value e (keys (w.stores s).property_index) w,
    indexed-keys s k w,
    same_store_eq s t,
  )

  pub check_all-OnlyIndex : (w : World) → OnlyIndex (check_all s d added w) w
  unfolding check_all
  check_all-OnlyIndex w = check_keys-OnlyIndex (keys (w.stores s).property_index) w
