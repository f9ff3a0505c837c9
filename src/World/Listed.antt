-- ===== src/World/Listed.antt =====
-- hald/device_store.c: what the index lists after the handlers of a store have run.
use hal.Prelude.{
  ℕ, ◌≡◌, refl, Bool, true, false, ◌&&◌, List, [], ◌∷◌, ◌∙◌, ◌==◌, if◌then◌else◌, arith, Bytes,
  str_eq, eq_iff, Bool-cases, inl, inr,
}
use hal.Property.{type_string, same_type}
use hal.World.{
  gdl, tdl, World, StoreId, Signal, Event, pre_property_changed, property_changed, capability_added,
  lock_acquired, lock_released, same_store, mem_connection, connected, property_find,
  property_get_type, log_event,
}
use hal.World.Index.{
  index_modify_string, indexed, listed, index_of, has_string, device_get_string,
  listed-index_modify_string, same_store_eq,
}
use hal.World.Emit.{handle, deliver, emit}
use hal.World.Kept.{handle-OnlyIndex}

-- The two signals about a key: before a change, and after it.
abbrev pub key_signal : Bool → Bytes → Bool → Bool → Signal
key_signal false key r a = pre_property_changed key r
key_signal true key r a = property_changed key r a

pub has_string-heap :
    (d : ℕ) (key value : Bytes) (v w : World)
    → v.heap ≡ w.heap
    → has_string d key value v ≡ has_string d key value w
unfolding has_string device_get_string property_find
has_string-heap d key value v w h = rw h

string_type :
    (d : ℕ) (key value : Bytes) (w : World)
    → same_type (property_get_type d key w) type_string ≡ false
    → has_string d key value w ≡ false
unfolding has_string device_get_string property_get_type
string_type d key value w h = ground arith

listed-log_event :
    (t : StoreId) (k value : Bytes) (e : ℕ) (ev : Event) (w : World)
    → listed t k value e (log_event ev w) ≡ listed t k value e w
unfolding listed index_of
listed-log_event t k value e ev w = refl

pub same_store_comm : (s t : StoreId) → same_store s t ≡ same_store t s
same_store_comm gdl gdl = refl
same_store_comm gdl tdl = refl
same_store_comm tdl gdl = refl
same_store_comm tdl tdl = refl

module _ (t : StoreId) (k value : Bytes) (e d : ℕ) (key : Bytes) (r a : Bool) where
  pub listed-reindex :
      (added : Bool) (s : StoreId) (w : World)
      → listed t k value e (
          if same_type (property_get_type d key w) type_string
          then index_modify_string s d key added w
          else w)
        ≡ (if same_store t s
              && indexed s key w
              && str_eq key k
              && e == d
              && has_string d key value w
            then added
            else listed t k value e w)
  listed-reindex added s w =
      ground
        (arith, string_type d key value w, listed-index_modify_string s t d key k added w value e)

  listed-handle :
      (added : Bool) (s : StoreId) (w : World)
      → listed t k value e (handle s d (key_signal added key r a) w) ≡ (
          if same_store t s && indexed s key w && str_eq key k && e == d && has_string d key value w
          then added
          else listed t k value e w)
  unfolding handle
  listed-handle false s w = listed-reindex false s w
  listed-handle true s w = listed-log_event t k value e _ _ ∙ listed-reindex true s w

  listed-deliver :
      (added : Bool) (cs : List (StoreId × ℕ)) (w : World)
      → listed t k value e (deliver d (key_signal added key r a) cs w) ≡ (
          if mem_connection t d cs
            && indexed t k w
            && str_eq key k
            && e == d
            && has_string d key value w
          then added
          else listed t k value e w)
  unfolding deliver mem_connection
  listed-deliver added [] w = refl
  listed-deliver added ((s, f) ∷ cs) w =
      let sig = key_signal added key r a in
      let h = handle s d sig w in
      let only = handle-OnlyIndex s d sig w in
      elim (Bool-cases (f == d)) [
        | inr other ↦ rw other (ground (arith, listed-deliver added cs w, other))
        | inl this ↦ rw this (
            ground (
              arith,
              this,
              listed-deliver added cs h,
              listed-handle added s w,
              only.indexed_keys t k,
              has_string-heap d key value h w only.heap,
              same_store_comm s t,
              same_store_eq s t,
              eq_iff key k,
            ))
      ]

  -- After a signal about a key, a connected device that has the value stands in the index or not,
  -- as the signal says; all other entries are as before.
  pub listed-emit :
      (added : Bool) (w : World)
      → listed t k value e (emit d (key_signal added key r a) w) ≡ (
          if connected t d w && indexed t k w && str_eq key k && e == d && has_string d key value w
          then added
          else listed t k value e w)
  unfolding emit
  listed-emit added w = listed-deliver added w.connections w

-- The signals that are not about a key.
abbrev pub IsNotice : Signal → Type 0
IsNotice (pre_property_changed key r) = ⊥
IsNotice (property_changed key r a) = ⊥
IsNotice (capability_added c) = Unit
IsNotice (lock_acquired name owner) = Unit
IsNotice (lock_released name owner) = Unit

module _ (t : StoreId) (k : Bytes) (d : ℕ) where
  index_of-handle :
      (sig : Signal) (s : StoreId) (w : World)
      → IsNotice sig
      → index_of t k (handle s d sig w) ≡ index_of t k w
  unfolding handle index_of
  index_of-handle (pre_property_changed key r) s w h = absurd h
  index_of-handle (property_changed key r a) s w h = absurd h
  index_of-handle (capability_added c) s w h = refl
  index_of-handle (lock_acquired name owner) s w h = refl
  index_of-handle (lock_released name owner) s w h = refl

  index_of-deliver :
      (sig : Signal) (cs : List (StoreId × ℕ)) (w : World)
      → IsNotice sig
      → index_of t k (deliver d sig cs w) ≡ index_of t k w
  unfolding deliver
  index_of-deliver sig [] w h = refl
  index_of-deliver sig ((s, e) ∷ cs) w h =
      index_of-deliver sig cs (if e == d then handle s d sig w else w) h
      ∙ ground (arith, index_of-handle sig s w h)

  pub index_of-emit :
      (sig : Signal) (w : World) → IsNotice sig → index_of t k (emit d sig w) ≡ index_of t k w
  unfolding emit
  index_of-emit sig w h = index_of-deliver sig w.connections w h
