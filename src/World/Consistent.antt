-- ===== src/World/Consistent.antt =====
-- The invariant that ties the index of a store to the properties of its devices, and how the
-- signals about a change keep it (hald/device.c with hald/device_store.c).
use native.Mathlib.Nat.{le_refl}
use hal.Prelude.{
  ℕ, ◌<◌, ◌≤◌, Bool-cases, inl, inr, ◌≡◌, refl, Bool, true, false, ◌&&◌, ◌∙◌, ◌==◌, arith, Bytes,
  str_eq, eq_iff,
}
use hal.Property.{Property}
use hal.World.{
  World, StoreId, Signal, Event, log_event, pre_property_changed, property_changed, mem,
  no_duplicates, connected, property_find, table_insert, table_remove, property_find-table_insert,
  property_find-table_remove,
}
use hal.World.Index.{index_of, indexed, listed, has_string, device_get_string}
use hal.World.Emit.{emit}
use hal.World.Kept.{emit-OnlyIndex}
use hal.World.Listed.{listed-emit, has_string-heap, IsNotice, index_of-emit}

-- Under each indexed key the index lists, for each value, exactly the store's devices with that
-- string; the devices of a store are those whose signals it handles, no device stands twice in a store, and they are on the heap.
pub record IsConsistent (w : World) : Type 0 where
  pub agrees :
      (s : StoreId) (k value : Bytes) (e : ℕ)
      → indexed s k w ≡ true
      → listed s k value e w ≡ (connected s e w && has_string e k value w)
  pub members : (s : StoreId) (e : ℕ) → mem e (w.stores s).devices ≡ connected s e w
  pub distinct : (s : StoreId) → no_duplicates (w.stores s).devices ≡ true
  pub allocated : (s : StoreId) (e : ℕ) → connected s e w ≡ true → e < w.next

-- From `w` to `v` nothing changed but properties of the device under the key, and signals.
pub record KeyChange (d : ℕ) (key : Bytes) (v w : World) : Type 0 where
  pub connections : v.connections ≡ w.connections
  pub next : v.next ≡ w.next
  pub devices : (t : StoreId) → (v.stores t).devices ≡ (w.stores t).devices
  pub index : (t : StoreId) (k : Bytes) → index_of t k v ≡ index_of t k w
  pub others :
      (e : ℕ) (k value : Bytes)
      → (e == d && str_eq key k) ≡ false
      → has_string e k value v ≡ has_string e k value w

has_string-find :
    (e : ℕ) (k value : Bytes) (v w : World)
    → property_find e k v ≡ property_find e k w
    → has_string e k value v ≡ has_string e k value w
unfolding has_string device_get_string
has_string-find e k value v w h = ground arith

pub listed-index :
    (s : StoreId) (k value : Bytes) (e : ℕ) (v w : World)
    → index_of s k v ≡ index_of s k w
    → listed s k value e v ≡ listed s k value e w
unfolding listed
listed-index s k value e v w h = ground arith

pub indexed-index :
    (s : StoreId) (k : Bytes) (v w : World)
    → index_of s k v ≡ index_of s k w
    → indexed s k v ≡ indexed s k w
unfolding indexed
indexed-index s k v w h = ground arith

module _ (d : ℕ) (key : Bytes) where
  pub table_insert-KeyChange :
      (p : Property) (w : World) → KeyChange d key (table_insert d key p w) w
  table_insert-KeyChange p w = record {
    connections = unfold table_insert in refl;
    next = unfold table_insert in refl;
    devices = λ t. unfold table_insert in refl;
    index = λ t k. unfold table_insert index_of in refl;
    others = λ e k value h.
        has_string-find e k value (table_insert d key p w) w
          (property_find-table_insert d e key k p w ∙ rw h);
  }

  pub table_remove-KeyChange : (w : World) → KeyChange d key (table_remove d key w) w
  table_remove-KeyChange w = record {
    connections = unfold table_remove in refl;
    next = unfold table_remove in refl;
    devices = λ t. unfold table_remove in refl;
    index = λ t k. unfold table_remove index_of in refl;
    others = λ e k value h.
        has_string-find e k value (table_remove d key w) w
          (property_find-table_remove d e key k w ∙ rw h);
  }

  pub KeyChange-refl : (w : World) → KeyChange d key w w
  KeyChange-refl w = record {
    connections = refl;
    next = refl;
    devices = λ t. refl;
    index = λ t k. refl;
    others = λ e k value h. refl;
  }

  pub KeyChange-trans :
      {u v w : World} → KeyChange d key u v → KeyChange d key v w → KeyChange d key u w
  KeyChange-trans p q = record {
    connections = p.connections ∙ q.connections;
    next = p.next ∙ q.next;
    devices = λ t. p.devices t ∙ q.devices t;
    index = λ t k. p.index t k ∙ q.index t k;
    others = λ e k value h. p.others e k value h ∙ q.others e k value h;
  }

  -- The signal before a change, the change, and the signal after it keep the invariant.
  pub replace-IsConsistent :
      (r r' a : Bool) (v w : World)
      → KeyChange d key v (emit d (pre_property_changed key r) w)
      → IsConsistent w
      → IsConsistent (emit d (property_changed key r' a) v)
  replace-IsConsistent r r' a v w c h =
      let w1 = emit d (pre_property_changed key r) w in
      let w2 = emit d (property_changed key r' a) v in
      let o1 = emit-OnlyIndex d (pre_property_changed key r) w in
      let o2 = emit-OnlyIndex d (property_changed key r' a) v in
      record {
        agrees = λ s k value e i. ground (
          arith,
          h.agrees s k value e,
          listed-emit s k value e d key r' a true v,
          listed-emit s k value e d key r a false w,
          listed-index s k value e v w1 (c.index s k),
          indexed-index s k v w1 (c.index s k),
          c.others e k value,
          o1.indexed_keys s k,
          o2.indexed_keys s k,
          o1.connections,
          o2.connections,
          c.connections,
          has_string-heap e k value w1 w o1.heap,
          has_string-heap e k value w2 v o2.heap,
          eq_iff key k,
        );
        members = λ s e. ground (
          arith,
          h.members s e,
          o1.devices s,
          o2.devices s,
          c.devices s,
          o1.connections,
          o2.connections,
          c.connections,
        );
        distinct = λ s. ground (arith, h.distinct s, o1.devices s, o2.devices s, c.devices s);
        allocated = λ s e q. ground (
          arith,
          h.allocated s e,
          o1.next,
          o2.next,
          c.next,
          o1.connections,
          o2.connections,
          c.connections,
        );
      }

  -- A change of a key that held no string needs no signal before it.
  pub fresh-IsConsistent :
      (r a : Bool) (v w : World)
      → KeyChange d key v w
      → ((value : Bytes) → has_string d key value w ≡ false)
      → IsConsistent w
      → IsConsistent (emit d (property_changed key r a) v)
  fresh-IsConsistent r a v w c none_before h =
      let w2 = emit d (property_changed key r a) v in
      let o = emit-OnlyIndex d (property_changed key r a) v in
      record {
        agrees = λ s k value e i. ground (
          arith,
          h.agrees s k value e,
          listed-emit s k value e d key r a true v,
          listed-index s k value e v w (c.index s k),
          indexed-index s k v w (c.index s k),
          c.others e k value,
          none_before value,
          o.indexed_keys s k,
          o.connections,
          c.connections,
          has_string-heap e k value w2 v o.heap,
          eq_iff key k,
        );
        members = λ s e.
            ground (arith, h.members s e, o.devices s, c.devices s, o.connections, c.connections);
        distinct = λ s. ground (arith, h.distinct s, o.devices s, c.devices s);
        allocated =
            λ s e q. ground (arith, h.allocated s e, o.next, c.next, o.connections, c.connections);
      }

  -- A change of a key that held no string and holds none needs no signal.
  pub quiet-IsConsistent :
      (v w : World)
      → KeyChange d key v w
      → ((value : Bytes) → has_string d key value w ≡ false)
      → ((value : Bytes) → has_string d key value v ≡ false)
      → IsConsistent w
      → IsConsistent v
  quiet-IsConsistent v w c none_before none_after h = record {
    agrees = λ s k value e i. ground (
      arith,
      h.agrees s k value e,
      listed-index s k value e v w (c.index s k),
      indexed-index s k v w (c.index s k),
      c.others e k value,
      none_before value,
      none_after value,
      c.connections,
      eq_iff key k,
    );
    members = λ s e. ground (arith, h.members s e, c.devices s, c.connections);
    distinct = λ s. ground (arith, h.distinct s, c.devices s);
    allocated = λ s e q. ground (arith, h.allocated s e, c.next, c.connections);
  }

-- What a change of the heap that keeps all properties, or of the locked set, leaves as it was.
pub record SameProperties (v w : World) : Type 0 where
  pub connections : v.connections ≡ w.connections
  pub next : w.next ≤ v.next
  pub devices : (t : StoreId) → (v.stores t).devices ≡ (w.stores t).devices
  pub index : (t : StoreId) (k : Bytes) → index_of t k v ≡ index_of t k w
  pub properties :
      (e : ℕ) (k value : Bytes) → e < w.next → has_string e k value v ≡ has_string e k value w

pub same-IsConsistent : (v w : World) → SameProperties v w → IsConsistent w → IsConsistent v
same-IsConsistent v w c h = record {
  agrees = λ s k value e i. elim (Bool-cases (connected s e w)) [
    | inl yes_connected ↦ ground (
      arith,
      h.agrees s k value e,
      h.allocated s e,
      listed-index s k value e v w (c.index s k),
      indexed-index s k v w (c.index s k),
      c.properties e k value,
      c.connections,
    )
    | inr not_connected ↦ ground (
      arith,
      h.agrees s k value e,
      listed-index s k value e v w (c.index s k),
      indexed-index s k v w (c.index s k),
      c.connections,
    )
  ];
  members = λ s e. ground (arith, h.members s e, c.devices s, c.connections);
  distinct = λ s. ground (arith, h.distinct s, c.devices s);
  allocated = λ s e q. ground (arith, h.allocated s e, c.next, c.connections);
}

pub IsConsistent-log_event :
    (ev : Event) (w : World) → IsConsistent w → IsConsistent (log_event ev w)
IsConsistent-log_event ev w h =
    same-IsConsistent (log_event ev w) w
      (record {
        connections = refl;
        next = le_refl w.next;
        devices = λ t. refl;
        index = λ t k. unfold index_of in refl;
        properties = λ e k value _. has_string-heap e k value (log_event ev w) w refl;
      })
      h

pub notice-IsConsistent :
    (d : ℕ) (sig : Signal) (w : World) → IsNotice sig → IsConsistent w → IsConsistent (emit d sig w)
notice-IsConsistent d sig w notice =
    let o = emit-OnlyIndex d sig w in
    same-IsConsistent (emit d sig w) w (record {
      connections = o.connections;
      next = omega (arith, o.next);
      devices = o.devices;
      index = λ t k. index_of-emit t k d sig w notice;
      properties = λ e k value _. has_string-heap e k value (emit d sig w) w o.heap;
    })

-- The invariant is about the model's tables, not about the flag that the strings may be freed.
pub IsConsistent-may_dangle :
    (flag : Bool) (w : World) → IsConsistent w → IsConsistent (record w { may_dangle = flag })
IsConsistent-may_dangle flag w h =
    same-IsConsistent (record w { may_dangle = flag }) w
      (record {
        connections = refl;
        next = le_refl w.next;
        devices = λ t. refl;
        index = λ t k. unfold index_of in refl;
        properties =
            λ e k value _. has_string-heap e k value (record w { may_dangle = flag }) w refl;
      })
      h
