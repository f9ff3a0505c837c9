-- ===== src/Device/Place.antt =====
-- hald/device.c: the changes of properties and the locks leave the stores' lists of devices and the
-- devices' UDIs as they are.
use hal.Prelude.{
  ap, ℕ, ◌≡◌, refl, ◌∙◌, Bool, true, false, Bytes, codes, Option-cases, inl, inr, if◌then◌else◌,
  arith,
}
use hal.Property.{Property}
use hal.World.{World, Device, Signal, StoreId, property_find, table_insert, table_remove}
use hal.World.Emit.{emit}
use hal.World.Kept.{emit-OnlyIndex}
use hal.Device.Set.{store_value, property_remove}
use hal.Device.Strlist.{
  emit_unless, strlist_append, strlist_append_finish_changeset, strlist_prepend, strlist_remove,
  strlist_add, strlist_clear, add_capability,
}

-- From the first world to the second.
pub record SamePlace (w v : World) : Type 0 where
  pub devices : (t : StoreId) → (v.stores t).devices ≡ (w.stores t).devices
  pub udis : (e : ℕ) → (v.heap e).udi ≡ (w.heap e).udi

pub SamePlace-refl : (w : World) → SamePlace w w
SamePlace-refl w = record { devices = λ t. refl; udis = λ e. refl }

pub SamePlace-trans : {u v w : World} → SamePlace u v → SamePlace v w → SamePlace u w
SamePlace-trans p q = record {
  devices = λ t. q.devices t ∙ p.devices t;
  udis = λ e. q.udis e ∙ p.udis e;
}

pub SamePlace-emit :
    (d : ℕ) (sig : Signal) (w v : World) → SamePlace w v → SamePlace w (emit d sig v)
SamePlace-emit d sig w v p =
    let o = emit-OnlyIndex d sig v in
    record {
      devices = λ t. o.devices t ∙ p.devices t;
      udis = λ e. ap (λ (h : ℕ → Device). (h e).udi) o.heap ∙ p.udis e;
    }

pub SamePlace-emit_unless :
    (b : Bool) (d : ℕ) (sig : Signal) (w v : World)
    → SamePlace w v
    → SamePlace w (emit_unless b d sig v)
unfolding emit_unless
SamePlace-emit_unless true d sig w v p = p
SamePlace-emit_unless false d sig w v p = SamePlace-emit d sig w v p

pub SamePlace-table_insert :
    (d : ℕ) (key : Bytes) (x : Property) (w v : World)
    → SamePlace w v
    → SamePlace w (table_insert d key x v)
unfolding table_insert
SamePlace-table_insert d key x w v p = record {
  devices = p.devices;
  udis = λ e. ground (arith, p.udis e);
}

pub SamePlace-table_remove :
    (d : ℕ) (key : Bytes) (w v : World) → SamePlace w v → SamePlace w (table_remove d key v)
unfolding table_remove
SamePlace-table_remove d key w v p = record {
  devices = p.devices;
  udis = λ e. ground (arith, p.udis e);
}

-- The same of an operation that returns a value.
pub record Stays (w : World) (x : Bool × World) : Type 0 where
  pub place : SamePlace w x.1

pub Stays-pair : (a : Bool) (w v : World) → SamePlace w v → Stays w (a, v)
Stays-pair a w v p = record { place = p }

pub Stays-if :
    (b : Bool) (w : World) (x y : Bool × World)
    → Stays w x
    → Stays w y
    → Stays w (if b then x else y)
Stays-if true w x y p q = p
Stays-if false w x y p q = q

pub ruleset place_rules = (
  SamePlace-refl, SamePlace-emit, SamePlace-emit_unless, SamePlace-table_insert,
  SamePlace-table_remove, Stays-pair, Stays-if,
)

module _ (d : ℕ) (key : Bytes) (w : World) where
  pub store_value-Stays : (offered stored : Property) → Stays w (store_value d key offered stored w)
  unfolding store_value
  store_value-Stays offered stored = elim (Option-cases (property_find d key w)) [
    | inl e ↦ rw (e, store_value) (search place_rules depth 8)
    | inr (old, e) ↦ rw (e, store_value) (search place_rules depth 8)
  ]

  pub property_remove-Stays : Stays w (property_remove d key w)
  unfolding property_remove
  property_remove-Stays = elim (Option-cases (property_find d key w)) [
    | inl e ↦ rw (e, property_remove) (search place_rules depth 8)
    | inr (old, e) ↦ rw (e, property_remove) (search place_rules depth 8)
  ]

  pub strlist_append-Stays :
      (value : Bytes) (changeset : Bool) → Stays w (strlist_append d key value changeset w)
  unfolding strlist_append
  strlist_append-Stays value changeset = elim (Option-cases (property_find d key w)) [
    | inl e ↦ rw (e, strlist_append) (search place_rules depth 8)
    | inr (old, e) ↦ rw (e, strlist_append) (search place_rules depth 8)
  ]

  pub strlist_append_finish_changeset-Stays :
      (is_added : Bool) → Stays w (strlist_append_finish_changeset d key is_added w)
  unfolding strlist_append_finish_changeset
  strlist_append_finish_changeset-Stays is_added = elim (Option-cases (property_find d key w)) [
    | inl e ↦ rw (e, strlist_append_finish_changeset) (search place_rules depth 8)
    | inr (old, e) ↦ rw (e, strlist_append_finish_changeset) (search place_rules depth 8)
  ]

  pub strlist_prepend-Stays : (value : Bytes) → Stays w (strlist_prepend d key value w)
  unfolding strlist_prepend
  strlist_prepend-Stays value = elim (Option-cases (property_find d key w)) [
    | inl e ↦ rw (e, strlist_prepend) (search place_rules depth 8)
    | inr (old, e) ↦ rw (e, strlist_prepend) (search place_rules depth 8)
  ]

  pub strlist_remove-Stays : (value : Bytes) → Stays w (strlist_remove d key value w)
  unfolding strlist_remove
  strlist_remove-Stays value = elim (Option-cases (property_find d key w)) [
    | inl e ↦ rw (e, strlist_remove) (search place_rules depth 8)
    | inr (old, e) ↦ rw (e, strlist_remove) (search place_rules depth 8)
  ]

  pub strlist_add-Stays : (value : Bytes) → Stays w (strlist_add d key value w)
  unfolding strlist_add
  strlist_add-Stays value = elim (Option-cases (property_find d key w)) [
    | inl e ↦ rw (e, strlist_add) (search place_rules depth 8)
    | inr (old, e) ↦ rw (e, strlist_add) (search place_rules depth 8)
  ]

  pub strlist_clear-Stays : (changeset : Bool) → Stays w (strlist_clear d key changeset w)
  unfolding strlist_clear
  strlist_clear-Stays changeset = elim (Option-cases (property_find d key w)) [
    | inl e ↦ rw (e, strlist_clear) (search place_rules depth 8)
    | inr (old, e) ↦ rw (e, strlist_clear) (search place_rules depth 8)
  ]

pub SamePlace-if :
    (b : Bool) (w u v : World) → SamePlace w u → SamePlace w v → SamePlace w (if b then u else v)
SamePlace-if true w u v p q = p
SamePlace-if false w u v p q = q

pub add_capability-SamePlace : (d : ℕ) (c : Bytes) (w : World) → SamePlace w (add_capability d c w)
unfolding add_capability
add_capability-SamePlace d c w =
    let p = (strlist_add-Stays d (codes "info.capabilities") w c).place in
    SamePlace-if _ w _ _ (SamePlace-emit d _ w _ p) p
