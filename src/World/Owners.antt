-- ===== src/World/Owners.antt =====
-- hald/device_store.c: the owners of the keys of the index tables, which no handler takes away.
use hal.Prelude.{
  ℕ, ◌≡◌, refl, Bool, true, false, List, [], ◌∷◌, ◌==◌, ◌∙◌, if◌then◌else◌, Bytes, arith,
}
use hal.World.{
  World, StoreId, Signal, Event, pre_property_changed, property_changed, capability_added,
  lock_acquired, lock_released, log_event, owns_entry,
}
use hal.World.Index.{index_modify_string, put_index}
use hal.World.Emit.{handle, deliver, emit}

-- From `w` to `v` no owner of a key is lost, and nothing is freed.
pub record KeepsOwners (v w : World) : Type 0 where
  pub flag : v.may_dangle ≡ w.may_dangle
  pub owners :
      (e : ℕ) (k value : Bytes)
      → owns_entry e k value w.key_owners ≡ true
      → owns_entry e k value v.key_owners ≡ true

KeepsOwners-refl : (w : World) → KeepsOwners w w
KeepsOwners-refl w = record { flag = refl; owners = λ e k value h. h }

KeepsOwners-trans : {u v w : World} → KeepsOwners u v → KeepsOwners v w → KeepsOwners u w
KeepsOwners-trans p q = record {
  flag = p.flag ∙ q.flag;
  owners = λ e k value h. p.owners e k value (q.owners e k value h);
}

KeepsOwners-log_event :
    (ev : Event) {v w : World} → KeepsOwners v w → KeepsOwners (log_event ev v) w
KeepsOwners-log_event ev p = record { flag = p.flag; owners = p.owners }

KeepsOwners-if :
    (b : Bool) {u v w : World}
    → KeepsOwners u w
    → KeepsOwners v w
    → KeepsOwners (if b then u else v) w
KeepsOwners-if true p q = p
KeepsOwners-if false p q = q

module _ (s : StoreId) (d : ℕ) where
  index_modify_string-KeepsOwners :
      (key : Bytes) (added : Bool) (w : World) → KeepsOwners (index_modify_string s d key added w) w
  unfolding index_modify_string put_index owns_entry
  index_modify_string-KeepsOwners key added w = record {
    flag = ground arith;
    owners = λ e k value h. ground (arith, h);
  }

  handle-KeepsOwners : (sig : Signal) (w : World) → KeepsOwners (handle s d sig w) w
  unfolding handle
  handle-KeepsOwners (pre_property_changed key removed) w =
      KeepsOwners-if _ (index_modify_string-KeepsOwners key false w) (KeepsOwners-refl w)
  handle-KeepsOwners (property_changed key removed added) w =
      KeepsOwners-log_event _
        (KeepsOwners-if _ (index_modify_string-KeepsOwners key true w) (KeepsOwners-refl w))
  handle-KeepsOwners (capability_added capability) w = KeepsOwners-log_event _ (KeepsOwners-refl w)
  handle-KeepsOwners (lock_acquired name owner) w = KeepsOwners-log_event _ (KeepsOwners-refl w)
  handle-KeepsOwners (lock_released name owner) w = KeepsOwners-log_event _ (KeepsOwners-refl w)

module _ (d : ℕ) (sig : Signal) where
  deliver-KeepsOwners : (cs : List (StoreId × ℕ)) (w : World) → KeepsOwners (deliver d sig cs w) w
  unfolding deliver
  deliver-KeepsOwners [] w = KeepsOwners-refl w
  deliver-KeepsOwners ((s, e) ∷ cs) w =
      KeepsOwners-trans (deliver-KeepsOwners cs (if e == d then handle s d sig w else w))
        (KeepsOwners-if (e == d) (handle-KeepsOwners s d sig w) (KeepsOwners-refl w))

  pub emit-KeepsOwners : (w : World) → KeepsOwners (emit d sig w) w
  unfolding emit
  emit-KeepsOwners w = deliver-KeepsOwners w.connections w
