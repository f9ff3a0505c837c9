-- ===== src/Device/Keep/Strlists.antt =====
-- The operations on string lists of hald/device.c keep the stores' indexes consistent.
use hal.Prelude.{ℕ, refl, Bool, true, false, [], Bytes, codes, Bool-cases, Option-cases, inl, inr}
use hal.Property.{strlist}
use hal.World.{World, capability_added, property_find}
use hal.World.Consistent.{IsConsistent, notice-IsConsistent}
use hal.Device.Strlist.{
  strlist_append, strlist_append_finish_changeset, strlist_prepend, strlist_remove_elem,
  strlist_clear, strlist_add, strlist_remove, add_capability,
}
use hal.Device.Keep.{
  Keeps, Keeps-touched, Keeps-renewed, Keeps-renewed_quietly, Keeps-quiet_added, append_type,
  keep_rules,
}

module _ (d : ℕ) (key : Bytes) where
  pub strlist_add-Keeps :
      (value : Bytes) (w : World) → IsConsistent w → Keeps (strlist_add d key value w)
  unfolding strlist_add
  strlist_add-Keeps value w h = elim (Option-cases (property_find d key w)) [
    | inl e ↦ rw (e, strlist_add) (search keep_rules)
    | inr (old, e) ↦ rw (e, strlist_add) (search keep_rules)
  ]

  pub strlist_append-Keeps :
      (value : Bytes) (changeset : Bool) (w : World)
      → IsConsistent w
      → Keeps (strlist_append d key value changeset w)
  unfolding strlist_append
  strlist_append-Keeps value true w h = elim (Option-cases (property_find d key w)) [
    | inl e ↦ rw (e, strlist_append) (search (keep_rules, append_type value (strlist []) refl))
    | inr (old, e) ↦ rw (e, strlist_append) (search keep_rules)
  ]
  strlist_append-Keeps value false w h = elim (Option-cases (property_find d key w)) [
    | inl e ↦ rw (e, strlist_append) (search keep_rules)
    | inr (old, e) ↦ rw (e, strlist_append) (search keep_rules)
  ]

  pub strlist_append_finish_changeset-Keeps :
      (is_added : Bool) (w : World)
      → IsConsistent w
      → Keeps (strlist_append_finish_changeset d key is_added w)
  unfolding strlist_append_finish_changeset
  strlist_append_finish_changeset-Keeps is_added w h = elim (Option-cases (property_find d key w)) [
    | inl e ↦ rw (e, strlist_append_finish_changeset) (search keep_rules)
    | inr (old, e) ↦ rw (e, strlist_append_finish_changeset) (search (keep_rules, Keeps-touched))
  ]

  pub strlist_prepend-Keeps :
      (value : Bytes) (w : World) → IsConsistent w → Keeps (strlist_prepend d key value w)
  unfolding strlist_prepend
  strlist_prepend-Keeps value w h = elim (Option-cases (property_find d key w)) [
    | inl e ↦ rw (e, strlist_prepend) (search keep_rules)
    | inr (old, e) ↦ rw (e, strlist_prepend) (search keep_rules)
  ]

  pub strlist_remove_elem-Keeps :
      (index : ℕ) (w : World) → IsConsistent w → Keeps (strlist_remove_elem d key index w)
  unfolding strlist_remove_elem
  strlist_remove_elem-Keeps index w h = elim (Option-cases (property_find d key w)) [
    | inl e ↦ rw (e, strlist_remove_elem) (search keep_rules)
    | inr (old, e) ↦ rw (e, strlist_remove_elem) (search keep_rules)
  ]

  pub strlist_remove-Keeps :
      (value : Bytes) (w : World) → IsConsistent w → Keeps (strlist_remove d key value w)
  unfolding strlist_remove
  strlist_remove-Keeps value w h = elim (Option-cases (property_find d key w)) [
    | inl e ↦ rw (e, strlist_remove) (search keep_rules)
    | inr (old, e) ↦ rw (e, strlist_remove) (search keep_rules)
  ]

  pub strlist_clear-Keeps :
      (changeset : Bool) (w : World) → IsConsistent w → Keeps (strlist_clear d key changeset w)
  unfolding strlist_clear
  strlist_clear-Keeps true w h = elim (Option-cases (property_find d key w)) [
    | inl e ↦ rw (e, strlist_clear) (Keeps-quiet_added d key (strlist []) w true e refl h)
    | inr (old, e) ↦ rw (e, strlist_clear) (search (keep_rules, Keeps-renewed_quietly))
  ]
  strlist_clear-Keeps false w h = elim (Option-cases (property_find d key w)) [
    | inl e ↦ rw (e, strlist_clear) (search keep_rules)
    | inr (old, e) ↦ rw (e, strlist_clear) (search (keep_rules, Keeps-renewed))
  ]

pub add_capability-IsConsistent :
    (d : ℕ) (capability : Bytes) (w : World)
    → IsConsistent w
    → IsConsistent (add_capability d capability w)
unfolding add_capability
add_capability-IsConsistent d capability w h =
    let r = strlist_add d (codes "info.capabilities") capability w in
    let k = (strlist_add-Keeps d (codes "info.capabilities") capability w h).kept in
    elim (Bool-cases r.0) [
      | inl e ↦ rw e (notice-IsConsistent d (capability_added capability) r.1 tt k)
      | inr e ↦ rw e k
    ]
