-- ===== src/Service/Place.antt =====
-- hald/hald_dbus.c: no method moves a device: each UDI leads to the same device before and after.
use hal.Prelude.{
  ◌∙◌, ap, ℕ, ◌≡◌, refl, Bool, true, false, not, ◌&&◌, some, List, [], ◌∷◌, Bytes, inl, inr, str_eq,
  arith,
}
use hal.Property.{type_strlist, same_type, int32, uint64, double, boolean, string}
use hal.Property.Utf8.{Utf8, stored_string}
use hal.World.{World, StoreId, gdl, tdl, property_get_type}
use hal.Device.{get_udi, has_property}
use hal.Device.Set.{set_string, set_int, set_uint64, set_double, set_bool}
use hal.Device.Place.{
  SamePlace, SamePlace-refl, SamePlace-trans, SamePlace-if, Stays, Stays-pair, store_value-Stays,
  property_remove-Stays, strlist_append-Stays, strlist_append_finish_changeset-Stays,
  strlist_prepend-Stays, strlist_remove-Stays, strlist_clear-Stays, add_capability-SamePlace,
}
use hal.Lock.Place.{acquire_lock-Stays, release_lock-Stays}
use hal.Store.{first_device, store_find}
use hal.Access.{Site}
use hal.Rules.Path.{find_device}
use hal.Service.{
  Reply, Request, Argument, arg_string, arg_int32, arg_uint64, arg_double, arg_boolean, arg_strings,
  arg_other, or_error,
}
use hal.Service.Change.{append_each, set_strings, set_argument, set_entry, set_entries}
use hal.Service.Owner.{
  Bus, info_locked, locked_reason, locked_dbus_name, remove_lock_properties, set_lock_properties,
}
use hal.Service.Methods.{Method, handle_method}
use hal.Service.Cases.{device_lock-cases, device_unlock-cases}
use hal.Service.Every.{Meets, handle_method-all}

first_device-same :
    (p q : ℕ → Bool) (l : List ℕ) → ((d : ℕ) → p d ≡ q d) → first_device p l ≡ first_device q l
unfolding first_device
first_device-same p q [] h = refl
first_device-same p q (d ∷ l) h = ground (arith, h d, first_device-same p q l h)

store_find-SamePlace :
    (s : StoreId) (udi : Bytes) (w v : World)
    → SamePlace w v
    → store_find s udi v ≡ store_find s udi w
unfolding store_find get_udi
store_find-SamePlace s udi w v p =
    first_device-same _ _ (v.stores s).devices (λ d. ap (λ u. str_eq u udi) (p.udis d))
    ∙ ap (first_device (λ d. str_eq (get_udi d w) udi)) (p.devices s)

pub find_device-SamePlace :
    (udi : Bytes) (w v : World) → SamePlace w v → find_device udi v ≡ find_device udi w
unfolding find_device
find_device-SamePlace udi w v p =
    ground (arith, store_find-SamePlace gdl udi w v p, store_find-SamePlace tdl udi w v p)

or_error-SamePlace :
    (e : Reply) (w : World) (x : Bool × World) → Stays w x → SamePlace w (or_error e x).1
or_error-SamePlace e w (true, v) p = p.place
or_error-SamePlace e w (false, v) p = p.place

append_each-SamePlace :
    (d : ℕ) (key : Bytes) (l : List Bytes) (w : World) → SamePlace w (append_each d key l w)
unfolding append_each
append_each-SamePlace d key [] w = SamePlace-refl w
append_each-SamePlace d key (v ∷ l) w =
    SamePlace-trans (strlist_append-Stays d key w v true).place (append_each-SamePlace d key l _)

set_strings-SamePlace :
    (d : ℕ) (key : Bytes) (l : List Bytes) (w : World) → SamePlace w (set_strings d key l w)
unfolding set_strings
set_strings-SamePlace d key l w =
    let p =
      SamePlace-trans (strlist_clear-Stays d key w true).place (append_each-SamePlace d key l _) in
    SamePlace-if (has_property d key w && not (same_type (property_get_type d key w) type_strlist))
      w _ _ p
      (SamePlace-trans p
        (strlist_append_finish_changeset-Stays d key _ (not (has_property d key w))).place)

remove_lock_properties-SamePlace : (d : ℕ) (w : World) → SamePlace w (remove_lock_properties d w)
unfolding remove_lock_properties
remove_lock_properties-SamePlace d w =
    let p1 = (property_remove-Stays d info_locked w).place in
    let p2 = SamePlace-trans p1 (property_remove-Stays d locked_reason _).place in
    SamePlace-trans p2 (property_remove-Stays d locked_dbus_name _).place

module _ (utf8 : Utf8) where
  pub set_argument-Stays :
      (d : ℕ) (key : Bytes) (v : Argument) (w : World) → Stays w (set_argument utf8 d key v w)
  unfolding set_argument set_string set_int set_uint64 set_double set_bool
  set_argument-Stays d key (arg_string v) w =
      store_value-Stays d key w (string v) (string (stored_string utf8 (some v)))
  set_argument-Stays d key (arg_int32 v) w = store_value-Stays d key w (int32 v) (int32 v)
  set_argument-Stays d key (arg_uint64 v) w = store_value-Stays d key w (uint64 v) (uint64 v)
  set_argument-Stays d key (arg_double v) w = store_value-Stays d key w (double v) (double v)
  set_argument-Stays d key (arg_boolean v) w = store_value-Stays d key w (boolean v) (boolean v)
  set_argument-Stays d key (arg_strings l) w = Stays-pair false w w (SamePlace-refl w)
  set_argument-Stays d key arg_other w = Stays-pair false w w (SamePlace-refl w)

  set_entry-SamePlace :
      (d : ℕ) (key : Bytes) (v : Argument) (w : World) → SamePlace w (set_entry utf8 d key v w)
  unfolding set_entry
  set_entry-SamePlace d key (arg_strings l) w = set_strings-SamePlace d key l w
  set_entry-SamePlace d key v w = (set_argument-Stays d key v w).place

  set_entries-SamePlace :
      (d : ℕ) (l : List (Bytes × Argument)) (w : World) → SamePlace w (set_entries utf8 d l w)
  unfolding set_entries
  set_entries-SamePlace d [] w = SamePlace-refl w
  set_entries-SamePlace d ((key, v) ∷ rest) w =
      SamePlace-trans (set_entry-SamePlace d key v w) (set_entries-SamePlace d rest _)

  pub set_lock_properties-SamePlace :
      (d : ℕ) (reason sender : Bytes) (w : World)
      → SamePlace w (set_lock_properties utf8 d reason sender w)
  unfolding set_lock_properties set_string set_bool
  set_lock_properties-SamePlace d reason sender w =
      let p1 = (store_value-Stays d info_locked w (boolean true) (boolean true)).place in
      let p2 =
        SamePlace-trans p1
          (store_value-Stays d locked_reason _ (string reason)
            (string (stored_string utf8 (some reason)))).place in
      SamePlace-trans p2
        (store_value-Stays d locked_dbus_name _ (string sender)
          (string (stored_string utf8 (some sender)))).place

  meets-SamePlace : Meets utf8 (λ w x. SamePlace w x.1)
  meets-SamePlace = record {
    same = λ reply w. SamePlace-refl w;
    argument = λ udi key d v w. or_error-SamePlace _ w _ (set_argument-Stays d key v w);
    entries = λ d l w. set_entries-SamePlace d l w;
    capability = λ d c w. add_capability-SamePlace d c w;
    appended = λ udi key d v w. or_error-SamePlace _ w _ (strlist_append-Stays d key w v false);
    prepended = λ udi key d v w. or_error-SamePlace _ w _ (strlist_prepend-Stays d key w v);
    element_removed = λ udi key d v w. or_error-SamePlace _ w _ (strlist_remove-Stays d key w v);
    removed = λ udi key d w. or_error-SamePlace _ w _ (property_remove-Stays d key w);
    acquired = λ d name lock sender exclusive w.
        or_error-SamePlace _ w _ (acquire_lock-Stays d lock sender exclusive w);
    released =
        λ d name lock sender w. or_error-SamePlace _ w _ (release_lock-Stays d lock sender w);
  }

  handle_method-SamePlace :
      (site : Site) (m : Method) (r : Request) (b : Bus)
      → SamePlace b.world (handle_method utf8 site m r b).1.world
  handle_method-SamePlace site m r b =
      handle_method-all utf8 site (λ w x. SamePlace w x.1) meets-SamePlace
        (λ b x. SamePlace b.world x.1.world) (λ b x p. p)
        (λ r args b. elim (device_lock-cases utf8 r args b) [
          | inl (refused, same) ↦ rw same (SamePlace-refl b.world)
          | inr (d, reason, sender, e, free, s, done) ↦
              rw done (set_lock_properties-SamePlace d reason sender b.world)
        ])
        (λ r args b. elim (device_unlock-cases r args b) [
          | inl (refused, same) ↦ rw same (SamePlace-refl b.world)
          | inr (d, sender, owner, e, held, s, o, eq, done) ↦
              rw done (remove_lock_properties-SamePlace d b.world)
        ])
        m r b

  -- Whatever a method of `Method` does, afterwards each UDI leads to the device, of the same list,
  -- that it led to before.
  pub find_device-handle_method :
      (site : Site) (m : Method) (r : Request) (b : Bus) (udi : Bytes)
      → find_device udi (handle_method utf8 site m r b).1.world ≡ find_device udi b.world
  find_device-handle_method site m r b udi =
      find_device-SamePlace udi b.world _ (handle_method-SamePlace site m r b)
