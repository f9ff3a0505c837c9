-- ===== src/Service/Keep.antt =====
-- hald/hald_dbus.c: the methods keep the invariant of the index.
use hal.Prelude.{◌≡◌, ℕ, Bool, true, false, not, ◌&&◌, Option, some, List, [], ◌∷◌, Bytes, inl, inr}
use hal.Property.{type_strlist, same_type, int32, uint64, double, boolean}
use hal.Property.Utf8.{Utf8}
use hal.World.{World, property_get_type}
use hal.World.Consistent.{IsConsistent}
use hal.Device.{has_property}
use hal.Device.Set.{set_int, set_uint64, set_double, set_bool}
use hal.Device.Keep.{either}
use hal.Device.Keep.Setters.{store_value-Keeps, set_string-Keeps, property_remove-Keeps}
use hal.Device.Keep.Strlists.{
  strlist_append-Keeps, strlist_prepend-Keeps, strlist_remove-Keeps, strlist_clear-Keeps,
  strlist_append_finish_changeset-Keeps, add_capability-IsConsistent,
}
use hal.Lock.Keep.{acquire_lock-Keeps, release_lock-Keeps}
use hal.Access.{Site}
use hal.Service.{
  Reply, Request, Argument, arg_string, arg_int32, arg_uint64, arg_double, arg_boolean, arg_strings,
  arg_other, or_error,
}
use hal.Service.Change.{append_each, set_strings, set_argument, set_entry, set_entries}
use hal.Service.Owner.{
  Bus, info_locked, locked_reason, locked_dbus_name, remove_lock_properties, set_lock_properties,
  device_lock, device_unlock,
}
use hal.Service.Methods.{Method, handle_method}
use hal.Service.Cases.{device_lock-cases, device_unlock-cases}
use hal.Service.Every.{Meets, handle_method-all}

set_bool-IsConsistent :
    (d : ℕ) (key : Bytes) (b : Bool) (w : World)
    → IsConsistent w
    → IsConsistent (set_bool d key b w).1
unfolding set_bool
set_bool-IsConsistent d key b w h = (store_value-Keeps d key (boolean b) (boolean b) w h).kept

append_each-IsConsistent :
    (d : ℕ) (key : Bytes) (l : List Bytes) (w : World)
    → IsConsistent w
    → IsConsistent (append_each d key l w)
unfolding append_each
append_each-IsConsistent d key [] w h = h
append_each-IsConsistent d key (v ∷ l) w h =
    append_each-IsConsistent d key l _ (strlist_append-Keeps d key v true w h).kept

set_strings-IsConsistent :
    (d : ℕ) (key : Bytes) (l : List Bytes) (w : World)
    → IsConsistent w
    → IsConsistent (set_strings d key l w)
unfolding set_strings
set_strings-IsConsistent d key l w h =
    let filled = append_each-IsConsistent d key l _ (strlist_clear-Keeps d key true w h).kept in
    either (has_property d key w && not (same_type (property_get_type d key w) type_strlist)) filled
      (strlist_append_finish_changeset-Keeps d key (not (has_property d key w)) _ filled).kept

remove_lock_properties-IsConsistent :
    (d : ℕ) (w : World) → IsConsistent w → IsConsistent (remove_lock_properties d w)
unfolding remove_lock_properties
remove_lock_properties-IsConsistent d w h =
    let h1 = (property_remove-Keeps d info_locked w h).kept in
    let h2 = (property_remove-Keeps d locked_reason _ h1).kept in
    (property_remove-Keeps d locked_dbus_name _ h2).kept

or_error-IsConsistent :
    (e : Reply) (x : Bool × World) → IsConsistent x.1 → IsConsistent (or_error e x).1
or_error-IsConsistent e (true, w) h = h
or_error-IsConsistent e (false, w) h = h

device_unlock-IsConsistent :
    (r : Request) (args : Bool) (b : Bus)
    → IsConsistent b.world
    → IsConsistent (device_unlock r args b).1.world
device_unlock-IsConsistent r args b h = elim (device_unlock-cases r args b) [
  | inl (refused, same) ↦ rw same h
  | inr (d, sender, owner, e, held, s, o, same, done) ↦
      rw done (remove_lock_properties-IsConsistent d b.world h)
]

module _ (utf8 : Utf8) where
  set_argument-IsConsistent :
      (d : ℕ) (key : Bytes) (v : Argument) (w : World)
      → IsConsistent w
      → IsConsistent (set_argument utf8 d key v w).1
  unfolding set_argument set_int set_uint64 set_double
  set_argument-IsConsistent d key (arg_string v) w h =
      (set_string-Keeps utf8 d key (some v) w h).kept
  set_argument-IsConsistent d key (arg_int32 v) w h =
      (store_value-Keeps d key (int32 v) (int32 v) w h).kept
  set_argument-IsConsistent d key (arg_uint64 v) w h =
      (store_value-Keeps d key (uint64 v) (uint64 v) w h).kept
  set_argument-IsConsistent d key (arg_double v) w h =
      (store_value-Keeps d key (double v) (double v) w h).kept
  set_argument-IsConsistent d key (arg_boolean v) w h = set_bool-IsConsistent d key v w h
  set_argument-IsConsistent d key (arg_strings l) w h = h
  set_argument-IsConsistent d key arg_other w h = h

  set_entry-IsConsistent :
      (d : ℕ) (key : Bytes) (v : Argument) (w : World)
      → IsConsistent w
      → IsConsistent (set_entry utf8 d key v w)
  unfolding set_entry
  set_entry-IsConsistent d key (arg_strings l) w h = set_strings-IsConsistent d key l w h
  set_entry-IsConsistent d key v w h = set_argument-IsConsistent d key v w h

  set_entries-IsConsistent :
      (d : ℕ) (l : List (Bytes × Argument)) (w : World)
      → IsConsistent w
      → IsConsistent (set_entries utf8 d l w)
  unfolding set_entries
  set_entries-IsConsistent d [] w h = h
  set_entries-IsConsistent d ((key, v) ∷ rest) w h =
      set_entries-IsConsistent d rest _ (set_entry-IsConsistent d key v w h)

  set_lock_properties-IsConsistent :
      (d : ℕ) (reason sender : Bytes) (w : World)
      → IsConsistent w
      → IsConsistent (set_lock_properties utf8 d reason sender w)
  unfolding set_lock_properties
  set_lock_properties-IsConsistent d reason sender w h =
      let h1 = set_bool-IsConsistent d info_locked true w h in
      let h2 = (set_string-Keeps utf8 d locked_reason (some reason) _ h1).kept in
      (set_string-Keeps utf8 d locked_dbus_name (some sender) _ h2).kept

  device_lock-IsConsistent :
      (r : Request) (args : Option Bytes) (b : Bus)
      → IsConsistent b.world
      → IsConsistent (device_lock utf8 r args b).1.world
  device_lock-IsConsistent r args b h = elim (device_lock-cases utf8 r args b) [
    | inl (refused, same) ↦ rw same h
    | inr (d, reason, sender, e, free, s, done) ↦
        rw done (set_lock_properties-IsConsistent d reason sender b.world h)
  ]

  abbrev Kept : World → Reply × World → Type 0
  Kept w x = IsConsistent w → IsConsistent x.1

  meets-Kept : Meets utf8 Kept
  meets-Kept = record {
    same = λ reply w h. h;
    argument = λ udi key d v w h. or_error-IsConsistent _ _ (set_argument-IsConsistent d key v w h);
    entries = λ d l w h. set_entries-IsConsistent d l w h;
    capability = λ d c w h. add_capability-IsConsistent d c w h;
    appended =
        λ udi key d v w h. or_error-IsConsistent _ _ (strlist_append-Keeps d key v false w h).kept;
    prepended =
        λ udi key d v w h. or_error-IsConsistent _ _ (strlist_prepend-Keeps d key v w h).kept;
    element_removed =
        λ udi key d v w h. or_error-IsConsistent _ _ (strlist_remove-Keeps d key v w h).kept;
    removed = λ udi key d w h. or_error-IsConsistent _ _ (property_remove-Keeps d key w h).kept;
    acquired = λ d name lock sender exclusive w h.
        or_error-IsConsistent _ _ (acquire_lock-Keeps d lock sender exclusive w h).kept;
    released = λ d name lock sender w h.
        or_error-IsConsistent _ _ (release_lock-Keeps d lock sender w h).kept;
  }

  -- A method of `Method`, from any caller and with any arguments, none of whose calls may have freed
  -- memory that is still read, such as a string that keys an index entry, leaves consistent indexes
  -- where they were consistent.
  pub handle_method-IsConsistent :
      (site : Site) (m : Method) (r : Request) (b : Bus)
      → (handle_method utf8 site m r b).1.world.may_dangle ≡ false
      → IsConsistent b.world
      → IsConsistent (handle_method utf8 site m r b).1.world
  handle_method-IsConsistent site m r b live =
      handle_method-all utf8 site Kept meets-Kept
        (λ b x. IsConsistent b.world → IsConsistent x.1.world) (λ b x p. p) device_lock-IsConsistent
        (λ r args b. device_unlock-IsConsistent r args b) m r b
