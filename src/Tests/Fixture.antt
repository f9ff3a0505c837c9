-- ===== src/Tests/Fixture.antt =====
-- The data of the tests: a validator that accepts ASCII texts, and small worlds.
use mathlib.Core.Option
use hal.Prelude.{
  starts_with, ℕ, zero, suc, ◌<◌, ◌≡◌, refl, true, false, Option, none, some, [], ◌∷◌,
  if◌then◌else◌, arith, leb, Bytes, codes, str_eq, contains, lookup, insert, length, set,
  Option-cases, inl, inr,
}
use hal.Property.Utf8.{Utf8, stored_string, sanitize}
use hal.World.{
  owns_entry, property_get_type, World, gdl, mem, no_duplicates, property_find, table_insert,
  mem_connection, connected,
}
use hal.World.Index.{
  remove_all, device_get_string, index_modify_string, index_of, put_index, has_string,
}
use hal.Device.{get_udi, device_new}
use hal.World.Emit.{handle, emit, deliver}
use hal.Device.Set.{set_udi, set_string, store_value}
use hal.Store.{check_keys, check_all, connect, store_add, index_property}
use hal.Lock.View.{free, Locks, all_distinct}
use hal.Access.{computer_udi}
use hal.System.{
  op_new, op_set_udi, op_set_string, op_index, op_store_add, Reach, here, next, run, initial,
}

-- The place of the first byte that is not ASCII.
abbrev pub ascii_validate : Bytes → Option ℕ
ascii_validate [] = none
ascii_validate (c ∷ s) =
    let rest = Option.map suc (ascii_validate s) in if leb 128 c then some 0 else rest

pub ascii_inside : (s : Bytes) (i : ℕ) → ascii_validate s ≡ some i → i < length s
ascii_inside [] i h = absurd (ground arith)
ascii_inside (c ∷ s) i h = elim (Option-cases (ascii_validate s)) [
  | inl e ↦ ground (arith, e)
  | inr (j, e) ↦ ground (arith, e, ascii_inside s j e)
]

pub ascii_advances :
    (s : Bytes) (i j : ℕ)
    → ascii_validate s ≡ some i
    → ascii_validate (set s i b'?') ≡ some j
    → i < j
ascii_advances [] i j h k = absurd (ground arith)
ascii_advances (c ∷ s) zero j h k = elim (Option-cases (ascii_validate s)) [
  | inl e ↦ absurd (ground (arith, e))
  | inr (n, e) ↦ ground (arith, e)
]
ascii_advances (c ∷ s) (suc i) j h k =
    let same : ascii_validate s ≡ some i = elim (Option-cases (ascii_validate s)) [
      | inl e ↦ absurd (ground (arith, e))
      | inr (n, e) ↦ ground (arith, e)
    ] in
    elim (Option-cases (ascii_validate (set s i b'?'))) [
      | inl e ↦ absurd (ground (arith, e))
      | inr (m, e) ↦ ground (arith, e, ascii_advances s i m same e)
    ]

abbrev pub ascii : Utf8
ascii = record { validate = ascii_validate; inside = ascii_inside; advances = ascii_advances }

-- One device, in no store, without a lock.
abbrev pub one_device : World
one_device = (device_new initial).1

pub one_device-Locks : Locks 0 one_device (λ n. free) []
unfolding property_find device_new lookup contains all_distinct mem no_duplicates
one_device-Locks = record {
  parts = λ p n h. refl;
  held_names = λ n h. refl;
  short_names = λ n h. absurd (ground arith);
  distinct = refl;
  list = refl;
  in_locked_set = refl;
  locked_set_distinct = refl;
}

abbrev pub subsystem : Bytes
subsystem = codes "info.subsystem"

abbrev pub udi : Bytes
udi = codes "/org/freedesktop/Hal/devices/a"

-- The key is indexed, and the device has a UDI and a string under the key.
abbrev pub indexed_world : World
indexed_world = run ascii (op_index gdl subsystem) (run ascii op_new initial)

abbrev pub named_world : World
named_world =
    run ascii (op_set_string 0 subsystem (some (codes "usb")))
      (run ascii (op_set_udi 0 udi) indexed_world)

-- The device enters the store.
abbrev pub stored_world : World
stored_world = run ascii (op_store_add gdl 0) named_world

-- A second device with the same string comes, and enters the store too.
abbrev pub second_world : World
second_world = run ascii (op_set_string 1 subsystem (some (codes "usb"))) (
    run ascii (op_set_udi 1 (codes "/org/freedesktop/Hal/devices/b"))
      (run ascii op_new stored_world))

abbrev pub shared_world : World
shared_world = run ascii (op_store_add gdl 1) second_world

-- The second device gets another string after that.
abbrev pub renamed_world : World
renamed_world = run ascii (op_set_string 1 subsystem (some (codes "pci"))) shared_world

pub nothing_connected :
    (e : ℕ) (value : Bytes)
    → connected gdl e (run ascii op_new initial) ≡ true
    → has_string e subsystem value (run ascii op_new initial) ≡ false
unfolding run device_new mem_connection
nothing_connected e value h = absurd (ground arith)

pub new_world-Reach : Reach ascii initial (run ascii op_new initial)
new_world-Reach = next op_new here tt

pub named_world-Reach : Reach ascii initial named_world
named_world-Reach =
    next (op_set_string 0 subsystem (some (codes "usb")))
      (next (op_set_udi 0 udi) (next (op_index gdl subsystem) new_world-Reach nothing_connected) tt)
      tt

pub below_next : 0 < named_world.next
unfolding run device_new index_property index_of put_index set_udi set_string store_value
    property_find lookup insert table_insert emit deliver stored_string sanitize mem str_eq
below_next = omega arith

pub not_stored : mem 0 (named_world.stores gdl).devices ≡ false
unfolding run device_new index_property index_of put_index set_udi set_string store_value
    property_find lookup insert table_insert emit deliver stored_string sanitize mem str_eq
not_stored = refl

pub stored_world-Reach : Reach ascii initial stored_world
stored_world-Reach = next (op_store_add gdl 0) named_world-Reach (below_next, not_stored)

pub second_below_next : 1 < second_world.next
unfolding run device_new index_property index_of put_index set_udi set_string store_value
    property_find lookup insert table_insert emit deliver handle index_modify_string
    property_get_type device_get_string stored_string sanitize mem str_eq store_add connect
    check_all check_keys starts_with get_udi remove_all owns_entry
second_below_next = omega arith

pub second_not_stored : mem 1 (second_world.stores gdl).devices ≡ false
unfolding run device_new index_property index_of put_index set_udi set_string store_value
    property_find lookup insert table_insert emit deliver handle index_modify_string
    property_get_type device_get_string stored_string sanitize mem str_eq store_add connect
    check_all check_keys starts_with get_udi remove_all owns_entry
second_not_stored = refl

pub shared_world-Reach : Reach ascii initial shared_world
shared_world-Reach =
    next (op_store_add gdl 1)
      (next (op_set_string 1 subsystem (some (codes "usb")))
        (next (op_set_udi 1 (codes "/org/freedesktop/Hal/devices/b"))
          (next op_new stored_world-Reach tt) tt)
        tt)
      (second_below_next, second_not_stored)

pub renamed_world-Reach : Reach ascii initial renamed_world
renamed_world-Reach = next (op_set_string 1 subsystem (some (codes "pci"))) shared_world-Reach tt

-- The computer device in the store, and a second device, in no store.
abbrev pub two_devices : World
two_devices =
    run ascii (op_store_add gdl 0)
      (run ascii (op_set_udi 0 computer_udi) (run ascii op_new (run ascii op_new initial)))
