-- ===== src/Service/Matches.antt =====
-- hald/hald_dbus.c: the answer of FindDeviceStringMatch and the search of the store.
use hal.Prelude.{ℕ, ◌≡◌, Bool, true, List, ◌++◌, Bytes}
use hal.World.{World, StoreId, gdl, tdl, mem}
use hal.Device.{get_udi}
use hal.Store.{match_multiple_key_value_string}
use hal.Service.Manager.{udis_of, has_match, has_match_tdl}

-- A device of the list that passes the test and has the UDI.
abbrev Source : (ℕ → Bool) → List ℕ → World → Bytes → Type 0
Source test l w u = (e : ℕ) × (mem e l ≡ true) × (test e ≡ true) × (get_udi e w ≡ u)

-- What the request answers.
abbrev answer : Bytes → Bytes → World → List Bytes
answer key value w =
    udis_of (has_match key value w) (w.stores gdl).devices w
    ++ udis_of (has_match_tdl key value w) (w.stores tdl).devices w

-- The search of one of the lists returns a device with the UDI.
abbrev pub FoundBy : Bytes → Bytes → Bytes → World → Type 0
FoundBy key value u w =
    (s : StoreId) × (e : ℕ) × (mem e (match_multiple_key_value_string s key value w) ≡ true)
    × (get_udi e w ≡ u)
