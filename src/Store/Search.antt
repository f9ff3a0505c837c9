-- ===== src/Store/Search.antt =====
-- hald/device_store.c: what the searches of a store find.
use hal.Prelude.{
  ℕ, ◌≡◌, refl, Bool, true, false, ◌&&◌, ◌||◌, Option, none, some, List, [], ◌∷◌, if◌then◌else◌,
  arith, Bytes, str_eq, Option-cases, Bool-cases, inl, inr, ◌∙◌,
}
use hal.World.{World, StoreId, mem, property_get_type}
use hal.World.Index.{index_of, indexed, listed, has_string, bucket, device_get_string}
use hal.World.Consistent.{IsConsistent}
use hal.Device.{get_udi, has_property}
use hal.Store.{
  first_device, store_find, matches_string, first, match_key_value_string, all_devices,
  match_multiple_key_value_string,
}

-- What a search for one device returns: a device of the list that passes the test, or nothing
-- where no number is both in the list and one that passes.
abbrev pub Found : (ℕ → Bool) → List ℕ → Option ℕ → Type 0
Found test l none = (e : ℕ) → (mem e l && test e) ≡ false
Found test l (some d) = (mem d l ≡ true) × (test d ≡ true)

first_device-Found : (test : ℕ → Bool) (l : List ℕ) → Found test l (first_device test l)
unfolding first_device mem
first_device-Found test [] = λ e. refl
first_device-Found test (d ∷ l) = elim (Bool-cases (test d)) [
  | inl hit ↦ rw hit (ground arith, hit)
  | inr miss ↦ rw miss (later (first_device test l) miss (first_device-Found test l))
]
  where
    later : (r : Option ℕ) → test d ≡ false → Found test l r → Found test (d ∷ l) r
    later none miss h = λ e. ground (arith, miss, h e)
    later (some x) miss h = (ground arith, h.1)

matches_string-has_string :
    (key value : Bytes) (w : World) (d : ℕ)
    → matches_string key value w d ≡ has_string d key value w
unfolding matches_string has_string has_property property_get_type device_get_string
matches_string-has_string key value w d = ground arith

-- The two ways of the search agree with one description.
Found-test :
    (test test' : ℕ → Bool) (l l' : List ℕ) (r : Option ℕ)
    → ((e : ℕ) → (mem e l && test e) ≡ (mem e l' && test' e))
    → Found test l r
    → Found test' l' r
Found-test test test' l l' none same h = λ e. ground (arith, same e, h e)
Found-test test test' l l' (some d) same h = (ground (arith, same d), ground (arith, same d))

first-Found : (l : List ℕ) → Found (λ e. true) l (first l)
unfolding first mem
first-Found [] = λ e. refl
first-Found (d ∷ l) = (ground arith, refl)

-- In a consistent world the search for a string value, by the index or by the scan, returns a
-- device of the store that has the value, and nothing only where no device of the store has it.
pub match_key_value_string-Found :
    (s : StoreId) (key value : Bytes) (w : World)
    → IsConsistent w
    → Found
        (λ e. has_string e key value w)
        (w.stores s).devices
        (match_key_value_string s key value w)
unfolding match_key_value_string
match_key_value_string-Found s key value w h = elim (Option-cases (index_of s key w)) [
  | inl e ↦
      rw (e, match_key_value_string)
        (Found-test (matches_string key value w) (λ e. has_string e key value w)
          (w.stores s).devices (w.stores s).devices _
          (λ e. ground (arith, matches_string-has_string key value w e))
          (first_device-Found (matches_string key value w) (w.stores s).devices))
  | inr (index, e) ↦
      rw (e, match_key_value_string)
        (Found-test (λ e. true) (λ e. has_string e key value w) (bucket value index)
          (w.stores s).devices _
          (λ d. unfold indexed listed in ground (arith, e, h.agrees s key value d, h.members s d))
          (first-Found (bucket value index)))
]

mem-all_devices :
    (test : ℕ → Bool) (e : ℕ) (matches l : List ℕ)
    → mem e (all_devices test matches l) ≡ (mem e matches || mem e l && test e)
unfolding all_devices mem
mem-all_devices test e matches [] = ground arith
mem-all_devices test e matches (d ∷ l) =
    mem-all_devices test e (if test d then d ∷ matches else matches) l ∙ ground arith

-- In a consistent world the search for all devices with a string value returns exactly the
-- store's devices that have it.
pub mem-match_multiple_key_value_string :
    (s : StoreId) (key value : Bytes) (w : World) (d : ℕ)
    → IsConsistent w
    → mem d (match_multiple_key_value_string s key value w)
      ≡ (mem d (w.stores s).devices && has_string d key value w)
unfolding match_multiple_key_value_string
mem-match_multiple_key_value_string s key value w d h = elim (Option-cases (index_of s key w)) [
  | inl e ↦
      rw (e, match_multiple_key_value_string)
        (unfold mem in
          ground (
            arith,
            mem-all_devices (matches_string key value w) d [] (w.stores s).devices,
            matches_string-has_string key value w d,
          ))
  | inr (index, e) ↦
      rw (e, match_multiple_key_value_string)
        (unfold indexed listed in ground (arith, e, h.agrees s key value d, h.members s d))
]

-- The search by UDI returns a device of the store with that UDI, and nothing only where no device
-- of the store has it.
pub store_find-Found :
    (s : StoreId) (udi : Bytes) (w : World)
    → Found (λ e. str_eq (get_udi e w) udi) (w.stores s).devices (store_find s udi w)
unfolding store_find
store_find-Found s udi w = first_device-Found (λ e. str_eq (get_udi e w) udi) (w.stores s).devices
