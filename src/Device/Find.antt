-- ===== src/Device/Find.antt =====
-- hald/device.c: what is under each key after a change.
use hal.Prelude.{
  ℕ, ◌≡◌, refl, or_else, ap, ◌⊎◌, Bool, true, false, ◌&&◌, Option, none, some, List, [], ◌∷◌, ◌++◌,
  ◌==◌, if◌then◌else◌, arith, Bytes, str_eq, eq_iff, ◌∙◌, Option-cases, Bool-cases, inl, inr,
  remove_first, contains,
}
use hal.Property
use hal.Property.Utf8.{Utf8, stored_string}
use hal.World.Index.{has_string, device_get_string}
use hal.Property.{
  Property, string, boolean, strlist, type_strlist, same_type, property_type, same_value,
}
use hal.Property.Strlists.{strlist_remove_lem, remove_first_absent}
use hal.World.{
  World, Signal, property_changed, property_find, table_insert, property_find-table_insert,
  property_find-table_remove,
}
use hal.World.Emit.{emit}
use hal.World.Kept.{emit-OnlyIndex}
use hal.Device.Set.{set_string, store_value, set_bool, property_remove}
use hal.Device.Strlist.{strlist_append, strlist_add, strlist_remove}

-- The signals change no property.
pub property_find-emit :
    (d e : ℕ) (sig : Signal) (k : Bytes) (w : World)
    → property_find e k (emit d sig w) ≡ property_find e k w
unfolding property_find
property_find-emit d e sig k w = rw ((emit-OnlyIndex d sig w).heap)

-- The entry of one key of one device is new, all others are as before.
abbrev pub entry : ℕ → Bytes → Option Property → ℕ → Bytes → World → Option Property
entry d key p e k w = if e == d && str_eq key k then p else property_find e k w

module _ (d : ℕ) (key : Bytes) (e : ℕ) (k : Bytes) where
  pub find-changed :
      (p : Property) (sig : Signal) (w : World)
      → property_find e k (emit d sig (table_insert d key p w)) ≡ entry d key (some p) e k w
  find-changed p sig w =
      property_find-emit d e sig k (table_insert d key p w)
      ∙ property_find-table_insert d e key k p w

  pub find-replaced :
      (p : Property) (sig sig' : Signal) (w : World)
      → property_find e k (emit d sig (table_insert d key p (emit d sig' w)))
        ≡ entry d key (some p) e k w
  find-replaced p sig sig' w =
      find-changed p sig (emit d sig' w)
      ∙ ap (λ x. if e == d && str_eq key k then some p else x) (property_find-emit d e sig' k w)

  -- Nothing is written where the same value stands.
  find-same :
      (p : Property) (w : World)
      → property_find d key w ≡ some p
      → property_find e k w ≡ entry d key (some p) e k w
  find-same p w h = ground (arith, eq_iff key k)

  -- A flag that was missing or a boolean has the new value afterwards.
  pub find-set_bool :
      (value : Bool) (w : World)
      → (property_find d key w ≡ none) ⊎ ((b : Bool) × (property_find d key w ≡ some (boolean b)))
      → property_find e k (set_bool d key value w).1 ≡ entry d key (some (boolean value)) e k w
  unfolding set_bool
  find-set_bool value w (inl h) =
      rw (h, store_value) (find-changed (boolean value) (property_changed key false true) w)
  find-set_bool true w (inr (true, h)) = rw (h, store_value) (find-same (boolean true) w h)
  find-set_bool false w (inr (true, h)) = rw (h, store_value) (find-replaced (boolean false) _ _ w)
  find-set_bool true w (inr (false, h)) = rw (h, store_value) (find-replaced (boolean true) _ _ w)
  find-set_bool false w (inr (false, h)) = rw (h, store_value) (find-same (boolean false) w h)

  pub find-property_remove :
      (w : World) → property_find e k (property_remove d key w).1 ≡ entry d key none e k w
  unfolding property_remove
  find-property_remove w = elim (Option-cases (property_find d key w)) [
    | inl h ↦ rw (h, property_remove) (ground (arith, eq_iff key k))
    | inr (old, h) ↦
        rw (h, property_remove)
          (property_find-emit d e _ k _
            ∙ property_find-table_remove d e key k _
            ∙ ap (λ x. if e == d && str_eq key k then none else x) (property_find-emit d e _ k w))
  ]

  pub find-strlist_append_new :
      (value : Bytes) (w : World)
      → property_find d key w ≡ none
      → property_find e k (strlist_append d key value false w).1
        ≡ entry d key (some (strlist (value ∷ []))) e k w
  unfolding strlist_append
  find-strlist_append_new value w h =
      rw (h, strlist_append) (find-changed (strlist (value ∷ [])) _ w)

  pub find-strlist_append :
      (value : Bytes) (l : List Bytes) (w : World)
      → property_find d key w ≡ some (strlist l)
      → property_find e k (strlist_append d key value false w).1
        ≡ entry d key (some (strlist (l ++ (value ∷ [])))) e k w
  unfolding strlist_append
  find-strlist_append value l w h =
      rw (h, strlist_append) (find-changed (strlist (l ++ (value ∷ []))) _ w)

  pub find-strlist_add_new :
      (value : Bytes) (w : World)
      → property_find d key w ≡ none
      → property_find e k (strlist_add d key value w).1
        ≡ entry d key (some (strlist (value ∷ []))) e k w
  unfolding strlist_add
  find-strlist_add_new value w h = rw (h, strlist_add) (find-changed (strlist (value ∷ [])) _ w)

  pub find-strlist_add :
      (value : Bytes) (l : List Bytes) (w : World)
      → property_find d key w ≡ some (strlist l)
      → property_find e k (strlist_add d key value w).1
        ≡ entry d key (some (strlist (if contains value l then l else l ++ (value ∷ [])))) e k w
  unfolding strlist_add Property.strlist_append
  find-strlist_add value l w h = elim (Bool-cases (contains value l)) [
    | inl old ↦ rw (h, strlist_add) (rw old (find-same (strlist l) w h))
    | inr new ↦ rw (h, strlist_add) (rw new (find-changed (strlist (l ++ (value ∷ []))) _ w))
  ]

  pub find-strlist_remove :
      (value : Bytes) (l : List Bytes) (w : World)
      → property_find d key w ≡ some (strlist l)
      → property_find e k (strlist_remove d key value w).1
        ≡ entry d key (some (strlist (remove_first value l))) e k w
  unfolding strlist_remove
  find-strlist_remove value l w h = elim (Bool-cases (contains value l)) [
    | inl here ↦
        rw (h, strlist_remove)
          (rw strlist_remove_lem (rw here (find-changed (strlist (remove_first value l)) _ w)))
    | inr absent ↦
        rw (h, strlist_remove)
          (rw strlist_remove_lem
            (rw (absent, remove_first_absent value l absent) (find-same (strlist l) w h)))
  ]

-- What a text setter leaves: the text that is there, if it is the one offered, or the one offered
-- with its invalid bytes replaced.
abbrev pub text_after : Utf8 → ℕ → Bytes → Option Bytes → World → Bytes
text_after utf8 d key value w =
    if has_string d key (or_else [] value) w then or_else [] value else stored_string utf8 value

pub has_string-missing :
    (d : ℕ) (key value : Bytes) (w : World)
    → property_find d key w ≡ none
    → has_string d key value w ≡ false
unfolding has_string device_get_string
has_string-missing d key value w h = ground arith

has_string-text :
    (d : ℕ) (key value old : Bytes) (w : World)
    → property_find d key w ≡ some (string old)
    → has_string d key value w ≡ str_eq old value
unfolding has_string device_get_string
has_string-text d key value old w h = ground arith

by_text :
    (utf8 : Utf8) (d : ℕ) (key : Bytes) (value : Option Bytes) (e : ℕ) (k : Bytes) (w : World)
    (b : Bool)
    → has_string d key (or_else [] value) w ≡ b
    → entry d key (some (string (if b then or_else [] value else stored_string utf8 value))) e k w
      ≡ entry d key (some (string (text_after utf8 d key value w))) e k w
by_text utf8 d key value e k w b h = rw h refl

-- For a key that is missing or has a text: `hal_device_property_set_string` succeeds, afterwards
-- the key has the text offered with its invalid bytes replaced, or as it is where it was there
-- before, and every other key of every device has what it had.
pub find-set_string :
    (utf8 : Utf8) (d : ℕ) (key : Bytes) (value : Option Bytes) (e : ℕ) (k : Bytes) (w : World)
    → (property_find d key w ≡ none) ⊎ ((old : Bytes) × (property_find d key w ≡ some (string old)))
    → ((set_string utf8 d key value w).0 ≡ true)
      × (property_find e k (set_string utf8 d key value w).1
          ≡ entry d key (some (string (text_after utf8 d key value w))) e k w)
unfolding set_string
find-set_string utf8 d key value e k w (inl h) =
    let stored = string (stored_string utf8 value) in
    rw (h, store_value)
      (
        refl,
        find-changed d key e k stored (property_changed key false true) w
            ∙ by_text utf8 d key value e k w false
                (has_string-missing d key (or_else [] value) w h),
      )
find-set_string utf8 d key value e k w (inr (old, h)) =
    let there = has_string-text d key (or_else [] value) old w h in
    let stored = string (stored_string utf8 value) in
    elim (Bool-cases (str_eq old (or_else [] value))) [
      | inl same ↦
          rw (h, same, store_value)
            (
              refl,
              find-same d key e k (string (or_else [] value)) w
                    (h ∙ ap (λ t. some (string t)) ((eq_iff old (or_else [] value)).0 same))
                  ∙ by_text utf8 d key value e k w true (there ∙ same),
            )
      | inr other ↦
          rw (h, other, store_value)
            (
              refl,
              find-replaced d key e k stored _ _ w
                  ∙ by_text utf8 d key value e k w false (there ∙ other),
            )
    ]
