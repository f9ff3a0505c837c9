-- ===== src/Service/Held.antt =====
-- hald/hald_dbus.c: the lock on a whole device, from the request that takes it to the one that gives
-- it back.
use hal.Prelude.{
  ◌∙◌, ap, ℕ, ◌≡◌, ◌==◌, ◌&&◌, refl, true, false, Option, none, some, if◌then◌else◌, Bytes, arith,
  inl, str_eq,
}
use hal.Property.{Property, string, boolean}
use hal.Property.Utf8.{Utf8, stored_string}
use hal.World.{World, property_find}
use hal.Device.Set.{set_bool, set_string}
use hal.Device.Find.{entry, text_after, has_string-missing, find-set_bool, find-set_string}
use hal.Service.Owner.{info_locked, locked_reason, locked_dbus_name, set_lock_properties}

-- The three properties of the lock are missing.
pub record IsUnlocked (d : ℕ) (w : World) : Type 0 where
  pub flag : property_find d info_locked w ≡ none
  pub reason : property_find d locked_reason w ≡ none
  pub owner : property_find d locked_dbus_name w ≡ none

flag_is_not_reason : str_eq info_locked locked_reason ≡ false
unfolding str_eq
flag_is_not_reason = refl

flag_is_not_owner : str_eq info_locked locked_dbus_name ≡ false
unfolding str_eq
flag_is_not_owner = refl

reason_is_not_owner : str_eq locked_reason locked_dbus_name ≡ false
unfolding str_eq
reason_is_not_owner = refl

module _ (utf8 : Utf8) where
  -- A text under a key that was missing.
  find-set_text :
      (d : ℕ) (key value : Bytes) (e : ℕ) (k : Bytes) (w : World)
      → property_find d key w ≡ none
      → property_find e k (set_string utf8 d key (some value) w).1
        ≡ entry d key (some (string (stored_string utf8 (some value)))) e k w
  find-set_text d key value e k w missing =
      let plain : text_after utf8 d key (some value) w ≡ stored_string utf8 (some value) =
        rw (has_string-missing d key value w missing) refl in
      (find-set_string utf8 d key (some value) e k w (inl missing)).1
      ∙ ap (λ t. entry d key (some (string t)) e k w) plain

  -- What the device has under each key after the lock was taken.
  abbrev after_lock : ℕ → Bytes → Bytes → ℕ → Bytes → World → Option Property
  after_lock d reason sender e k w =
      if e == d && str_eq locked_dbus_name k
      then some (string (stored_string utf8 (some sender)))
      else if e == d && str_eq locked_reason k
      then some (string (stored_string utf8 (some reason)))
      else if e == d && str_eq info_locked k
      then some (boolean true)
      else property_find e k w

  pub find-set_lock_properties :
      (d : ℕ) (reason sender : Bytes) (e : ℕ) (k : Bytes) (w : World)
      → IsUnlocked d w
      → property_find e k (set_lock_properties utf8 d reason sender w)
        ≡ after_lock d reason sender e k w
  unfolding set_lock_properties
  find-set_lock_properties d reason sender e k w h =
      let w1 = (set_bool d info_locked true w).1 in
      let w2 = (set_string utf8 d locked_reason (some reason) w1).1 in
      let at1 : (f : ℕ) (j : Bytes)
          → property_find f j w1 ≡ entry d info_locked (some (boolean true)) f j w =
        λ f j. find-set_bool d info_locked f j true w (inl h.flag) in
      let reason1 : property_find d locked_reason w1 ≡ none =
        at1 d locked_reason ∙ rw flag_is_not_reason (ground (arith, h.reason)) in
      let at2 : (f : ℕ) (j : Bytes)
          → property_find f j w2
            ≡ entry d locked_reason (some (string (stored_string utf8 (some reason)))) f j w1 =
        λ f j. find-set_text d locked_reason reason f j w1 reason1 in
      let owner2 : property_find d locked_dbus_name w2 ≡ none =
        at2 d locked_dbus_name
        ∙ rw reason_is_not_owner
            (ground (arith, at1 d locked_dbus_name, flag_is_not_owner, h.owner)) in
      find-set_text d locked_dbus_name sender e k w2 owner2 ∙ ground (arith, at2 e k, at1 e k)
