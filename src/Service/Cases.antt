-- ===== src/Service/Cases.antt =====
-- hald/hald_dbus.c: how a request to lock a device, or to unlock it, can end.
use hal.Prelude.{
  ◌||◌, ◌⊎◌, ℕ, ◌≡◌, refl, Bool, true, false, Option, some, Bytes, str_eq, Bool-cases, Option-cases,
  inl, inr,
}
use hal.Property.Utf8.{Utf8}
use hal.World.Index.{device_get_string}
use hal.Device.{get_bool}
use hal.Rules.Path.{find_device}
use hal.Service.{Reply, Request, returned}
use hal.Service.Owner.{
  Bus, info_locked, locked_dbus_name, remove_lock_properties, set_lock_properties, device_lock,
  device_unlock, services_with_locks_add_lock, has_node, forget_lock,
}

abbrev pub is_returned : Reply → Bool
is_returned returned = true
is_returned _ = false

-- Nothing is changed, and the reply is not the empty return.
abbrev pub Refused : Bus → Reply × Bus → Type 0
Refused b x = (is_returned x.0 ≡ false) × (x.1 ≡ b)

pub device_unlock-cases :
    (r : Request) (args : Bool) (b : Bus)
    → Refused b (device_unlock r args b)
      ⊎ ((d : ℕ) × (sender : Bytes) × (owner : Bytes) × (find_device r.path b.world ≡ some d)
          × (get_bool d info_locked b.world ≡ true)
          × (r.sender ≡ some sender)
          × (device_get_string d locked_dbus_name b.world ≡ some owner)
          × (str_eq sender owner ≡ true)
          × (device_unlock r args b ≡ (
            returned,
            record {
              world = remove_lock_properties d b.world;
              services_with_locks = forget_lock sender d b.services_with_locks;
              is_corrupt = b.is_corrupt || has_node sender b.services_with_locks;
            },
          )))
unfolding device_unlock
device_unlock-cases r args b = elim (Option-cases (find_device r.path b.world)) [
  | inl e ↦ inl (rw (e, device_unlock) (refl, refl))
  | inr (d, e) ↦ elim (Bool-cases args) [
    | inr wrong ↦ inl (rw (e, wrong, device_unlock) (refl, refl))
    | inl right ↦ elim (Bool-cases (get_bool d info_locked b.world)) [
      | inr free ↦ inl (rw (e, right, free, device_unlock) (refl, refl))
      | inl held ↦ elim (Option-cases (r.sender)) [
        | inl nobody ↦ inl (rw (e, right, held, nobody, device_unlock) (refl, refl))
        | inr (sender, s) ↦ elim (Option-cases (device_get_string d locked_dbus_name b.world)) [
          | inl no_owner ↦ inl (rw (e, right, held, s, no_owner, device_unlock) (refl, refl))
          | inr (owner, o) ↦ elim (Bool-cases (str_eq sender owner)) [
            | inr other ↦ inl (rw (e, right, held, s, o, other, device_unlock) (refl, refl))
            | inl same ↦ inr (
              d,
              sender,
              owner,
              e,
              held,
              s,
              o,
              same,
              rw (e, right, held, s, o, same, device_unlock) refl,
            )
          ]
        ]
      ]
    ]
  ]
]

pub device_lock-cases :
    (utf8 : Utf8) (r : Request) (args : Option Bytes) (b : Bus)
    → Refused b (device_lock utf8 r args b)
      ⊎ ((d : ℕ) × (reason : Bytes) × (sender : Bytes) × (find_device r.path b.world ≡ some d)
          × (get_bool d info_locked b.world ≡ false)
          × (r.sender ≡ some sender)
          × (device_lock utf8 r args b ≡ (
            returned,
            record {
              world = set_lock_properties utf8 d reason sender b.world;
              services_with_locks = services_with_locks_add_lock sender d b.services_with_locks;
              is_corrupt = b.is_corrupt || has_node sender b.services_with_locks;
            },
          )))
unfolding device_lock
device_lock-cases utf8 r args b = elim (Option-cases (find_device r.path b.world)) [
  | inl e ↦ inl (rw (e, device_lock) (refl, refl))
  | inr (d, e) ↦ elim (Bool-cases (get_bool d info_locked b.world)) [
    | inl held ↦ inl (rw (e, held, device_lock) (refl, refl))
    | inr free ↦ elim (Option-cases args) [
      | inl wrong ↦ inl (rw (e, free, wrong, device_lock) (refl, refl))
      | inr (reason, right) ↦ elim (Option-cases (r.sender)) [
        | inl nobody ↦ inl (rw (e, free, right, nobody, device_lock) (refl, refl))
        | inr (sender, s) ↦
            inr (d, reason, sender, e, free, s, rw (e, free, right, s, device_lock) refl)
      ]
    ]
  ]
]
