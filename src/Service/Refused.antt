-- ===== src/Service/Refused.antt =====
-- hald/hald_dbus.c: what an error reply says of the daemon's state, and what callers without
-- privileges get.
use hal.Prelude.{ap, ℕ, ◌≡◌, refl, Bool, true, false, some, Bytes, inl, inr, arith}
use hal.Property.{int32, uint64, double, boolean, string}
use hal.Property.Utf8.{Utf8, stored_string}
use hal.World.{World}
use hal.Device.Set.{set_string, set_int, set_uint64, set_double, set_bool}
use hal.Device.Failing.{
  FailsQuietly, FailsQuietly-refused, fail_rules, store_value-FailsQuietly,
  property_remove-FailsQuietly, strlist_append-FailsQuietly, strlist_prepend-FailsQuietly,
  strlist_remove-FailsQuietly,
}
use hal.Lock.{release_lock}
use hal.Access.{Site}
use hal.Service.{
  Reply, Request, Argument, arg_string, arg_int32, arg_uint64, arg_double, arg_boolean, arg_strings,
  arg_other, or_error, no_such_device, no_such_property, property_type_error, syntax_error,
  permission_denied, device_not_locked, device_already_locked, interface_already_locked,
  interface_not_locked, no_policykit, returned,
}
use hal.Service.Change.{set_argument}
use hal.Service.Owner.{Bus}
use hal.Service.Methods.{Method, handle_method}
use hal.Service.Cases.{device_lock-cases, device_unlock-cases}
use hal.Service.Every.{Meets, handle_method-all}

-- The errors, all but that of an interface that is locked already.
abbrev pub is_refusal : Reply → Bool
is_refusal (no_such_device udi) = true
is_refusal (no_such_property udi key) = true
is_refusal (property_type_error udi key) = true
is_refusal syntax_error = true
is_refusal permission_denied = true
is_refusal device_not_locked = true
is_refusal (device_already_locked reason) = true
is_refusal (interface_not_locked name) = true
is_refusal no_policykit = true
is_refusal _ = false

refused-unchanged :
    (e : Reply) (w : World) (x : Bool × World)
    → FailsQuietly w x
    → is_refusal (or_error e x).0 ≡ true
    → (or_error e x).1 ≡ w
refused-unchanged e w (true, v) q r = absurd (ground arith)
refused-unchanged e w (false, v) q r = q.unchanged refl

release_lock-FailsQuietly :
    (d : ℕ) (name sender : Bytes) (w : World) → FailsQuietly w (release_lock d name sender w)
unfolding release_lock
release_lock-FailsQuietly d name sender w = search fail_rules

never_refused :
    (name : Bytes) (w : World) (x : Bool × World)
    → is_refusal (or_error (interface_already_locked name) x).0 ≡ true
    → (or_error (interface_already_locked name) x).1 ≡ w
never_refused name w (true, v) r = absurd (ground arith)
never_refused name w (false, v) r = absurd (ground arith)

-- A reply that is the empty return is no refusal.
not_refused : (b c : Bus) (x : Reply × Bus) → x ≡ (returned, c) → is_refusal x.0 ≡ true → x.1 ≡ b
not_refused b c x done r =
    let no : is_refusal x.0 ≡ false = ap (λ y. is_refusal y.0) done in
    absurd (ground (arith, no, r))

module _ (utf8 : Utf8) where
  set_argument-FailsQuietly :
      (d : ℕ) (key : Bytes) (v : Argument) (w : World)
      → FailsQuietly w (set_argument utf8 d key v w)
  unfolding set_argument set_string set_int set_uint64 set_double set_bool
  set_argument-FailsQuietly d key (arg_string v) w =
      store_value-FailsQuietly d key w (string v) (string (stored_string utf8 (some v)))
  set_argument-FailsQuietly d key (arg_int32 v) w =
      store_value-FailsQuietly d key w (int32 v) (int32 v)
  set_argument-FailsQuietly d key (arg_uint64 v) w =
      store_value-FailsQuietly d key w (uint64 v) (uint64 v)
  set_argument-FailsQuietly d key (arg_double v) w =
      store_value-FailsQuietly d key w (double v) (double v)
  set_argument-FailsQuietly d key (arg_boolean v) w =
      store_value-FailsQuietly d key w (boolean v) (boolean v)
  set_argument-FailsQuietly d key (arg_strings l) w = FailsQuietly-refused w
  set_argument-FailsQuietly d key arg_other w = FailsQuietly-refused w

  abbrev Quiet : World → Reply × World → Type 0
  Quiet w x = is_refusal x.0 ≡ true → x.1 ≡ w

  meets-Quiet : Meets utf8 Quiet
  meets-Quiet = record {
    same = λ reply w r. refl;
    argument = λ udi key d v w. refused-unchanged _ w _ (set_argument-FailsQuietly d key v w);
    entries = λ d l w r. absurd (ground arith);
    capability = λ d c w r. absurd (ground arith);
    appended =
        λ udi key d v w. refused-unchanged _ w _ (strlist_append-FailsQuietly d key w v false);
    prepended = λ udi key d v w. refused-unchanged _ w _ (strlist_prepend-FailsQuietly d key w v);
    element_removed =
        λ udi key d v w. refused-unchanged _ w _ (strlist_remove-FailsQuietly d key w v);
    removed = λ udi key d w. refused-unchanged _ w _ (property_remove-FailsQuietly d key w);
    acquired = λ d name lock sender exclusive w. never_refused name w _;
    released =
        λ d name lock sender w. refused-unchanged _ w _ (release_lock-FailsQuietly d lock sender w);
  }

  -- An error reply of a method of `Method`, other than that an interface is locked already, leaves
  -- the daemon's devices, stores and locks as they were, and the table of the services with locks.
  pub handle_method-is_refusal :
      (site : Site) (m : Method) (r : Request) (b : Bus)
      → is_refusal (handle_method utf8 site m r b).0 ≡ true
      → (handle_method utf8 site m r b).1 ≡ b
  handle_method-is_refusal site m r b =
      handle_method-all utf8 site Quiet meets-Quiet (λ b x. is_refusal x.0 ≡ true → x.1 ≡ b)
        (λ b x p refused. ap (λ w. record b { world = w }) (p refused))
        (λ r args b. elim (device_lock-cases utf8 r args b) [
          | inl (refused, same) ↦ (λ r. same)
          | inr (d, reason, sender, e, free, s, done) ↦ not_refused b _ _ done
        ])
        (λ r args b. elim (device_unlock-cases r args b) [
          | inl (refused, same) ↦ (λ r. same)
          | inr (d, sender, owner, e, held, s, o, eq, done) ↦ not_refused b _ _ done
        ])
        m r b
