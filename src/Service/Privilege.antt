-- ===== src/Service/Privilege.antt =====
-- hald/hald_dbus.c: what callers without privileges get.
use hal.Prelude.{ℕ, ◌≡◌, refl, Bool, true, false, Option, none, some, Bytes, arith}
use hal.Property.Utf8.{Utf8}
use hal.World.{World, M}
use hal.Access.{Site}
use hal.Rules.Path.{find_device}
use hal.Service.{Reply, Request, no_such_device, on_device, with_args, if_privileged, is_trusted}
use hal.Service.Change.{
  device_set_multiple_properties, device_set_property, device_add_capability,
  device_remove_property,
}
use hal.Service.Interface.{device_is_caller_locked_out}
use hal.Service.Owner.{Bus}
use hal.Service.Methods.{
  Method, set_property, set_multiple_properties, add_capability, remove_property,
  is_caller_locked_out, handle_method,
}
use hal.Service.Refused.{is_refusal, handle_method-is_refusal}

-- The methods for helpers of the daemon and privileged callers.
abbrev pub needs_privilege : Method → Bool
needs_privilege (set_property args) = true
needs_privilege (set_multiple_properties args) = true
needs_privilege (add_capability args) = true
needs_privilege (remove_property args) = true
needs_privilege (is_caller_locked_out args) = true
needs_privilege _ = false

-- A handler that refuses in every world.
record Refuses (f : M Reply) : Type 0 where
  refused : (w : World) → is_refusal (f w).0 ≡ true

Refuses-on_device :
    (udi : Bytes) (f : ℕ → M Reply) → ((d : ℕ) → Refuses (f d)) → Refuses (on_device udi f)
unfolding on_device
Refuses-on_device udi f each = record {
  refused = λ w.
      elim (find_device udi w)
        as (λ o.
          is_refusal
            (elim o as (λ x. Reply × World) [ none ↦ (no_such_device udi, w) | some d ↦ f d w ]).0
          ≡ true) [ none ↦ refl | some d ↦ (each d).refused w ];
}

Refuses-with_args :
    {A : Type 0} (args : Option A) (f : A → M Reply)
    → ((a : A) → Refuses (f a))
    → Refuses (with_args args f)
unfolding with_args
Refuses-with_args none f each = record { refused = λ w. refl }
Refuses-with_args (some a) f each = record { refused = λ w. (each a).refused w }

Refuses-if_privileged :
    (site : Site) (r : Request) (f : M Reply)
    → is_trusted site r ≡ false
    → Refuses (if_privileged site r f)
unfolding if_privileged
Refuses-if_privileged site r f untrusted = record { refused = λ w. rw untrusted refl }

module _ (utf8 : Utf8) (site : Site) where
  untrusted-is_refusal :
      (m : Method) (r : Request) (b : Bus)
      → needs_privilege m ≡ true
      → is_trusted site r ≡ false
      → is_refusal (handle_method utf8 site m r b).0 ≡ true
  unfolding handle_method device_set_multiple_properties device_set_property device_add_capability
      device_remove_property device_is_caller_locked_out
  untrusted-is_refusal (set_property args) r b need other =
      (Refuses-with_args args _ (λ a. Refuses-if_privileged site r _ other)).refused b.world
  untrusted-is_refusal (set_multiple_properties args) r b need other =
      (Refuses-on_device r.path _ (λ d. Refuses-if_privileged site r _ other)).refused b.world
  untrusted-is_refusal (add_capability args) r b need other =
      (Refuses-if_privileged site r _ other).refused b.world
  untrusted-is_refusal (remove_property args) r b need other =
      (Refuses-if_privileged site r _ other).refused b.world
  untrusted-is_refusal (is_caller_locked_out args) r b need other =
      (Refuses-on_device r.path _ (λ d. Refuses-if_privileged site r _ other)).refused b.world
  untrusted-is_refusal m r b need other = absurd (ground arith)

  -- A caller over the system bus that is neither root nor the daemon's own user gets an error for
  -- SetProperty, SetMultipleProperties, AddCapability, RemoveProperty and IsCallerLockedOut, and
  -- changes nothing by them.
  pub handle_method-untrusted :
      (m : Method) (r : Request) (b : Bus)
      → needs_privilege m ≡ true
      → is_trusted site r ≡ false
      → (is_refusal (handle_method utf8 site m r b).0 ≡ true)
        × ((handle_method utf8 site m r b).1 ≡ b)
  handle_method-untrusted m r b need other =
      let refused = untrusted-is_refusal m r b need other in
      (refused, handle_method-is_refusal utf8 site m r b refused)
