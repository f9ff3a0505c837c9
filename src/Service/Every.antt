-- ===== src/Service/Every.antt =====
-- hald/hald_dbus.c: what holds of every method, from what holds of the operations that it may call.
use hal.Prelude.{ℕ, Bool, true, false, Option, none, some, List, if◌then◌else◌, Bytes}
use hal.Property.Utf8.{Utf8}
use hal.World.{World, M, property_get_type}
use hal.Device.{has_property}
use hal.Device.Set.{property_remove}
use hal.Device.Strlist.{strlist_append, strlist_prepend, strlist_remove, add_capability}
use hal.Lock.{acquire_lock, release_lock}
use hal.Access.{Site, computer_udi}
use hal.Rules.Path.{find_device}
use hal.Service.{
  Reply, Request, Argument, on_device, with_args, with_sender, if_privileged, is_trusted, or_error,
  no_such_device, permission_denied, returned, returned_type, no_such_property, property_type_error,
  interface_already_locked, interface_not_locked,
}
use hal.Service.Change.{set_argument, set_entries}
use hal.Service.Manager.{
  manager_get_all_devices, manager_get_all_devices_with_properties,
  manager_find_device_string_match, manager_find_device_by_capability, manager_device_exists,
}
use hal.Service.Properties.{
  value_of, device_get_all_properties, device_get_property, device_get_property_type,
  device_property_exists, device_query_capability,
}
use hal.Service.Change.{
  device_set_multiple_properties, device_set_property, device_add_capability,
  device_string_list_append_prepend, device_string_list_remove, device_remove_property,
}
use hal.Service.Interface.{
  may_lock, device_acquire_interface_lock, device_release_interface_lock,
  device_is_caller_locked_out, device_is_caller_privileged, device_is_locked_by_others,
  device_acquire_global_interface_lock, device_release_global_interface_lock,
}
use hal.Service.Owner.{Bus, device_lock, device_unlock}
use hal.Service.Methods.{Method, on_world, handle_method}

-- A relation between the world before a method and what the method gives, which every reply
-- without a change meets, and each of the operations with its reply.
pub record Meets (utf8 : Utf8) (P : World → Reply × World → Type 0) : Type 0 where
  pub same : (reply : Reply) (w : World) → P w (reply, w)
  pub argument :
      (udi key : Bytes) (d : ℕ) (v : Argument) (w : World)
      → P w (or_error (property_type_error udi key) (set_argument utf8 d key v w))
  pub entries :
      (d : ℕ) (l : List (Bytes × Argument)) (w : World) → P w (returned, set_entries utf8 d l w)
  pub capability : (d : ℕ) (c : Bytes) (w : World) → P w (returned, add_capability d c w)
  pub appended :
      (udi key : Bytes) (d : ℕ) (v : Bytes) (w : World)
      → P w (or_error (property_type_error udi key) (strlist_append d key v false w))
  pub prepended :
      (udi key : Bytes) (d : ℕ) (v : Bytes) (w : World)
      → P w (or_error (property_type_error udi key) (strlist_prepend d key v w))
  pub element_removed :
      (udi key : Bytes) (d : ℕ) (v : Bytes) (w : World)
      → P w (or_error (property_type_error udi key) (strlist_remove d key v w))
  pub removed :
      (udi key : Bytes) (d : ℕ) (w : World)
      → P w (or_error (no_such_property udi key) (property_remove d key w))
  pub acquired :
      (d : ℕ) (name lock sender : Bytes) (exclusive : Bool) (w : World)
      → P w (or_error (interface_already_locked name) (acquire_lock d lock exclusive sender w))
  pub released :
      (d : ℕ) (name lock sender : Bytes) (w : World)
      → P w (or_error (interface_not_locked name) (release_lock d lock sender w))

module _ (utf8 : Utf8) (site : Site) (P : World → Reply × World → Type 0)
    (meets : Meets utf8 P) where
  record Each (m : M Reply) : Type 0 where
    holds : (w : World) → P w (m w)

  Each-same : (reply : World → Reply) → Each (λ w. (reply w, w))
  Each-same reply = record { holds = λ w. meets.same (reply w) w }

  Each-on_device : (udi : Bytes) (f : ℕ → M Reply) → ((d : ℕ) → Each (f d)) → Each (on_device udi f)
  unfolding on_device
  Each-on_device udi f each = record {
    holds = λ w.
        elim (find_device udi w)
          as (λ o. P w (elim o [ none ↦ (no_such_device udi, w) | some d ↦ f d w ])) [
            | none ↦ meets.same (no_such_device udi) w
            | some d ↦ (each d).holds w
          ];
  }

  Each-with_args :
      {A : Type 0} (args : Option A) (f : A → M Reply)
      → ((a : A) → Each (f a))
      → Each (with_args args f)
  unfolding with_args
  Each-with_args none f each = record { holds = λ w. meets.same _ w }
  Each-with_args (some a) f each = record { holds = λ w. (each a).holds w }

  Each-with_sender :
      (sender : Option Bytes) (f : Bytes → M Reply)
      → ((s : Bytes) → Each (f s))
      → Each (with_sender sender f)
  unfolding with_sender
  Each-with_sender none f each = record { holds = λ w. meets.same _ w }
  Each-with_sender (some s) f each = record { holds = λ w. (each s).holds w }

  if-all : (b : Bool) (x y : Reply × World) (w : World) → P w x → P w y → P w (if b then x else y)
  if-all true x y w p q = p
  if-all false x y w p q = q

  Each-if :
      (b : World → Bool) (f g : M Reply) → Each f → Each g → Each (λ w. if b w then f w else g w)
  Each-if b f g p q = record { holds = λ w. if-all (b w) (f w) (g w) w (p.holds w) (q.holds w) }

  Each-if_privileged : (r : Request) (f : M Reply) → Each f → Each (if_privileged site r f)
  unfolding if_privileged
  Each-if_privileged r f p = Each-if (λ w. is_trusted site r) f _ p (Each-same _)

  -- The shape of most handlers: the device, then the arguments.
  Each-on_args :
      {A : Type 0} (udi : Bytes) (args : Option A) (f : ℕ → A → M Reply)
      → ((d : ℕ) (a : A) → Each (f d a))
      → Each (on_device udi (λ d. with_args args (f d)))
  Each-on_args udi args f each =
      Each-on_device udi (λ d. with_args args (f d)) (λ d. Each-with_args args (f d) (each d))

  module _ (Q : Bus → Reply × Bus → Type 0)
      (lift : (b : Bus) (x : Reply × World) → P b.world x → Q b (x.0, record b { world = x.1 }))
      (locks : (r : Request) (args : Option Bytes) (b : Bus) → Q b (device_lock utf8 r args b))
      (unlocks : (r : Request) (args : Bool) (b : Bus) → Q b (device_unlock r args b)) where
    lifted : (m : M Reply) → Each m → (b : Bus) → Q b (on_world m b)
    lifted m each b = lift b (m b.world) (each.holds b.world)

    pub handle_method-all :
        (m : Method) (r : Request) (b : Bus) → Q b (handle_method utf8 site m r b)
    unfolding handle_method manager_get_all_devices manager_get_all_devices_with_properties
        manager_find_device_string_match manager_find_device_by_capability manager_device_exists
        device_get_all_properties device_get_property device_get_property_type
        device_property_exists device_query_capability device_set_multiple_properties
        device_set_property device_add_capability device_string_list_append_prepend
        device_string_list_remove device_remove_property device_acquire_interface_lock
        device_release_interface_lock device_is_caller_locked_out device_is_caller_privileged
        device_is_locked_by_others device_acquire_global_interface_lock
        device_release_global_interface_lock
    handle_method-all Method.get_all_devices r b = lifted manager_get_all_devices (Each-same _) b
    handle_method-all Method.get_all_devices_with_properties r b =
        lifted manager_get_all_devices_with_properties (Each-same _) b
    handle_method-all Method.is_caller_privileged r b =
        lifted device_is_caller_privileged (Each-same _) b
    handle_method-all (Method.device_exists args) r b =
        lifted (manager_device_exists args) (Each-with_args args _ (λ a. Each-same _)) b
    handle_method-all (Method.find_device_string_match args) r b =
        lifted (manager_find_device_string_match args) (Each-with_args args _ (λ a. Each-same _)) b
    handle_method-all (Method.find_device_by_capability args) r b =
        lifted (manager_find_device_by_capability args) (Each-with_args args _ (λ a. Each-same _)) b
    handle_method-all Method.get_all_properties r b =
        lifted (device_get_all_properties r) (Each-on_device r.path _ (λ d. Each-same _)) b
    handle_method-all (Method.get_property args) r b =
        lifted (device_get_property r args)
          (Each-on_args r.path args _ (λ d a.
            Each-if (has_property d a) (λ w. (value_of (property_get_type d a w) d a w, w))
              (λ w. (no_such_property r.path a, w)) (Each-same _) (Each-same _)))
          b
    handle_method-all (Method.get_property_type args) r b =
        lifted (device_get_property_type r args)
          (Each-on_args r.path args _ (λ d a.
            Each-if (has_property d a) (λ w. (returned_type (property_get_type d a w), w))
              (λ w. (no_such_property r.path a, w)) (Each-same _) (Each-same _)))
          b
    handle_method-all (Method.property_exists args) r b =
        lifted (device_property_exists r args) (Each-on_args r.path args _ (λ d a. Each-same _)) b
    handle_method-all (Method.query_capability args) r b =
        lifted (device_query_capability r args) (Each-on_args r.path args _ (λ d a. Each-same _)) b
    handle_method-all (Method.is_locked_by_others args) r b =
        lifted (device_is_locked_by_others site r args)
          (Each-on_args r.path args _ (λ d a. Each-same _)) b
    handle_method-all (Method.acquire_global_interface_lock args) r b =
        lifted (device_acquire_global_interface_lock r args)
          (Each-on_args computer_udi args _ (λ d a.
            Each-with_sender r.sender _
              (λ sender. record { holds = meets.acquired d a.0 _ sender a.1 })))
          b
    handle_method-all (Method.release_global_interface_lock args) r b =
        lifted (device_release_global_interface_lock r args)
          (Each-on_args computer_udi args _ (λ d a.
            Each-with_sender r.sender _ (λ sender. record { holds = meets.released d a _ sender })))
          b
    handle_method-all (Method.acquire_interface_lock args) r b =
        lifted (device_acquire_interface_lock site r args)
          (Each-on_args r.path args _ (λ d a. Each-with_sender r.sender _ (λ sender.
            Each-if (may_lock site r d sender)
              (λ w. or_error (interface_already_locked a.0) (acquire_lock d a.0 a.1 sender w))
              (λ w. (permission_denied, w)) (record { holds = meets.acquired d a.0 _ sender a.1 })
              (Each-same _))))
          b
    handle_method-all (Method.release_interface_lock args) r b =
        lifted (device_release_interface_lock r args)
          (Each-on_args r.path args _ (λ d a.
            Each-with_sender r.sender _ (λ sender. record { holds = meets.released d a _ sender })))
          b
    handle_method-all (Method.is_caller_locked_out args) r b =
        lifted (device_is_caller_locked_out site r args)
          (Each-on_device r.path _
            (λ d. Each-if_privileged r _ (Each-with_args args _ (λ a. Each-same _))))
          b
    handle_method-all (Method.set_multiple_properties args) r b =
        lifted (device_set_multiple_properties utf8 site r args)
          (Each-on_device r.path _ (λ d.
            Each-if_privileged r _
              (Each-with_args args _ (λ entries. record { holds = meets.entries d entries }))))
          b
    handle_method-all (Method.set_property args) r b =
        lifted (device_set_property utf8 site r args)
          (Each-with_args args _ (λ a.
            Each-if_privileged r _
              (Each-on_device r.path _ (λ d. record { holds = meets.argument r.path a.0 d a.1 }))))
          b
    handle_method-all (Method.add_capability args) r b =
        lifted (device_add_capability site r args)
          (Each-if_privileged r _
            (Each-on_args r.path args _ (λ d a. record { holds = meets.capability d a })))
          b
    handle_method-all (Method.remove_property args) r b =
        lifted (device_remove_property site r args)
          (Each-if_privileged r _
            (Each-on_args r.path args _ (λ d a. record { holds = meets.removed r.path a d })))
          b
    handle_method-all (Method.string_list_append args) r b =
        lifted (device_string_list_append_prepend false r args)
          (Each-on_args r.path args _ (λ d a. record { holds = meets.appended r.path a.0 d a.1 })) b
    handle_method-all (Method.string_list_prepend args) r b =
        lifted (device_string_list_append_prepend true r args)
          (Each-on_args r.path args _ (λ d a. record { holds = meets.prepended r.path a.0 d a.1 }))
          b
    handle_method-all (Method.string_list_remove args) r b =
        lifted (device_string_list_remove r args)
          (Each-on_args r.path args _
            (λ d a. record { holds = meets.element_removed r.path a.0 d a.1 }))
          b
    handle_method-all (Method.lock args) r b = locks r args b
    handle_method-all (Method.unlock args) r b = unlocks r args b
