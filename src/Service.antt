-- ===== src/Service.antt =====
-- hald/hald_dbus.c: the requests that the daemon gets over D-Bus and its replies, and the shape that
-- its handlers share.
pub mod Manager
pub mod Properties
pub mod Change
pub mod Interface
pub mod Owner
pub mod Methods
pub mod Every
pub mod Cases
pub mod Keep
pub mod Refused
pub mod Place
pub mod Privilege
pub mod Sequence
pub mod Held
pub mod Release
pub mod Removal
pub mod Matches
pub mod Helper
pub mod Programs
pub mod Claims
pub mod Roundtrip
use hal.Prelude.{
  ℕ, ◌≡◌, refl, Bool, true, false, not, ◌&&◌, Option, none, some, List, [], ◌∷◌, if◌then◌else◌,
  Bytes, Assoc,
}
use hal.Property.{ℤ, Property, PropertyType}
use hal.World.{World, M}
use hal.Access.{Site, message_caller_is_root_or_hal}
use hal.Rules.Path.{find_device}

-- The errors that the handlers raise, without their texts, and the values of a method's return.
-- `outside` is no reply: the code goes on with a NULL where it needs the name of a service.
pub data Reply : Type 0 where
  no_such_device : Bytes → Reply
  no_such_property property_type_error : Bytes → Bytes → Reply
  syntax_error permission_denied device_not_locked : Reply
  device_already_locked : Option Bytes → Reply
  interface_already_locked interface_not_locked : Bytes → Reply
  no_policykit : Reply
  returned : Reply
  returned_bool : Bool → Reply
  returned_udis : List Bytes → Reply
  returned_type : PropertyType → Reply
  returned_value : Property → Reply
  returned_properties : Assoc Property → Reply
  returned_devices : List (Bytes × Assoc Property) → Reply
  outside : Reply

-- The object that a request is for, who sent it, and whether it came over a connection of the
-- daemon's own server, which only its helpers use.
pub record Request : Type 0 where
  pub path : Bytes
  pub sender : Option Bytes
  pub local_interface : Bool

-- A variant among the arguments: an array of other elements than texts is an `arg_strings` of none.
pub data Argument : Type 0 where
  arg_string : Bytes → Argument
  arg_int32 : ℤ → Argument
  arg_uint64 : ℕ → Argument
  arg_double : ℕ → Argument
  arg_boolean : Bool → Argument
  arg_strings : List Bytes → Argument
  arg_other : Argument

-- The device of the request's object, or an error.
unfoldable pub on_device : Bytes → (ℕ → M Reply) → M Reply
on_device udi f w = elim (find_device udi w) [ none ↦ (no_such_device udi, w) | some d ↦ f d w ]

-- `dbus_message_get_args`: `none` where the arguments do not have the types.
unfoldable pub with_args : {A : Type 0} → Option A → (A → M Reply) → M Reply
with_args none f w = (syntax_error, w)
with_args (some a) f w = f a w

abbrev pub is_trusted : Site → Request → Bool
is_trusted site r = if r.local_interface then true else message_caller_is_root_or_hal site r.sender

unfoldable pub if_privileged : Site → Request → M Reply → M Reply
if_privileged site r f w = if is_trusted site r then f w else (permission_denied, w)

unfoldable pub with_sender : Option Bytes → (Bytes → M Reply) → M Reply
with_sender none f w = (outside, w)
with_sender (some sender) f w = f sender w

-- An operation's result: an empty return, or the error.
abbrev pub or_error : Reply → Bool × World → Reply × World
or_error e (true, w) = (returned, w)
or_error e (false, w) = (e, w)
