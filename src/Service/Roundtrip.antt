-- ===== src/Service/Roundtrip.antt =====
-- hald/hald_dbus.c: a property that a request has set is the one that the next request reads.
use hal.Prelude.{
  ◌∙◌, ap, sym, ℕ, ◌≡◌, ◌==◌, refl, Bool, true, false, Option, none, some, [], if◌then◌else◌, Bytes,
  arith, Bool-cases, Option-cases, inl, inr, eq_iff,
}
use hal.Property.{
  ℤ, pos, negsuc, int_eq, Property, string, int32, uint64, boolean, double, strlist, property_type,
  same_type, same_value,
}
use hal.Property.Utf8.{Utf8, stored_string}
use hal.World.{World, property_find, property_get_type, property_changed, pre_property_changed}
use hal.World.Index.{device_get_string}
use hal.Device.{has_property, get_int, get_uint64, get_bool, get_double, get_strlist}
use hal.Device.Set.{store_value, set_string, set_int, set_uint64, set_bool, set_double}
use hal.Device.Find.{find-changed, find-replaced}
use hal.Access.{Site}
use hal.Rules.Path.{find_device}
use hal.Service.{
  Request, Argument, arg_string, arg_int32, arg_uint64, arg_double, arg_boolean, arg_strings,
  arg_other, returned_value, property_type_error, on_device, with_args, if_privileged, is_trusted,
  or_error,
}
use hal.Service.Change.{set_argument, device_set_property}
use hal.Service.Properties.{value_of, device_get_property}
use hal.Service.Cases.{is_returned}
use hal.Service.Sequence.{or_error-granted, or_error-state}
use hal.Service.Place.{find_device-SamePlace, set_argument-Stays}

-- What a setter leaves under its key: the value that is there, where it compares equal to the one
-- offered, or else the one stored.
abbrev pub settled : Property → Property → Option Property → Property
settled offered stored none = stored
settled offered stored (some old) = if same_value old offered then old else stored

-- Where the operation succeeds, the value is under the key.
record Reads (d : ℕ) (key : Bytes) (p : Property) (x : Bool × World) : Type 0 where
  read : x.0 ≡ true → property_find d key x.1 ≡ some p

find-store_value :
    (d : ℕ) (key : Bytes) (offered stored : Property) (w : World)
    → Reads d key
        (settled offered stored (property_find d key w))
        (store_value d key offered stored w)
unfolding store_value
find-store_value d key offered stored w = elim (Option-cases (property_find d key w)) [
  | inl e ↦
      rw (e, store_value)
        (record {
          read = λ done.
              find-changed d key d key stored (property_changed key false true) w
              ∙ ground (arith, eq_iff key key);
        })
  | inr (old, e) ↦ elim (Bool-cases (same_type (property_type old) (property_type offered))) [
    | inr other ↦ rw (e, other, store_value) (record { read = λ done. absurd (ground arith) })
    | inl right ↦ elim (Bool-cases (same_value old offered)) [
      | inl same ↦ rw (e, right, same, store_value) (record { read = λ done. e })
      | inr new ↦
          rw (e, right, new, store_value)
            (record {
              read = λ done.
                  find-replaced d key d key stored (property_changed key false false)
                    (pre_property_changed key false) w
                  ∙ ground (arith, eq_iff key key);
            })
    ]
  ]
]

int_eq_lem : (a b : ℤ) → int_eq a b ≡ true → a ≡ b
int_eq_lem (pos a) (pos b) h = ap pos (ground (arith, h))
int_eq_lem (pos a) (negsuc b) h = absurd (ground (arith, h))
int_eq_lem (negsuc a) (pos b) h = absurd (ground (arith, h))
int_eq_lem (negsuc a) (negsuc b) h = ap negsuc (ground (arith, h))

-- The value that a reader gets after an argument was set, where a value was there before or not.
-- Two doubles that compare equal need not be the same pattern.
abbrev pub value_after : Utf8 → Argument → Option Property → Property
value_after utf8 (arg_string s) old = settled (string s) (string (stored_string utf8 (some s))) old
value_after utf8 (arg_int32 n) old = int32 n
value_after utf8 (arg_uint64 n) old = uint64 n
value_after utf8 (arg_double x) old = settled (double x) (double x) old
value_after utf8 (arg_boolean b) old = boolean b
value_after utf8 _ old = string []

settled_int : (n : ℤ) (old : Option Property) → settled (int32 n) (int32 n) old ≡ int32 n
settled_int n none = refl
settled_int n (some (int32 m)) = elim (Bool-cases (int_eq m n)) [
  | inl same ↦ rw same (ap int32 (int_eq_lem m n same))
  | inr other ↦ rw other refl
]
settled_int n (some _) = refl

settled_uint64 : (n : ℕ) (old : Option Property) → settled (uint64 n) (uint64 n) old ≡ uint64 n
settled_uint64 n none = refl
settled_uint64 n (some (uint64 m)) = elim (Bool-cases (m == n)) [
  | inl same ↦ rw same (ap uint64 (ground (arith, same)))
  | inr other ↦ rw other refl
]
settled_uint64 n (some _) = refl

settled_boolean :
    (b : Bool) (old : Option Property) → settled (boolean b) (boolean b) old ≡ boolean b
settled_boolean b none = refl
settled_boolean true (some (boolean true)) = refl
settled_boolean false (some (boolean true)) = refl
settled_boolean true (some (boolean false)) = refl
settled_boolean false (some (boolean false)) = refl
settled_boolean b (some _) = refl

same_read :
    {d : ℕ} {key : Bytes} {p q : Property} {x : Bool × World}
    → p ≡ q
    → Reads d key p x
    → Reads d key q x
same_read e h = record { read = λ done. h.read done ∙ ap some e }

set_argument-Reads :
    (utf8 : Utf8) (d : ℕ) (key : Bytes) (v : Argument) (w : World)
    → Reads d key (value_after utf8 v (property_find d key w)) (set_argument utf8 d key v w)
unfolding set_argument set_string set_int set_uint64 set_double set_bool
set_argument-Reads utf8 d key (arg_string s) w =
    find-store_value d key (string s) (string (stored_string utf8 (some s))) w
set_argument-Reads utf8 d key (arg_int32 n) w =
    same_read (settled_int n (property_find d key w)) (find-store_value d key (int32 n) (int32 n) w)
set_argument-Reads utf8 d key (arg_uint64 n) w =
    same_read (settled_uint64 n (property_find d key w))
      (find-store_value d key (uint64 n) (uint64 n) w)
set_argument-Reads utf8 d key (arg_double x) w = find-store_value d key (double x) (double x) w
set_argument-Reads utf8 d key (arg_boolean b) w =
    same_read (settled_boolean b (property_find d key w))
      (find-store_value d key (boolean b) (boolean b) w)
set_argument-Reads utf8 d key (arg_strings l) w = record { read = λ done. absurd (ground arith) }
set_argument-Reads utf8 d key arg_other w = record { read = λ done. absurd (ground arith) }

value_of-find :
    (d : ℕ) (key : Bytes) (p : Property) (w : World)
    → property_find d key w ≡ some p
    → value_of (property_type p) d key w ≡ returned_value p
unfolding value_of device_get_string get_int get_uint64 get_bool get_double get_strlist
value_of-find d key (string s) w e = rw (e, device_get_string) refl
value_of-find d key (int32 n) w e = rw (e, get_int) refl
value_of-find d key (uint64 n) w e = rw (e, get_uint64) refl
value_of-find d key (boolean b) w e = rw (e, get_bool) refl
value_of-find d key (double x) w e = rw (e, get_double) refl
value_of-find d key (strlist l) w e = rw (e, get_strlist) refl

-- A reader of a device gets the property as it stands.
get_property-find :
    (reader : Request) (d : ℕ) (key : Bytes) (p : Property) (w : World)
    → find_device reader.path w ≡ some d
    → property_find d key w ≡ some p
    → (device_get_property reader (some key) w).0 ≡ returned_value p
unfolding device_get_property on_device with_args
get_property-find reader d key p w there e =
    let found : has_property d key w ≡ true = unfold has_property in ground (arith, e) in
    let type : property_get_type d key w ≡ property_type p =
      unfold property_get_type in rw (e, property_get_type) refl in
    rw (there, found, type, device_get_property, on_device, with_args) (value_of-find d key p w e)

-- A trusted caller's SetProperty that succeeds on a device, and a GetProperty for the same object
-- and key after it: the reply is the number or the flag that was set; the text, with its invalid
-- bytes replaced, or as it was given where the same text stood there; or the double, or the one
-- that stood there and compared equal.
pub device_get_property-device_set_property :
    (utf8 : Utf8) (site : Site) (r reader : Request) (d : ℕ) (key : Bytes) (v : Argument)
    (w : World)
    → find_device r.path w ≡ some d
    → is_trusted site r ≡ true
    → reader.path ≡ r.path
    → is_returned (device_set_property utf8 site r (some (key, v)) w).0 ≡ true
    → (device_get_property reader
        (some key)
        (device_set_property utf8 site r (some (key, v)) w).1).0
      ≡ returned_value (value_after utf8 v (property_find d key w))
device_get_property-device_set_property utf8 site r reader d key v w there trusted path done =
    let call : device_set_property utf8 site r (some (key, v)) w
        ≡ or_error (property_type_error r.path key) (set_argument utf8 d key v w) =
      unfold device_set_property on_device with_args if_privileged in
      rw (trusted, there, device_set_property, on_device, with_args, if_privileged) refl in
    let x = set_argument utf8 d key v w in
    let fine : x.0 ≡ true =
      or_error-granted (property_type_error r.path key) x refl
        (ap (λ y. is_returned y.0) (sym call) ∙ done) in
    let after : (device_set_property utf8 site r (some (key, v)) w).1 ≡ x.1 =
      ap (λ y. y.1) call ∙ or_error-state _ _ in
    let there' : find_device reader.path x.1 ≡ some d =
      ap (λ p. find_device p x.1) path
      ∙ find_device-SamePlace r.path w x.1 (set_argument-Stays utf8 d key v w).place
      ∙ there in
    ap (λ u. (device_get_property reader (some key) u).0) after
    ∙ get_property-find reader d key _ x.1 there' ((set_argument-Reads utf8 d key v w).read fine)
