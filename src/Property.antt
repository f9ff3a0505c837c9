-- ===== src/Property.antt =====
-- hald/device.c: `HalProperty`, a value with its type, and the functions `hal_property_*`.
pub mod Utf8
pub mod Strlists
use hal.Prelude.{
  ℕ, zero, suc, ◌+◌, ◌-◌, ◌*◌, ◌/◌, ◌%◌, ◌^◌, ◌≡◌, refl, Bool, true, false, not, ◌&&◌, ◌||◌, Option,
  none, some, List, [], ◌∷◌, ◌++◌, ltb, ◌==◌, if◌then◌else◌, Bytes, codes, str_eq, strlist_eq,
  contains, length, delete_at,
}

-- `HAL_PROPERTY_TYPE_*` of device.h; `HAL_PROPERTY_TYPE_INVALID` is also the type of a missing key.
pub data PropertyType : Type 0 where
  type_invalid type_int32 type_uint64 type_double type_boolean type_string type_strlist :
      PropertyType

abbrev tag : PropertyType → ℕ
tag type_invalid = 0
tag type_int32 = 1
tag type_uint64 = 2
tag type_double = 3
tag type_boolean = 4
tag type_string = 5
tag type_strlist = 6

abbrev pub same_type : PropertyType → PropertyType → Bool
same_type a b = tag a == tag b

-- `dbus_int32_t`: `negsuc n` is -(n + 1).
pub data ℤ : Type 0 where
  pos : ℕ → ℤ
  negsuc : ℕ → ℤ

abbrev pub int_eq : ℤ → ℤ → Bool
int_eq (pos a) (pos b) = a == b
int_eq (pos a) (negsuc b) = false
int_eq (negsuc a) (pos b) = false
int_eq (negsuc a) (negsuc b) = a == b

-- A `double` is its 64-bit IEEE 754 pattern. `==` of C: no NaN equals anything, and the two zeros
-- are equal.
is_nan : ℕ → Bool
is_nan x = ltb (0x7FF * 2 ^ 52) (x % 2 ^ 63)

is_zero : ℕ → Bool
is_zero x = (x % 2 ^ 63) == 0

pub double_eq : ℕ → ℕ → Bool
unfolding is_nan is_zero
double_eq a b = not (is_nan a) && not (is_nan b) && (a == b || is_zero a && is_zero b)

abbrev pub bool_eq : Bool → Bool → Bool
bool_eq true b = b
bool_eq false b = not b

pub data Property : Type 0 where
  string : Bytes → Property
  int32 : ℤ → Property
  uint64 : ℕ → Property
  boolean : Bool → Property
  double : ℕ → Property
  strlist : List Bytes → Property

abbrev pub property_type : Property → PropertyType
property_type (string s) = type_string
property_type (int32 n) = type_int32
property_type (uint64 n) = type_uint64
property_type (boolean b) = type_boolean
property_type (double x) = type_double
property_type (strlist l) = type_strlist

-- The getters: a value of another type gives the default of `g_return_val_if_fail`.
abbrev pub property_get_string : Property → Option Bytes
property_get_string (string s) = some s
property_get_string _ = none

abbrev pub property_get_int : Property → ℤ
property_get_int (int32 n) = n
property_get_int _ = negsuc 0

-- -1 as a `dbus_uint64_t`
abbrev pub uint64_max : ℕ
uint64_max = 2 ^ 64 - 1

abbrev pub property_get_uint64 : Property → ℕ
property_get_uint64 (uint64 n) = n
property_get_uint64 _ = uint64_max

abbrev pub property_get_bool : Property → Bool
property_get_bool (boolean b) = b
property_get_bool _ = false

abbrev pub property_get_strlist : Property → List Bytes
property_get_strlist (strlist l) = l
property_get_strlist _ = []

-- The pattern of -1.0.
abbrev pub minus_one : ℕ
minus_one = 0xBFF0_0000_0000_0000

abbrev pub property_get_double : Property → ℕ
property_get_double (double x) = x
property_get_double _ = minus_one

-- "don't bother setting the same value": the test of each setter, for two values of one type.
abbrev pub same_value : Property → Property → Bool
same_value (string a) (string b) = str_eq a b
same_value (int32 a) (int32 b) = int_eq a b
same_value (uint64 a) (uint64 b) = a == b
same_value (boolean a) (boolean b) = bool_eq a b
same_value (double a) (double b) = double_eq a b
same_value (strlist a) (strlist b) = strlist_eq a b
same_value _ _ = false

-- Decimal digits, most significant first, as `%d` and `%llu` print them.
digits_above : ℕ → ℕ → Bytes → Bytes
digits_above zero n acc = acc
digits_above (suc fuel) n acc =
    let rest = digits_above fuel (n / 10) ((48 + n % 10) ∷ acc) in
    if ltb n 10 then (48 + n) ∷ acc else rest

-- One round for each digit: `n + 1` rounds are enough.
unfoldable pub decimal : ℕ → Bytes
unfolding digits_above
decimal n = digits_above (suc n) n []

abbrev pub decimal_int : ℤ → Bytes
decimal_int (pos n) = decimal n
decimal_int (negsuc n) = b'-' ∷ decimal (n + 1)

-- The elements with a tab between them.
unfoldable pub join_tabs : List Bytes → Bytes
join_tabs [] = []
join_tabs (x ∷ []) = x
join_tabs (x ∷ y ∷ l) = x ++ (9 ∷ join_tabs (y ∷ l))

-- `hal_property_to_string`; `print_double` is the `%f` of the C library.
unfoldable pub property_to_string : (ℕ → Bytes) → Property → Bytes
unfolding decimal join_tabs
property_to_string print_double (string s) = s
property_to_string print_double (int32 n) = decimal_int n
property_to_string print_double (uint64 n) = decimal n
property_to_string print_double (boolean b) = if b then codes "true" else codes "false"
property_to_string print_double (double x) = print_double x
property_to_string print_double (strlist l) = join_tabs l

-- `hal_property_strlist_*` on a value: the new value and the result. A value of another type is
-- left alone and the result is FALSE.
unfoldable pub strlist_append : Bytes → Property → Bool × Property
strlist_append v (strlist l) = (true, strlist (l ++ (v ∷ [])))
strlist_append v p = (false, p)

unfoldable pub strlist_prepend : Bytes → Property → Bool × Property
strlist_prepend v (strlist l) = (true, strlist (v ∷ l))
strlist_prepend v p = (false, p)

unfoldable pub strlist_remove_elem : ℕ → Property → Bool × Property
strlist_remove_elem i (strlist l) =
    if ltb i (length l) then (true, strlist (delete_at l i)) else (false, strlist l)
strlist_remove_elem i p = (false, p)

unfoldable pub strlist_add : Bytes → Property → Bool × Property
strlist_add v (strlist l) =
    if contains v l then (false, strlist l) else strlist_append v (strlist l)
strlist_add v p = (false, p)

-- The loop of `hal_property_strlist_remove`: the index of the first element equal to the value.
unfoldable pub index_from : Bytes → ℕ → List Bytes → Option ℕ
index_from v i [] = none
index_from v i (x ∷ l) = let rest = index_from v (i + 1) l in if str_eq x v then some i else rest

unfoldable pub strlist_remove : Bytes → Property → Bool × Property
unfolding index_from strlist_remove_elem
strlist_remove v (strlist l) = elim (index_from v 0 l) [
  | none ↦ (false, strlist l)
  | some i ↦ strlist_remove_elem i (strlist l)
]
strlist_remove v p = (false, p)
