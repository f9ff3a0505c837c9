-- ===== src/Rules/Match.antt =====
-- hald/device_info.c: `handle_match`, the test of a match rule on a device.
use hal.Prelude.{
  ℕ, ◌+◌, ◌-◌, ◌%◌, ◌^◌, Bool, true, false, not, ◌&&◌, ◌||◌, Option, none, some, List, [], ◌∷◌,
  ◌==◌, if◌then◌else◌, Bytes, codes, str_eq, starts_with, contains, length, or_else,
}
use hal.Property.{
  int_eq, double_eq, bool_eq, PropertyType, type_int32, type_uint64, type_double, type_boolean,
  type_string, type_strlist, same_type,
}
use hal.World.{World, gdl, property_get_type}
use hal.World.Index.{device_get_string}
use hal.Device.{has_property, get_int, get_uint64, get_bool, get_double, get_strlist}
use hal.Store.{match_multiple_key_value_string}
use hal.Rules.{
  Rule, MatchType, match_unknown, match_string, match_int, match_uint64, match_bool, match_exists,
  match_empty, match_isascii, match_is_abs_path, match_contains, match_contains_ncase, match_prefix,
  match_prefix_ncase, match_suffix, match_suffix_ncase, match_compare_lt, match_compare_le,
  match_compare_gt, match_compare_ge, match_sibling_contains, match_compare_ne, match_contains_not,
  match_double, match_contains_outof, match_int_outof, match_prefix_outof, match_string_outof,
}
use hal.Rules.Text.{
  Libc, pattern64, to_int32, is_negative64, strstr, has_suffix, strcmp, strsplit, ascii_same,
  is_ascii_text, is_absolute, any_text,
}
use hal.Rules.Path.{resolve_device}

-- The value of a string property; a test that reads it has seen the type.
abbrev pub text_of : ℕ → Bytes → World → Bytes
text_of d key w = or_else [] (device_get_string d key w)

abbrev pub has_type : PropertyType → ℕ → Bytes → World → Bool
has_type t d key w = same_type (property_get_type d key w) t

-- A test that may be asked for or, by the value "false", asked to fail.
abbrev pub as_asked : Bytes → Bool → Bool
as_asked value b = if str_eq value (codes "false") then not b else b

module _ (libc : Libc) where
  -- The difference that `match_compare_property` stores, as a 64-bit pattern; `none` where the
  -- comparison could not take place.
  unfoldable pub match_compare_property : ℕ → Bytes → Bytes → World → Option ℕ
  match_compare_property d key right_side w =
      if not (has_property d key w) then none else elim (property_get_type d key w) [
        | type_string ↦ some (strcmp (text_of d key w) right_side)
        | type_int32 ↦
            some ((pattern64 (get_int d key w) + 2 ^ 64 - libc.strtoll right_side) % 2 ^ 64)
        | type_uint64 ↦ some ((get_uint64 d key w + 2 ^ 64 - libc.strtoll right_side) % 2 ^ 64)
        | type_double ↦ some (libc.ceil_difference (get_double d key w) (libc.atof right_side))
        | _ ↦ none
      ]

  abbrev pub compare : (ℕ → Bool) → ℕ → Bytes → Bytes → World → Bool
  compare test d key value w = elim (match_compare_property d key value w) [
    | none ↦ false
    | some result ↦ test result
  ]

  abbrev pub is_positive64 : ℕ → Bool
  is_positive64 p = not (is_negative64 p) && not (p == 0)

  -- A text among the pieces of the value, by any of the three tests.
  abbrev pub outof : (Bytes → Bytes → Bool) → ℕ → Bytes → Bytes → World → Bool
  outof test d key value w =
      if has_property d key w && has_type type_string d key w
      then any_text (test (text_of d key w)) (strsplit b';' 0 value)
      else false

  abbrev pub contains_value : ℕ → Bytes → Bytes → World → Option Bool
  contains_value d key value w =
      if has_property d key w
      then if has_type type_string d key w
        then some (strstr (text_of d key w) value)
        else if has_type type_strlist d key w
        then some (contains value (get_strlist d key w))
        else none
      else some false

  -- One sibling of the loop of `MATCH_SIBLING_CONTAINS`.
  abbrev pub sibling_contains : Bytes → Bytes → World → ℕ → Bool
  sibling_contains key value w sib =
      if has_type type_string sib key w
      then strstr (text_of sib key w) value
      else if has_type type_strlist sib key w
      then contains value (get_strlist sib key w)
      else false

  unfoldable pub any_sibling : ℕ → (ℕ → Bool) → List ℕ → Bool
  any_sibling d test [] = false
  any_sibling d test (sib ∷ rest) =
      let later = any_sibling d test rest in
      if sib == d then later else if test sib then true else later

  abbrev pub on_text : (Bytes → Bool) → ℕ → Bytes → World → Bool
  on_text test d key w = if has_type type_string d key w then test (text_of d key w) else false

  -- The `switch` of `handle_match`.
  unfoldable pub match_property : MatchType → ℕ → Bytes → Bytes → World → Bool
  unfolding match_compare_property any_sibling
  match_property match_string d key value w = on_text (λ s. str_eq s value) d key w
  match_property match_int d key value w =
      if has_type type_int32 d key w
      then int_eq (get_int d key w) (to_int32 (libc.strtol value))
      else false
  match_property match_uint64 d key value w =
      if has_type type_uint64 d key w then get_uint64 d key w == libc.strtol value else false
  match_property match_bool d key value w =
      if str_eq value (codes "false") || str_eq value (codes "true")
      then if has_type type_boolean d key w
        then bool_eq (get_bool d key w) (str_eq value (codes "true"))
        else false
      else false
  match_property match_double d key value w =
      if has_type type_double d key w
      then double_eq (get_double d key w) (libc.atof value)
      else false
  match_property match_exists d key value w = as_asked value (has_property d key w)
  match_property match_empty d key value w =
      if has_type type_string d key w then as_asked value (length (text_of d key w) == 0) else false
  match_property match_isascii d key value w =
      if has_type type_string d key w
      then as_asked value (is_ascii_text (text_of d key w))
      else false
  match_property match_is_abs_path d key value w =
      if has_type type_string d key w then as_asked value (is_absolute (text_of d key w)) else false
  match_property match_contains d key value w = or_else false (contains_value d key value w)
  match_property match_contains_not d key value w = elim (contains_value d key value w) [
    | none ↦ false
    | some b ↦ not b
  ]
  match_property match_contains_outof d key value w = outof strstr d key value w
  match_property match_prefix_outof d key value w = outof (λ s p. starts_with p s) d key value w
  match_property match_string_outof d key value w = outof str_eq d key value w
  match_property match_int_outof d key value w =
      if has_property d key w && has_type type_int32 d key w
      then any_text (λ v. pattern64 (get_int d key w) == libc.strtol v) (strsplit b';' 0 value)
      else false
  match_property match_sibling_contains d key value w =
      elim (device_get_string d (codes "info.parent") w) [
        | none ↦ false
        | some parent_udi ↦
            any_sibling d (sibling_contains key value w)
              (match_multiple_key_value_string gdl (codes "info.parent") parent_udi w)
      ]
  match_property match_contains_ncase d key value w =
      if has_type type_string d key w
      then strstr (libc.utf8_strdown (text_of d key w)) (libc.utf8_strdown value)
      else if has_type type_strlist d key w
      then any_text (λ s. ascii_same s value) (get_strlist d key w)
      else false
  match_property match_prefix d key value w = on_text (starts_with value) d key w
  match_property match_prefix_ncase d key value w =
      on_text (λ s. starts_with (libc.utf8_strdown value) (libc.utf8_strdown s)) d key w
  match_property match_suffix d key value w = on_text (λ s. has_suffix s value) d key w
  match_property match_suffix_ncase d key value w =
      on_text (λ s. has_suffix (libc.utf8_strdown s) (libc.utf8_strdown value)) d key w
  match_property match_compare_lt d key value w = compare is_negative64 d key value w
  match_property match_compare_le d key value w =
      compare (λ p. is_negative64 p || p == 0) d key value w
  match_property match_compare_gt d key value w = compare is_positive64 d key value w
  match_property match_compare_ge d key value w = compare (λ p. not (is_negative64 p)) d key value w
  match_property match_compare_ne d key value w = compare (λ p. not (p == 0)) d key value w
  match_property match_unknown d key value w = false

  -- `handle_match`: a path that leads nowhere does not match.
  unfoldable pub handle_match : Rule → ℕ → World → Bool
  unfolding match_property
  handle_match rule d w = elim (resolve_device rule.key d w) [
    | none ↦ false
    | some (e, key) ↦ match_property rule.type_match e key rule.value w
  ]
