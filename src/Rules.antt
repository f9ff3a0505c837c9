-- ===== src/Rules.antt =====
-- hald/rule.h and hald/device_info.c: the cache of device information rules, and the walk over the
-- rules of one section of it.
pub mod Text
pub mod Path
pub mod Match
pub mod Merge
pub mod Search
pub mod Sections
pub mod Compare
pub mod Keep
pub mod Tree
use hal.Prelude.{
  ℕ, zero, suc, ◌+◌, ◌*◌, ◌/◌, ◌≡◌, refl, Bool, true, false, not, ◌&&◌, ◌||◌, Option, none, some,
  List, [], ◌∷◌, ◌==◌, if◌then◌else◌, ltb, leb, Bytes, length,
}

-- `rule_type`
pub data RuleType : Type 0 where
  rule_unknown rule_match rule_merge rule_append rule_prepend rule_remove rule_clear rule_spawn
        rule_eof rule_addset :
      RuleType

-- `merge_type`
pub data MergeType : Type 0 where
  merge_unknown merge_string merge_boolean merge_int32 merge_uint64 merge_double merge_copy_property
        merge_strlist merge_remove :
      MergeType

-- `match_type`
pub data MatchType : Type 0 where
  match_unknown match_string match_int match_uint64 match_bool match_exists match_empty
        match_isascii match_is_abs_path match_contains match_contains_ncase match_prefix
        match_prefix_ncase match_suffix match_suffix_ncase match_compare_lt match_compare_le
        match_compare_gt match_compare_ge match_sibling_contains match_compare_ne match_contains_not
        match_double match_contains_outof match_int_outof match_prefix_outof match_string_outof :
      MatchType

-- `struct rule`, with its key and the value that `value_offset` leads to.
pub record Rule : Type 0 where
  pub rule_size : ℕ
  pub jump_position : ℕ
  pub rtype : RuleType
  pub type_match : MatchType
  pub type_merge : MergeType
  pub key : Bytes
  pub value : Bytes

-- `struct cache_header`: where the three sections begin, and where the last one ends.
pub record CacheHeader : Type 0 where
  pub fdi_rules_preprobe : ℕ
  pub fdi_rules_information : ℕ
  pub fdi_rules_policy : ℕ
  pub all_rules_size : ℕ

-- The mapped file: its header, and the rules by their offset.
pub record Cache : Type 0 where
  pub header : CacheHeader
  pub rules : List (ℕ × Rule)

unfoldable pub rule_at : ℕ → List (ℕ × Rule) → Option Rule
rule_at offset [] = none
rule_at offset ((o, r) ∷ rest) = if o == offset then some r else rule_at offset rest

-- The test of `di_next` and `di_jump`: is the next rule in the section of the rule?
unfoldable pub in_section : CacheHeader → ℕ → ℕ → Bool
in_section h offset next =
    leb h.fdi_rules_preprobe offset && ltb next h.fdi_rules_information
    || leb h.fdi_rules_information offset && ltb next h.fdi_rules_policy
    || leb h.fdi_rules_policy offset && ltb next h.all_rules_size

unfoldable pub di_next : CacheHeader → ℕ → Rule → Option ℕ
unfolding in_section
di_next h offset rule =
    let next = offset + rule.rule_size in if in_section h offset next then some next else none

unfoldable pub di_jump : CacheHeader → ℕ → Rule → Option ℕ
unfolding in_section
di_jump h offset rule =
    if rule.jump_position == 0
    then none
    else if in_section h offset rule.jump_position
    then some rule.jump_position
    else none

-- How a walk ends: after the last rule; by `DIE`; at an offset where the cache has no rule; or
-- without fuel.
pub data Outcome (S : Type 0) : Type 0 where
  finished died : S → Outcome S
  outside no_fuel : Outcome S

-- What the `switch` does with a rule: it goes on behind the rule, jumps, or, for a rule that it does
-- not know, jumps and goes on behind the rule that it finds there.
pub data Move (S : Type 0) : Type 0 where
  go_on : S → Move S
  jump jump_and_go_on : Move S

-- `rules_match_and_merge_device`, for any test of a match and any effect of the other rules.
module _ {S : Type 0} (handle_match : Rule → S → Bool) (handle_merge : Rule → S → S) where
  abbrev pub dispatch : RuleType → Rule → S → Move S
  dispatch rule_match rule s = if handle_match rule s then go_on s else jump
  dispatch rule_unknown rule s = jump_and_go_on
  dispatch rule_eof rule s = go_on s
  dispatch _ rule s = go_on (handle_merge rule s)

  module _ (h : CacheHeader) (rules : List (ℕ × Rule)) where
    unfoldable pub walk : ℕ → Option ℕ → S → Outcome S
    unfolding rule_at di_next di_jump
    walk zero position s = no_fuel
    walk (suc fuel) none s = finished s
    walk (suc fuel) (some offset) s = elim (rule_at offset rules) [
      | none ↦ outside
      | some rule ↦ elim (dispatch rule.rtype rule s) [
        | go_on s' ↦ walk fuel (di_next h offset rule) s'
        | jump ↦ elim (di_jump h offset rule) [
          | none ↦ died s
          | some next ↦ walk fuel (some next) s
        ]
        | jump_and_go_on ↦ elim (di_jump h offset rule) [
          | none ↦ finished s
          | some next ↦ elim (rule_at next rules) [
            | none ↦ outside
            | some landed ↦ walk fuel (di_next h next landed) s
          ]
        ]
      ]
    ]
