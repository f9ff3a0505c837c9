-- ===== src/Rules/Search.antt =====
-- hald/device_info.c: `di_search_and_merge`, the rules of a section of the cache on a device, and
-- the spawn of new devices by rules.
use hal.Prelude.{
  ℕ, zero, suc, ◌+◌, Bool, true, false, Option, none, some, List, ◌∷◌, if◌then◌else◌, ltb, length,
  codes,
}
use hal.Property.Utf8.{Utf8}
use hal.World.{World}
use hal.Device.{dup_strlist_as_strv}
use hal.Rules.{Rule, RuleType, rule_spawn, Cache, Outcome, finished, died, outside, no_fuel, walk}
use hal.Rules.Text.{Libc}
use hal.Rules.Path.{find_device}
use hal.Rules.Match.{handle_match}
use hal.Rules.Merge.{change_device, spawn_device, callouts_add_done}
use hal.Rules.Tree.{Section, information, policy, section_start, section_end}

-- The world, and the spawned devices whose add callouts run.
pub record Daemon : Type 0 where
  pub world : World
  pub in_callouts : List ℕ

-- `none`: the daemon died in a walk, or the walk was left by the model.
abbrev pub State : Type 0
State = Option Daemon

abbrev pub state_of : Outcome State → State
state_of (finished s) = s
state_of (died s) = none
state_of outside = none
state_of no_fuel = none

abbrev pub matches : Libc → ℕ → Rule → State → Bool
matches libc d rule none = false
matches libc d rule (some s) = handle_match libc rule d s.world

abbrev pub is_spawn : RuleType → Bool
is_spawn rule_spawn = true
is_spawn _ = false

-- `hal_util_callout_device_add`: a device without programs to call is done at once, and goes from
-- the temporary list to the global one.
unfoldable pub call_out : ℕ → State → State
call_out d none = none
call_out d (some s) = elim (dup_strlist_as_strv d (codes "info.callouts.add") s.world) [
  | none ↦ some (record s { world = callouts_add_done d s.world })
  | some programs ↦ some (record s { in_callouts = d ∷ s.in_callouts })
]

module _ (utf8 : Utf8) (libc : Libc) where
  -- `handle_merge`: `look` is what `di_search_and_merge` does for the new device of a spawn.
  unfoldable pub handle_merge : (Section → ℕ → State → State) → ℕ → Rule → State → State
  unfolding call_out
  handle_merge look d rule none = none
  handle_merge look d rule (some s) =
      if is_spawn rule.rtype
      then elim (find_device rule.key s.world) [
        | some e ↦ some s
        | none ↦
            let spawned = s.world.next in
            call_out spawned (
              look policy spawned (
                look information spawned
                  (some (record s { world = spawn_device utf8 d rule.key s.world }))))
      ]
      else some (record s { world = change_device utf8 libc rule.rtype rule d s.world })

  -- A section without a rule is not walked. `depth` bounds how deep spawned devices spawn; the
  -- walk has a round for each rule of the cache, and two more.
  unfoldable pub search_and_merge : Cache → ℕ → Section → ℕ → State → State
  unfolding walk handle_merge
  search_and_merge cache zero sec d s = none
  search_and_merge cache (suc depth) sec d s =
      if ltb (section_start sec cache.header) (section_end sec cache.header)
      then state_of (
          walk (matches libc d) (handle_merge (search_and_merge cache depth) d) cache.header
            cache.rules (length cache.rules + 2) (some (section_start sec cache.header)) s)
      else s
