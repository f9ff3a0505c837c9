-- ===== src/Rules/Tree.antt =====
-- hald/device_info.c: the rules as the nested blocks of an .fdi file, and that the walk over the
-- cache does what the blocks say.
use hal.Prelude.{
  ap, ◌∙◌, ℕ, zero, suc, ◌+◌, ◌<◌, ◌≤◌, ◌≡◌, refl, Bool, true, false, Option, none, some, List,
  if◌then◌else◌, arith, ltb, Bool-cases, inl, inr,
}
use hal.Rules.{
  Rule, RuleType, rule_match, CacheHeader, rule_at, in_section, di_next, di_jump, Outcome, finished,
  walk, go_on, jump, dispatch,
}

-- The content of a section: rules one after the other, and blocks of rules under a match.
pub data Forest : Type 0 where
  nothing : Forest
  action : Rule → Forest → Forest
  block : Rule → Forest → Forest → Forest

-- The bytes that the rules take, and their number.
abbrev pub size : Forest → ℕ
size nothing = 0
size (action r rest) = r.rule_size + size rest
size (block r body rest) = r.rule_size + (size body + size rest)

abbrev pub count : Forest → ℕ
count nothing = 0
count (action r rest) = suc (count rest)
count (block r body rest) = suc (count body + count rest)

-- Rules other than a match, of a known type.
abbrev pub is_action : RuleType → Bool
is_action RuleType.rule_unknown = false
is_action RuleType.rule_match = false
is_action _ = true

-- The cache holds the forest from the offset on: each rule takes space, and a match jumps behind
-- its block.
unfoldable pub Stored : List (ℕ × Rule) → ℕ → Forest → Type 0
Stored rules o nothing = Unit
Stored rules o (action r rest) =
    (rule_at o rules ≡ some r)
    × (is_action r.rtype ≡ true)
    × (0 < r.rule_size)
    × Stored rules (o + r.rule_size) rest
Stored rules o (block r body rest) =
    (rule_at o rules ≡ some r)
    × (r.rtype ≡ rule_match)
    × (0 < r.rule_size)
    × (r.jump_position ≡ o + r.rule_size + size body)
    × Stored rules (o + r.rule_size) body
    × Stored rules (o + r.rule_size + size body) rest

-- The three sections, in the order of the file.
pub data Section : Type 0 where
  preprobe information policy : Section

abbrev pub section_start : Section → CacheHeader → ℕ
section_start preprobe h = h.fdi_rules_preprobe
section_start information h = h.fdi_rules_information
section_start policy h = h.fdi_rules_policy

abbrev pub section_end : Section → CacheHeader → ℕ
section_end preprobe h = h.fdi_rules_information
section_end information h = h.fdi_rules_policy
section_end policy h = h.all_rules_size

pub record IsOrdered (h : CacheHeader) : Type 0 where
  pub first : h.fdi_rules_preprobe ≤ h.fdi_rules_information
  pub second : h.fdi_rules_information ≤ h.fdi_rules_policy
  pub third : h.fdi_rules_policy ≤ h.all_rules_size

-- From a rule of a section the walk goes forward as far as the section goes.
pub in_section-section :
    (sec : Section) (h : CacheHeader) (offset next : ℕ)
    → IsOrdered h
    → section_start sec h ≤ offset
    → offset < section_end sec h
    → offset < next
    → in_section h offset next ≡ ltb next (section_end sec h)
unfolding in_section
in_section-section preprobe h offset next o a b c = ground arith
in_section-section information h offset next o a b c = ground arith
in_section-section policy h offset next o a b c = ground arith

module _ {S : Type 0} (handle_match : Rule → S → Bool) (handle_merge : Rule → S → S) where
  abbrev pub act : RuleType → Rule → S → S
  act RuleType.rule_eof r s = s
  act _ r s = handle_merge r s

  -- What a forest means: the rules in order, and a block where its match holds.
  unfoldable pub apply_forest : Forest → S → S
  apply_forest nothing s = s
  apply_forest (action r rest) s = apply_forest rest (act r.rtype r s)
  apply_forest (block r body rest) s =
      let inside = apply_forest body s in apply_forest rest (if handle_match r s then inside else s)

  dispatch-action :
      (t : RuleType) (r : Rule) (s : S)
      → is_action t ≡ true
      → dispatch handle_match handle_merge t r s ≡ go_on (act t r s)
  dispatch-action t r s plain = ground arith

  dispatch-match :
      (t : RuleType) (r : Rule) (s : S) (b : Bool)
      → t ≡ rule_match
      → handle_match r s ≡ b
      → dispatch handle_match handle_merge t r s ≡ (if b then go_on s else jump)
  dispatch-match t r s b m holds = ground arith

  dispatch-eof :
      (t : RuleType) (r : Rule) (s : S)
      → t ≡ RuleType.rule_eof
      → dispatch handle_match handle_merge t r s ≡ go_on s
  dispatch-eof t r s m = ground arith

  module _ (h : CacheHeader) (rules : List (ℕ × Rule)) where
    abbrev go : ℕ → Option ℕ → S → Outcome S
    go = walk handle_match handle_merge h rules

    walk-go_on :
        (fuel o : ℕ) (r : Rule) (s t : S)
        → rule_at o rules ≡ some r
        → dispatch handle_match handle_merge r.rtype r s ≡ go_on t
        → go (suc fuel) (some o) s ≡ go fuel (di_next h o r) t
    unfolding walk
    walk-go_on fuel o r s t there d = rw (there, d, walk) refl

    walk-none : (fuel : ℕ) (s : S) → go (suc fuel) none s ≡ finished s
    unfolding walk
    walk-none fuel s = refl

    walk-jump :
        (fuel o next : ℕ) (r : Rule) (s : S)
        → rule_at o rules ≡ some r
        → dispatch handle_match handle_merge r.rtype r s ≡ jump
        → di_jump h o r ≡ some next
        → go (suc fuel) (some o) s ≡ go fuel (some next) s
    unfolding walk
    walk-jump fuel o next r s there d leap = rw (there, d, leap, walk) refl

    module _ (sec : Section) (ordered : IsOrdered h) where
      -- Where the walk goes behind a rule of the section.
      abbrev onward : ℕ → Option ℕ
      onward next = if ltb next (section_end sec h) then some next else none

      di_next-section :
          (o : ℕ) (r : Rule)
          → section_start sec h ≤ o
          → o < section_end sec h
          → 0 < r.rule_size
          → di_next h o r ≡ onward (o + r.rule_size)
      unfolding di_next
      di_next-section o r a b c =
          rw (in_section-section sec h o (o + r.rule_size) ordered a b (omega arith)) refl

      onward_inside : (next : ℕ) → next < section_end sec h → onward next ≡ some next
      onward_inside next b = ground arith

      di_jump-section :
          (o : ℕ) (r : Rule)
          → section_start sec h ≤ o
          → o < r.jump_position
          → r.jump_position < section_end sec h
          → di_jump h o r ≡ some r.jump_position
      unfolding di_jump
      di_jump-section o r a b c =
          ground (arith, in_section-section sec h o r.jump_position ordered a (omega arith) b)

      -- A walk over a stored forest, which something follows in the section, does what the
      -- forest means and goes on behind it, for any fuel that covers its rules.
      walk-forest :
          (f : Forest) (fuel o end : ℕ) (s : S)
          → Stored rules o f
          → o + size f ≡ end
          → section_start sec h ≤ o
          → end < section_end sec h
          → count f ≤ fuel
          → (left : ℕ) × (fuel ≤ left + count f)
            × (go fuel (some o) s ≡ go left (some end) (apply_forest f s))
      unfolding Stored apply_forest
      walk-forest nothing fuel o end s st e a b c =
          (fuel, omega arith, ap (λ x. go fuel (some x) s) (omega (arith, e)))
      walk-forest (action r rest) zero o end s st e a b c = absurd (omega arith)
      walk-forest (action r rest) (suc fuel) o end s (there, plain, pos, later) e a b c =
          let (left, enough, same) =
            walk-forest rest fuel (o + r.rule_size) end (act r.rtype r s) later (omega (arith, e))
              (omega arith) b (omega arith) in
          (
            left,
            omega (arith, enough),
            walk-go_on fuel o r s (act r.rtype r s) there (dispatch-action r.rtype r s plain)
                ∙ ap (λ x. go fuel x (act r.rtype r s))
                    (di_next-section o r a (omega (arith, e)) pos
                      ∙ onward_inside (o + r.rule_size) (omega (arith, e)))
                ∙ same,
          )
      walk-forest (block r body rest) zero o end s st e a b c = absurd (omega arith)
      walk-forest (block r body rest) (suc fuel) o end s (there, m, pos, target, inner, later) e a b
            c =
          elim (Bool-cases (handle_match r s)) [
            | inl holds ↦
                let middle = o + r.rule_size + size body in
                let (left1, enough1, same1) =
                  walk-forest body fuel (o + r.rule_size) middle s inner refl (omega arith)
                    (omega (arith, e)) (omega arith) in
                let (left, enough, same) =
                  walk-forest rest left1 middle end (apply_forest body s) later (omega (arith, e))
                    (omega arith) b (omega (arith, enough1)) in
                (
                  left,
                  omega (arith, enough, enough1),
                  walk-go_on fuel o r s s there (dispatch-match r.rtype r s true m holds)
                      ∙ ap (λ x. go fuel x s)
                          (di_next-section o r a (omega (arith, e)) pos
                            ∙ onward_inside (o + r.rule_size) (omega (arith, e)))
                      ∙ same1
                      ∙ same
                      ∙ rw holds refl,
                )
            | inr fails ↦
                let (left, enough, same) =
                  walk-forest rest fuel r.jump_position end s (rw target later)
                    (omega (arith, e, target)) (omega (arith, target)) b (omega arith) in
                (
                  left,
                  omega (arith, enough),
                  walk-jump fuel o r.jump_position r s there
                        (dispatch-match r.rtype r s false m fails)
                        (di_jump-section o r a (omega (arith, target, pos))
                          (omega (arith, target, e)))
                      ∙ same
                      ∙ rw fails refl,
                )
          ]

      walk-last :
          (left o : ℕ) (r : Rule) (s : S)
          → 1 < left
          → rule_at o rules ≡ some r
          → r.rtype ≡ RuleType.rule_eof
          → section_start sec h ≤ o
          → 0 < r.rule_size
          → o + r.rule_size ≡ section_end sec h
          → go left (some o) s ≡ finished s
      walk-last zero o r s two there eof a pos closed = absurd (omega arith)
      walk-last (suc zero) o r s two there eof a pos closed = absurd (omega arith)
      walk-last (suc (suc k)) o r s two there eof a pos closed =
          walk-go_on (suc k) o r s s there (dispatch-eof r.rtype r s eof)
          ∙ ap (λ x. go (suc k) x s)
              (di_next-section o r a (omega (arith, closed, pos)) pos ∙ ground (arith, closed))
          ∙ walk-none k s

      -- A section of the cache that holds a forest and, as its last rule, the mark of the end of
      -- a file: the walk from its start ends after the last rule, with the effect that the forest
      -- means, for any fuel above the number of rules.
      pub walk-section :
          (f : Forest) (last : Rule) (fuel : ℕ) (s : S)
          → Stored rules (section_start sec h) f
          → rule_at (section_start sec h + size f) rules ≡ some last
          → last.rtype ≡ RuleType.rule_eof
          → 0 < last.rule_size
          → section_start sec h + size f + last.rule_size ≡ section_end sec h
          → count f + 1 < fuel
          → go fuel (some (section_start sec h)) s ≡ finished (apply_forest f s)
      walk-section f last fuel s st there eof pos closed enough =
          let (left, room, same) =
            walk-forest f fuel (section_start sec h) (section_start sec h + size f) s st refl
              (omega arith) (omega (arith, closed, pos)) (omega (arith, enough)) in
          same
          ∙ walk-last left (section_start sec h + size f) last (apply_forest f s)
              (omega (arith, room, enough)) there eof (omega arith) pos closed
