-- ===== src/Rules/Sections.antt =====
-- hald/device_info.c: what a search of a section does, as the blocks of its .fdi files say.
use hal.Prelude.{ap, ℕ, suc, ◌+◌, ◌<◌, ◌≤◌, ◌≡◌, true, some, arith, ltb, length}
use hal.Property.Utf8.{Utf8}
use hal.Rules.{Rule, RuleType, Cache, rule_at}
use hal.Rules.Text.{Libc}
use hal.Rules.Tree.{
  Section, section_start, section_end, IsOrdered, Forest, size, count, Stored, apply_forest,
  walk-section,
}
use hal.Rules.Search.{State, state_of, matches, handle_merge, search_and_merge}

not_empty : (a b : ℕ) → a < b → ltb a b ≡ true
not_empty a b h = ground arith

-- Where a section of the cache holds the rules of .fdi files, a match before its block and with the
-- jump behind it, and the mark of the end of a file as its last rule, the search of the section
-- on a device applies the rules in their order, and the rules of a block exactly where its match
-- holds at that point.
pub search_and_merge-forest :
    (utf8 : Utf8) (libc : Libc) (cache : Cache) (depth : ℕ) (sec : Section) (d : ℕ) (f : Forest)
    (last : Rule) (s : State)
    → IsOrdered cache.header
    → Stored cache.rules (section_start sec cache.header) f
    → rule_at (section_start sec cache.header + size f) cache.rules ≡ some last
    → last.rtype ≡ RuleType.rule_eof
    → 0 < last.rule_size
    → section_start sec cache.header + size f + last.rule_size ≡ section_end sec cache.header
    → count f ≤ length cache.rules
    → search_and_merge utf8 libc cache (suc depth) sec d s
      ≡ apply_forest
          (matches libc d)
          (handle_merge utf8 libc (search_and_merge utf8 libc cache depth) d)
          f
          s
unfolding search_and_merge
search_and_merge-forest utf8 libc cache depth sec d f last s ordered stored there eof pos closed
      room =
    rw
      (
        not_empty (section_start sec cache.header) (section_end sec cache.header)
            (omega (arith, closed, pos)),
        search_and_merge,
      )
      (ap state_of (
        walk-section (matches libc d)
          (handle_merge utf8 libc (search_and_merge utf8 libc cache depth) d) cache.header
          cache.rules sec ordered f last (length cache.rules + 2) s stored there eof pos closed
          (omega (arith, room))))
