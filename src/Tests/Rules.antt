-- ===== src/Tests/Rules.antt =====
-- Runs of the rules of hald/device_info.c on a cache of three rules.
use hal.Prelude.{
  ℕ, ◌+◌, ◌-◌, ◌*◌, ◌≡◌, refl, true, not, ◌==◌, some, [], ◌∷◌, Bytes, codes, arith, leb, ltb,
  lookup, insert, str_eq,
}
use hal.Property.{uint64}
use hal.World.{World, property_find, table_insert}
use hal.World.Emit.{emit, deliver}
use hal.Device.{device_new}
use hal.Device.Set.{store_value, set_uint64}
use hal.Rules.{
  Rule, CacheHeader, Cache, rule_at, rule_match, rule_merge, rule_eof, match_unknown, match_string,
  merge_unknown, merge_string, match_compare_lt, match_compare_le, match_compare_gt,
  match_compare_ge, match_compare_ne,
}
use hal.Rules.Text.{Libc, ascii_down}
use hal.Rules.Match.{match_property}
use hal.Rules.Search.{State, matches, handle_merge, search_and_merge}
use hal.Rules.Tree.{Forest, nothing, action, block, Stored, information, apply_forest, IsOrdered}
use hal.Rules.Sections.{search_and_merge-forest}
use hal.Rules.Compare.{match_compare_uint64, match_compare_lt_large}
use hal.Tests.Fixture.{ascii, subsystem, one_device, stored_world}

-- Decimal digits only.
abbrev digits : ℕ → Bytes → ℕ
digits n [] = n
digits n (c ∷ s) = digits (n * 10 + (c - 48)) s

abbrev libc : Libc
libc = record {
  strtol = digits 0;
  strtoll = digits 0;
  strtoull = digits 0;
  atof = digits 0;
  ceil_difference = λ a b. a - b;
  utf8_strdown = ascii_down;
  print_double = λ d. [];
  stack = [];
}

-- <match key="info.subsystem" string="usb"><merge key="info.category">hub</merge></match>
abbrev is_usb : Rule
is_usb = record {
  rule_size = 40;
  jump_position = 70;
  rtype = rule_match;
  type_match = match_string;
  type_merge = merge_unknown;
  key = subsystem;
  value = codes "usb";
}

abbrev category : Bytes
category = codes "info.category"

abbrev set_category : Rule
set_category = record {
  rule_size = 30;
  jump_position = 0;
  rtype = rule_merge;
  type_match = match_unknown;
  type_merge = merge_string;
  key = category;
  value = codes "hub";
}

abbrev end_of_file : Rule
end_of_file = record {
  rule_size = 20;
  jump_position = 0;
  rtype = rule_eof;
  type_match = match_unknown;
  type_merge = merge_unknown;
  key = [];
  value = [];
}

abbrev header : CacheHeader
header = record {
  fdi_rules_preprobe = 0;
  fdi_rules_information = 0;
  fdi_rules_policy = 90;
  all_rules_size = 90;
}

abbrev cache : Cache
cache = record {
  header = header;
  rules = (0, is_usb) ∷ (40, set_category) ∷ (70, end_of_file) ∷ [];
}

abbrev hub : Forest
hub = block is_usb (action set_category nothing) nothing

abbrev start : State
start = some (record { world = stored_world; in_callouts = [] })

hub-Stored : Stored cache.rules 0 hub
unfolding Stored rule_at
hub-Stored = (refl, refl, omega arith, refl, (refl, refl, omega arith, tt), tt)

header-IsOrdered : IsOrdered header
header-IsOrdered = record { first = omega arith; second = omega arith; third = omega arith }

last_rule : rule_at 70 cache.rules ≡ some end_of_file
unfolding rule_at
last_rule = refl

search_and_merge-forest_example :
    search_and_merge ascii libc cache 1 information 0 start
    ≡ apply_forest
        (matches libc 0)
        (handle_merge ascii libc (search_and_merge ascii libc cache 0) 0)
        hub
        start
search_and_merge-forest_example =
    search_and_merge-forest ascii libc cache 0 information 0 hub end_of_file start header-IsOrdered
      hub-Stored last_rule refl (omega arith) refl (omega arith)

abbrev capacity : Bytes
capacity = codes "storage.size"

abbrev small_disk : World
small_disk = (set_uint64 0 capacity 4000 one_device).1

abbrev large_disk : World
large_disk = (set_uint64 0 capacity 18446744073709551615 one_device).1

small_disk-find : property_find 0 capacity small_disk ≡ some (uint64 4000)
unfolding property_find set_uint64 store_value device_new emit deliver table_insert insert lookup
    str_eq
small_disk-find = refl

large_disk-find : property_find 0 capacity large_disk ≡ some (uint64 18446744073709551615)
unfolding property_find set_uint64 store_value device_new emit deliver table_insert insert lookup
    str_eq
large_disk-find = refl

match_compare_uint64_example :
    (match_property libc match_compare_lt 0 capacity (codes "5000") small_disk
      ≡ ltb 4000 (libc.strtoll (codes "5000")))
    × (match_property libc match_compare_le 0 capacity (codes "5000") small_disk
        ≡ leb 4000 (libc.strtoll (codes "5000")))
    × (match_property libc match_compare_gt 0 capacity (codes "5000") small_disk
        ≡ ltb (libc.strtoll (codes "5000")) 4000)
    × (match_property libc match_compare_ge 0 capacity (codes "5000") small_disk
        ≡ leb (libc.strtoll (codes "5000")) 4000)
    × (match_property libc match_compare_ne 0 capacity (codes "5000") small_disk
        ≡ not (4000 == libc.strtoll (codes "5000")))
match_compare_uint64_example =
    match_compare_uint64 libc 0 capacity (codes "5000") 4000 small_disk small_disk-find
      (omega arith) (omega arith)

match_compare_lt_large_example :
    match_property libc match_compare_lt 0 capacity (codes "5") large_disk ≡ true
match_compare_lt_large_example =
    match_compare_lt_large libc 0 capacity (codes "5") 18446744073709551615 large_disk
      large_disk-find (omega arith) (omega arith) (omega arith)
