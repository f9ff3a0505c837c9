-- ===== src/Device/Print.antt =====
-- hald/device.c: `hal_device_property_get_as_string`, into a buffer of the caller.
use hal.Prelude.{
  ℕ, ◌-◌, Bool, true, false, none, some, List, [], ◌∷◌, ◌++◌, if◌then◌else◌, Bytes, codes, take,
  drop,
}
use hal.Property.{Property, string, int32, uint64, boolean, double, strlist, decimal, decimal_int}
use hal.World.{World, property_find}

-- Each element and a tab behind it.
unfoldable pub with_tabs : List Bytes → Bytes
with_tabs [] = []
with_tabs (x ∷ l) = x ++ (9 ∷ with_tabs l)

-- The text in a buffer of `bufsize` bytes that held `old`. An empty list writes one tab and no end
-- of the text, so that what was behind it is still there.
unfoldable pub print_value : (ℕ → Bytes) → ℕ → Bytes → Property → Bytes
unfolding with_tabs
print_value print_double bufsize old (string s) = take bufsize s
print_value print_double bufsize old (int32 n) = take (bufsize - 1) (decimal_int n)
print_value print_double bufsize old (uint64 n) = take (bufsize - 1) (decimal n)
print_value print_double bufsize old (double x) = take (bufsize - 1) (print_double x)
print_value print_double bufsize old (boolean b) =
    take bufsize (if b then codes "true" else codes "false")
print_value print_double bufsize old (strlist []) = take bufsize (9 ∷ drop 1 old)
print_value print_double bufsize old (strlist (x ∷ l)) = take bufsize (9 ∷ with_tabs (x ∷ l))

-- Is there a value, and what is in the buffer afterwards?
unfoldable pub get_as_string : (ℕ → Bytes) → ℕ → Bytes → ℕ → Bytes → World → Bool × Bytes
unfolding print_value
get_as_string print_double bufsize old d key w = elim (property_find d key w) [
  | none ↦ (false, [])
  | some p ↦ (true, print_value print_double bufsize old p)
]
