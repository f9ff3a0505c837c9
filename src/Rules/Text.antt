-- ===== src/Rules/Text.antt =====
-- hald/device_info.c: the string functions of the C library and of GLib that the rules use, and the
-- functions of the libraries that are parameters.
use hal.Prelude.{
  ℕ, zero, suc, ◌+◌, ◌-◌, ◌%◌, ◌^◌, Bool, true, false, ◌&&◌, ◌||◌, List, [], ◌∷◌, ◌++◌, ◌==◌,
  if◌then◌else◌, ltb, leb, Bytes, str_eq, starts_with, length, drop,
}
use hal.Property.{ℤ, pos, negsuc}

-- Numbers and texts that the C library and GLib read and write: `strtol` and its kin give the
-- 64-bit pattern of their result, `atof` that of a double, `ceil_difference` the 64-bit pattern of
-- the integer above a difference of doubles; `print_double` is `%f`. `stack` is what a local buffer
-- holds before it is written.
pub record Libc : Type 0 where
  pub strtol : Bytes → ℕ
  pub strtoll : Bytes → ℕ
  pub strtoull : Bytes → ℕ
  pub atof : Bytes → ℕ
  pub ceil_difference : ℕ → ℕ → ℕ
  pub utf8_strdown : Bytes → Bytes
  pub print_double : ℕ → Bytes
  pub stack : Bytes

-- An `int` or `dbus_int64_t` as its 64-bit pattern, and the `int` that the low half of one is.
abbrev pub pattern64 : ℤ → ℕ
pattern64 (pos n) = n
pattern64 (negsuc n) = 2 ^ 64 - 1 - n

abbrev pub to_int32 : ℕ → ℤ
to_int32 p = let low = p % 2 ^ 32 in if ltb low (2 ^ 31) then pos low else negsuc (2 ^ 32 - 1 - low)

abbrev pub is_negative64 : ℕ → Bool
is_negative64 p = leb (2 ^ 63) p

-- `strstr (haystack, needle) != NULL`
unfoldable pub strstr : Bytes → Bytes → Bool
unfolding starts_with
strstr [] needle = starts_with needle []
strstr (c ∷ haystack) needle = starts_with needle (c ∷ haystack) || strstr haystack needle

-- `g_str_has_suffix`
unfoldable pub has_suffix : Bytes → Bytes → Bool
has_suffix s suffix =
    if ltb (length s) (length suffix)
    then false
    else str_eq (drop (length s - length suffix) s) suffix

-- The sign of `strcmp`, as the 64-bit pattern of -1, 0 or 1.
unfoldable pub strcmp : Bytes → Bytes → ℕ
strcmp [] [] = 0
strcmp [] (b ∷ t) = 2 ^ 64 - 1
strcmp (a ∷ s) [] = 1
strcmp (a ∷ s) (b ∷ t) =
    let rest = strcmp s t in if a == b then rest else if ltb a b then 2 ^ 64 - 1 else 1

-- `g_strsplit` at one byte, into at most so many pieces, 0 for no limit: an empty text has none.
unfoldable pub pieces : ℕ → ℕ → Bytes → Bytes → List Bytes
pieces at rounds current [] = current ∷ []
pieces at zero current (c ∷ s) = (current ++ (c ∷ s)) ∷ []
pieces at (suc rounds) current (c ∷ s) =
    let cut = pieces at rounds [] s in
    let kept = pieces at (suc rounds) (current ++ (c ∷ [])) s in
    if c == at then current ∷ cut else kept

unfoldable pub strsplit : ℕ → ℕ → Bytes → List Bytes
unfolding pieces
strsplit at max [] = []
strsplit at max (c ∷ s) = pieces at (if max == 0 then length (c ∷ s) else max - 1) [] (c ∷ s)

-- `g_ascii_strcasecmp`
abbrev pub ascii_lower : ℕ → ℕ
ascii_lower c = if leb 65 c && leb c 90 then c + 32 else c

abbrev pub ascii_down : Bytes → Bytes
ascii_down [] = []
ascii_down (c ∷ s) = ascii_lower c ∷ ascii_down s

unfoldable pub ascii_same : Bytes → Bytes → Bool
ascii_same a b = str_eq (ascii_down a) (ascii_down b)

unfoldable pub is_ascii_text : Bytes → Bool
is_ascii_text [] = true
is_ascii_text (c ∷ s) = let rest = is_ascii_text s in if ltb 0x7f c then false else rest

-- `g_path_is_absolute`
abbrev pub is_absolute : Bytes → Bool
is_absolute [] = false
is_absolute (c ∷ s) = c == b'/'

unfoldable pub any_text : (Bytes → Bool) → List Bytes → Bool
any_text test [] = false
any_text test (x ∷ l) = let rest = any_text test l in if test x then true else rest

-- `char buf[HAL_PATH_MAX]`
abbrev pub hal_path_max : ℕ
hal_path_max = 512
