-- ===== src/Prelude/Text.antt =====
-- C strings as lists of bytes, and lists of strings (`GSList` of `char *`).
use Prim.Native.Nat.{ℕ}
use Prim.Native.Char.{code}
use Prim.Native.String.{String}
use mathlib.Core.Path.{◌≡◌, refl}
use mathlib.Core.Logic.{◌↔◌}
use mathlib.Core.Bool.{Bool, true, false}
use mathlib.Core.List.{List, [], ◌∷◌}
use native.Mathlib.Omega.{arith}
use hal.Prelude.Tests.{◌==◌, if◌then◌else◌}

abbrev pub Bytes : Type 0
Bytes = List ℕ

-- The bytes of an ASCII literal.
abbrev pub codes : String → Bytes
codes String.[] = []
codes (String.◌∷◌ c s) = code c ∷ codes s

-- `strcmp (a, b) == 0`
unfoldable pub str_eq : Bytes → Bytes → Bool
str_eq [] [] = true
str_eq [] (b ∷ bs) = false
str_eq (a ∷ as') [] = false
str_eq (a ∷ as') (b ∷ bs) = if a == b then str_eq as' bs else false

pub eq_iff : (a b : Bytes) → (str_eq a b ≡ true) ↔ (a ≡ b)
unfolding str_eq
eq_iff [] [] = ground arith
eq_iff [] (b ∷ bs) = ground arith
eq_iff (a ∷ as') [] = ground arith
eq_iff (a ∷ as') (b ∷ bs) = ground (arith, eq_iff as' bs)

pub eq_refl : (a : Bytes) → str_eq a a ≡ true
eq_refl a = (eq_iff a a).1 refl

-- `strncmp (prefix, s, strlen (prefix)) == 0`
unfoldable pub starts_with : Bytes → Bytes → Bool
starts_with [] s = true
starts_with (p ∷ ps) [] = false
starts_with (p ∷ ps) (c ∷ cs) = if p == c then starts_with ps cs else false

-- The comparison of two string lists, element by element and at the same length.
unfoldable pub strlist_eq : List Bytes → List Bytes → Bool
strlist_eq [] [] = true
strlist_eq [] (y ∷ ys) = false
strlist_eq (x ∷ xs) [] = false
strlist_eq (x ∷ xs) (y ∷ ys) = if str_eq x y then strlist_eq xs ys else false

pub strlist_eq_iff : (a b : List Bytes) → (strlist_eq a b ≡ true) ↔ (a ≡ b)
unfolding strlist_eq
strlist_eq_iff [] [] = ground arith
strlist_eq_iff [] (b ∷ bs) = ground arith
strlist_eq_iff (a ∷ as') [] = ground arith
strlist_eq_iff (a ∷ as') (b ∷ bs) = ground (arith, eq_iff a b, strlist_eq_iff as' bs)

-- Is the string one of the list?
unfoldable pub contains : Bytes → List Bytes → Bool
contains s [] = false
contains s (x ∷ xs) = if str_eq x s then true else contains s xs

-- The list without the first occurrence of the string.
unfoldable pub remove_first : Bytes → List Bytes → List Bytes
remove_first s [] = []
remove_first s (x ∷ xs) = if str_eq x s then xs else x ∷ remove_first s xs
