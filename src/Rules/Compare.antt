-- ===== src/Rules/Compare.antt =====
-- hald/device_info.c: where the comparisons of the rules are those of the numbers.
use hal.Prelude.{
  ap, ◌∙◌, ℕ, ◌+◌, ◌-◌, ◌%◌, ◌^◌, ◌<◌, ◌≤◌, ◌≡◌, refl, Bool, true, false, not, ◌||◌, Option, none,
  some, arith, ltb, leb, ◌==◌, Bytes,
}
use hal.Property.{uint64, type_uint64}
use hal.World.{World, property_find, property_get_type}
use hal.Device.{has_property, get_uint64}
use hal.Rules.{
  match_compare_lt, match_compare_le, match_compare_gt, match_compare_ge, match_compare_ne,
}
use hal.Rules.Text.{Libc, is_negative64}
use hal.Rules.Match.{compare, is_positive64, match_compare_property, match_property}

compare_uint64 :
    (libc : Libc) (d : ℕ) (key value : Bytes) (n : ℕ) (w : World)
    → property_find d key w ≡ some (uint64 n)
    → match_compare_property libc d key value w ≡ some ((n + 2 ^ 64 - libc.strtoll value) % 2 ^ 64)
unfolding match_compare_property
compare_uint64 libc d key value n w h =
    let there : has_property d key w ≡ true = unfold has_property in ground arith in
    let type : property_get_type d key w ≡ type_uint64 = unfold property_get_type in ground arith in
    let number : get_uint64 d key w ≡ n = unfold get_uint64 in ground arith in
    rw (there, type, number, match_compare_property) refl

compared :
    (libc : Libc) (test : ℕ → Bool) (d : ℕ) (key value : Bytes) (n : ℕ) (w : World)
    → property_find d key w ≡ some (uint64 n)
    → compare libc test d key value w ≡ test ((n + 2 ^ 64 - libc.strtoll value) % 2 ^ 64)
compared libc test d key value n w h =
    ap (λ (o : Option ℕ). elim o [ none ↦ false | some result ↦ test result ])
      (compare_uint64 libc d key value n w h)

-- For a 64-bit unsigned property and a number below 2^63 both, the rules compare_lt, compare_le,
-- compare_gt, compare_ge and compare_ne are the comparisons of the two numbers.
pub match_compare_uint64 :
    (libc : Libc) (d : ℕ) (key value : Bytes) (n : ℕ) (w : World)
    → property_find d key w ≡ some (uint64 n)
    → n < 2 ^ 63
    → libc.strtoll value < 2 ^ 63
    → (match_property libc match_compare_lt d key value w ≡ ltb n (libc.strtoll value))
      × (match_property libc match_compare_le d key value w ≡ leb n (libc.strtoll value))
      × (match_property libc match_compare_gt d key value w ≡ ltb (libc.strtoll value) n)
      × (match_property libc match_compare_ge d key value w ≡ leb (libc.strtoll value) n)
      × (match_property libc match_compare_ne d key value w ≡ not (n == libc.strtoll value))
unfolding match_property
match_compare_uint64 libc d key value n w h small small' = (
  compared libc is_negative64 d key value n w h ∙ ground arith,
  compared libc (λ p. is_negative64 p || p == 0) d key value n w h ∙ ground arith,
  compared libc (is_positive64 libc) d key value n w h ∙ ground arith,
  compared libc (λ p. not (is_negative64 p)) d key value n w h ∙ ground arith,
  compared libc (λ p. not (p == 0)) d key value n w h ∙ ground arith,
)

-- A 64-bit unsigned property of 2^63 or more passes for less than every number from 0 to the
-- property's distance above 2^63.
pub match_compare_lt_large :
    (libc : Libc) (d : ℕ) (key value : Bytes) (n : ℕ) (w : World)
    → property_find d key w ≡ some (uint64 n)
    → 2 ^ 63 ≤ n
    → n < 2 ^ 64
    → libc.strtoll value + 2 ^ 63 ≤ n
    → match_property libc match_compare_lt d key value w ≡ true
unfolding match_property
match_compare_lt_large libc d key value n w h large word near =
    compared libc is_negative64 d key value n w h ∙ ground arith
