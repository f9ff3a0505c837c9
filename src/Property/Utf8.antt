-- ===== src/Property/Utf8.antt =====
-- hald/device.c, `hal_property_set_string`: a text is stored with every invalid byte replaced.
use hal.Prelude.{
  ℕ, zero, suc, ◌+◌, ◌<◌, ◌≡◌, refl, Option, none, some, [], ◌∷◌, arith, Bytes, length, set,
  length-set, get_elem?, Option-cases, ◌⊎◌, inl, inr, ◌∙◌,
}

-- `g_utf8_validate` of GLib: `none` for a valid text, else the place where the valid part ends.
-- Documented: the place lies in the text, and a valid part stays valid when the text changes
-- behind it, so that a '?' written there moves the end on.
pub record Utf8 : Type 0 where
  pub validate : Bytes → Option ℕ
  pub inside : (s : Bytes) (i : ℕ) → validate s ≡ some i → i < length s
  pub advances :
      (s : Bytes) (i j : ℕ) → validate s ≡ some i → validate (set s i b'?') ≡ some j → i < j

module _ (utf8 : Utf8) where
  open utf8 use {validate, inside, advances}

  -- The loop of `hal_property_set_string`, on fuel.
  replace_invalid : ℕ → Bytes → Bytes
  replace_invalid zero s = s
  replace_invalid (suc fuel) s = elim (validate s) [
    | none ↦ s
    | some i ↦ replace_invalid fuel (set s i b'?')
  ]

  -- Each round moves the end of the valid part on by one byte or more, so the length and one are
  -- rounds enough.
  unfoldable pub sanitize : Bytes → Bytes
  unfolding replace_invalid
  sanitize s = replace_invalid (length s + 1) s

  -- The value that a call with the text, or with NULL, stores.
  unfoldable pub stored_string : Option Bytes → Bytes
  stored_string none = sanitize []
  stored_string (some s) = sanitize s

  replace_invalid-valid :
      (fuel : ℕ) (s : Bytes)
      → ((i : ℕ) → validate s ≡ some i → length s < fuel + i)
      → validate (replace_invalid fuel s) ≡ none
  unfolding replace_invalid
  replace_invalid-valid zero s room = elim (Option-cases (validate s)) [
    | inl valid ↦ valid
    | inr (i, e) ↦ absurd (omega (arith, room i e, inside s i e))
  ]
  replace_invalid-valid (suc fuel) s room = elim (Option-cases (validate s)) [
    | inl valid ↦ rw (valid, replace_invalid) valid
    | inr (i, e) ↦
        rw (e, replace_invalid)
          (replace_invalid-valid fuel (set s i b'?')
            (λ j q. omega (arith, room i e, advances s i j e q, length-set s i b'?')))
  ]

  length-replace_invalid : (fuel : ℕ) (s : Bytes) → length (replace_invalid fuel s) ≡ length s
  unfolding replace_invalid
  length-replace_invalid zero s = refl
  length-replace_invalid (suc fuel) s = elim (Option-cases (validate s)) [
    | inl valid ↦ rw (valid, replace_invalid)
    | inr (i, e) ↦
        rw (e, replace_invalid) (length-replace_invalid fuel (set s i b'?') ∙ length-set s i b'?')
  ]

  -- Each byte of `t` is that of `s` or a question mark.
  abbrev Masked : Bytes → Bytes → Type 0
  Masked t s = (k : ℕ) → (get_elem? t k ≡ get_elem? s k) ⊎ (get_elem? t k ≡ some b'?')

  set-Masked : (s : Bytes) (i : ℕ) → Masked (set s i b'?') s
  set-Masked [] i k = inl refl
  set-Masked (c ∷ s) zero zero = inr refl
  set-Masked (c ∷ s) zero (suc k) = inl refl
  set-Masked (c ∷ s) (suc i) zero = inl refl
  set-Masked (c ∷ s) (suc i) (suc k) = set-Masked s i k

  Masked-trans : (t u s : Bytes) → Masked t u → Masked u s → Masked t s
  Masked-trans t u s p q k = elim (p k) [
    | inr mark ↦ inr mark
    | inl same ↦ elim (q k) [ inl e ↦ inl (same ∙ e) | inr mark ↦ inr (same ∙ mark) ]
  ]

  replace_invalid-Masked : (fuel : ℕ) (s : Bytes) → Masked (replace_invalid fuel s) s
  unfolding replace_invalid
  replace_invalid-Masked zero s = λ k. inl refl
  replace_invalid-Masked (suc fuel) s = elim (Option-cases (validate s)) [
    | inl valid ↦ rw (valid, replace_invalid) (λ k. inl refl)
    | inr (i, e) ↦
        rw (e, replace_invalid)
          (Masked-trans (replace_invalid fuel (set s i b'?')) (set s i b'?') s
            (replace_invalid-Masked fuel (set s i b'?')) (set-Masked s i))
  ]

  -- For every text the loop of `hal_property_set_string` ends with a valid text of the same
  -- length, in which each byte is the old one or a question mark.
  pub sanitize-valid :
      (s : Bytes) (k : ℕ)
      → (validate (sanitize s) ≡ none)
        × (length (sanitize s) ≡ length s)
        × ((get_elem? (sanitize s) k ≡ get_elem? s k) ⊎ (get_elem? (sanitize s) k ≡ some b'?'))
  unfolding sanitize
  sanitize-valid s k = (
    replace_invalid-valid (length s + 1) s (λ i e. omega arith),
    length-replace_invalid (length s + 1) s,
    replace_invalid-Masked (length s + 1) s k,
  )
