-- ===== src/Property/Strlists.antt =====
-- hald/device.c: the removal of a string from a list finds its index first, and then deletes there.
use native.Mathlib.Nat.{add-zero}
use hal.Prelude.{
  ℕ, suc, ◌+◌, ◌<◌, ◌≡◌, refl, true, false, none, some, List, [], ◌∷◌, arith, Bytes, str_eq,
  contains, remove_first, length, delete_at, Bool-cases, inl, inr,
}
use hal.Property.{strlist, index_from, strlist_remove}

index_from_absent :
    (v : Bytes) (i : ℕ) (l : List Bytes)
    → contains v l ≡ false
    → (index_from v i l ≡ none) × (remove_first v l ≡ l)
unfolding contains index_from remove_first
index_from_absent v i [] h = (refl, refl)
index_from_absent v i (x ∷ l) h = elim (Bool-cases (str_eq x v)) [
  | inl same ↦ absurd (ground (arith, same))
  | inr other ↦
      let (none_later, kept) = index_from_absent v (i + 1) l (ground (arith, other)) in
      (rw other none_later, rw (other, kept))
]

index_from_present :
    (v : Bytes) (i : ℕ) (l : List Bytes)
    → contains v l ≡ true
    → (n : ℕ) × (index_from v i l ≡ some (i + n))
      × (n < length l)
      × (delete_at l n ≡ remove_first v l)
unfolding contains index_from remove_first
index_from_present v i [] h = absurd (ground arith)
index_from_present v i (x ∷ l) h = elim (Bool-cases (str_eq x v)) [
  | inl same ↦ (0, rw (same, add-zero), omega arith, rw same)
  | inr other ↦
      let (n, found, below, deleted) = index_from_present v (i + 1) l (ground (arith, other)) in
      (suc n, rw (other, found) (ground arith), omega (arith, below), rw (other, deleted))
]

pub remove_first_absent : (v : Bytes) (l : List Bytes) → contains v l ≡ false → remove_first v l ≡ l
remove_first_absent v l h = (index_from_absent v 0 l h).1

-- `hal_property_strlist_remove` on a string list: the first occurrence of the value goes, the rest
-- of the list stays, and the result says whether there was one.
pub strlist_remove_lem :
    (v : Bytes) (l : List Bytes)
    → strlist_remove v (strlist l) ≡ (contains v l, strlist (remove_first v l))
unfolding strlist_remove
strlist_remove_lem v l = elim (Bool-cases (contains v l)) [
  | inl here ↦
      let (n, found, below, deleted) = index_from_present v 0 l here in
      ground (arith, here, found, below, deleted)
  | inr absent ↦
      let (none_found, kept) = index_from_absent v 0 l absent in
      ground (arith, absent, none_found, kept)
]
