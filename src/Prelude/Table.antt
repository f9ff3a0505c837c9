-- ===== src/Prelude/Table.antt =====
-- Tables keyed by strings (`GHashTable`), as association lists. The order of the entries stands
-- for the order, which GLib leaves open, in which the table is walked.
use mathlib.Core.Path.{◌≡◌, refl}
use mathlib.Core.List.{List, [], ◌∷◌, map}
use mathlib.Core.Option.{Option, none, some}
use native.Mathlib.Omega.{arith}
use hal.Prelude.Tests.{if◌then◌else◌}
use hal.Prelude.Text.{Bytes, str_eq, eq_iff}

abbrev pub Assoc {ℓ} : Type ℓ → Type ℓ
Assoc V = List (Bytes × V)

module _ {ℓ} {V : Type ℓ} where
  unfoldable pub lookup : Bytes → Assoc V → Option V
  lookup k [] = none
  lookup k ((j, v) ∷ t) = if str_eq j k then some v else lookup k t

  -- Replaces the value and keeps the place of a key that is there.
  unfoldable pub insert : Bytes → V → Assoc V → Assoc V
  insert k v [] = (k, v) ∷ []
  insert k v ((j, w) ∷ t) = if str_eq j k then (j, v) ∷ t else (j, w) ∷ insert k v t

  unfoldable pub remove : Bytes → Assoc V → Assoc V
  remove k [] = []
  remove k ((j, v) ∷ t) = let rest = remove k t in if str_eq j k then rest else (j, v) ∷ rest

  abbrev pub keys : Assoc V → List Bytes
  keys = map (λ e. e.0)

  pub lookup-insert :
      (k j : Bytes) (v : V) (t : Assoc V)
      → lookup j (insert k v t) ≡ (if str_eq k j then some v else lookup j t)
  unfolding lookup insert
  lookup-insert k j v [] = refl
  lookup-insert k j v ((i, w) ∷ t) =
      ground (arith, eq_iff k j, eq_iff i k, eq_iff i j, lookup-insert k j v t)

  pub lookup-remove :
      (k j : Bytes) (t : Assoc V)
      → lookup j (remove k t) ≡ (if str_eq k j then none else lookup j t)
  unfolding lookup remove
  lookup-remove k j [] = ground arith
  lookup-remove k j ((i, v) ∷ t) =
      ground (arith, lookup-remove k j t, eq_iff i k, eq_iff i j, eq_iff k j)
