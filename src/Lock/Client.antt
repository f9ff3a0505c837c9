-- ===== src/Lock/Client.antt =====
-- hald/device.c: the inner loop of `hal_device_client_disconnected`, which releases every lock of a
-- device for a client that has gone.
use hal.Prelude.{
  ℕ, ◌≡◌, refl, ap, ◌∙◌, Bool, true, false, List, [], ◌∷◌, if◌then◌else◌, arith, Bytes, str_eq,
  eq_iff, eq_refl, contains, Bool-cases, inl, inr,
}
use mathlib.Core.Path.{subst}
use hal.World.{World, property_find}
use hal.Lock.{Part, lock_key, release_lock, release_locks}
use hal.Lock.Key.{IsShort}
use hal.Lock.View.{
  LockState, free, held, is_held, release_state, part_property, Locks, with_state, all_distinct,
}
use hal.Lock.Release.{release_lock-Locks}

-- The states after the caller has left the locks of a list.
abbrev without_client : Bytes → List Bytes → (Bytes → LockState) → Bytes → LockState
without_client sender todo state n =
    if contains n todo then (release_state sender (state n)).1 else state n

without_client_step :
    (sender name : Bytes) (rest : List Bytes) (state : Bytes → LockState)
    → contains name rest ≡ false
    → (n : Bytes)
    → without_client sender rest (with_state state name (release_state sender (state name)).1) n
      ≡ without_client sender (name ∷ rest) state n
unfolding contains
without_client_step sender name rest state h n = elim (Bool-cases (str_eq name n)) [
  | inl same ↦
      subst
        (λ m.
          without_client sender rest (with_state state name (release_state sender (state name)).1) m
          ≡ without_client sender (name ∷ rest) state m)
        ((eq_iff name n).0 same) (rw (h, eq_refl name) refl)
  | inr other ↦ rw other refl
]

Short : List Bytes → Type 0
Short todo = (n : Bytes) → contains n todo ≡ true → IsShort n

left_free :
    (sender : Bytes) (st : LockState) (b : Bool)
    → b ≡ is_held st
    → (if b then (release_state sender st).1 else st) ≡ (release_state sender st).1
unfolding release_state
left_free sender free b h = ground arith
left_free sender (held x first l) b h = rw h refl

module _ (d : ℕ) (sender : Bytes) where
  release_locks-Locks :
      (todo : List Bytes) (state : Bytes → LockState) (names : List Bytes) (w : World)
      → all_distinct todo ≡ true
      → Short todo
      → Locks d w state names
      → (left : List Bytes) × Locks d
          (release_locks d sender todo w)
          (without_client sender todo state)
          left
  unfolding release_locks all_distinct contains Short
  release_locks-Locks [] state names w one short h = (names, h)
  release_locks-Locks (name ∷ rest) state names w one short h =
      let locks =
        (release_lock-Locks d name sender (short name (rw (eq_refl name) refl)) state names w
          h).1 in
      let v = (release_lock d name sender w).1 in
      let (left, result) =
        release_locks-Locks rest _ _ v (ground arith) (λ n c. short n (ground arith)) locks in
      (
        left,
        subst (λ state'. Locks d (release_locks d sender rest v) state' left)
            (λ i n. without_client_step sender name rest state (ground arith) n i) result,
      )

-- Where the device's properties represent its locks, the client leaves all of them: for each lock
-- whose name fits the buffer, the properties after the loop over the held locks' names are those
-- of the lock after a release by the client.
pub find-release_locks :
    (d : ℕ) (sender : Bytes) (state : Bytes → LockState) (names : List Bytes) (w : World) (p : Part)
    (n : Bytes)
    → IsShort n
    → Locks d w state names
    → property_find d (lock_key p n) (release_locks d sender names w)
      ≡ part_property p (release_state sender (state n)).1
unfolding Short
find-release_locks d sender state names w p n short h =
    (release_locks-Locks d sender names state names w h.distinct h.short_names h).1.parts p n short
    ∙ ap (part_property p) (left_free sender (state n) (contains n names) (h.held_names n short))
