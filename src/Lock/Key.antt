-- ===== src/Lock/Key.antt =====
-- hald/device.c: the property keys of different locks, and of the parts of one lock, differ as long
-- as the name of the lock fits the buffer.
use mathlib.Core.List.{reverse, reverse-append, reverse-reverse}
use hal.Prelude.{
  ℕ, ◌≤◌, ◌≡◌, ◌∙◌, sym, refl, ap, Bool, true, false, ◌&&◌, [], ◌∷◌, ◌++◌, arith, Bytes, codes,
  str_eq, eq_iff, length, drop, take_of_length-le, length-append, Bool-cases, inl, inr,
}
use hal.Lock.{Part, exclusive_part, locked_part, dbus_name_part, suffix, named_locks, lock_key}

-- "info.named_locks." and the longest suffix leave 228 of the 255 bytes.
abbrev pub IsShort : Bytes → Type 0
IsShort name = length name ≤ 228

abbrev pub same_part : Part → Part → Bool
same_part exclusive_part exclusive_part = true
same_part locked_part locked_part = true
same_part dbus_name_part dbus_name_part = true
same_part _ _ = false

lock_key_short :
    (p : Part) (name : Bytes)
    → IsShort name
    → lock_key p name ≡ codes "info.named_locks." ++ (name ++ suffix p)
unfolding lock_key
lock_key_short exclusive_part name h =
    take_of_length-le 255 _ (omega (arith, length-append name (codes ".exclusive")))
lock_key_short locked_part name h =
    take_of_length-le 255 _ (omega (arith, length-append name (codes ".locked")))
lock_key_short dbus_name_part name h =
    take_of_length-le 255 _ (omega (arith, length-append name (codes ".dbus_name")))

-- What follows the common prefix.
without_prefix : Bytes → Bytes
without_prefix
      (c1 ∷ c2 ∷ c3 ∷ c4 ∷ c5 ∷ c6 ∷ c7 ∷ c8 ∷ c9 ∷ c10 ∷ c11 ∷ c12 ∷ c13 ∷ c14 ∷ c15 ∷ c16 ∷ c17
        ∷ s) =
    s
without_prefix s = s

parts_eq :
    (p q : Part) (m n : Bytes)
    → IsShort m
    → IsShort n
    → lock_key p m ≡ lock_key q n
    → m ++ suffix p ≡ n ++ suffix q
unfolding without_prefix
parts_eq p q m n hm hn e =
    ap without_prefix (sym (lock_key_short p m hm) ∙ e ∙ lock_key_short q n hn)

backwards :
    (p q : Part) (m n : Bytes)
    → m ++ suffix p ≡ n ++ suffix q
    → reverse (suffix p) ++ reverse m ≡ reverse (suffix q) ++ reverse n
backwards p q m n e = sym (reverse-append m (suffix p)) ∙ ap reverse e ∙ reverse-append n (suffix q)

same_name : (m n : Bytes) → reverse m ≡ reverse n → m ≡ n
same_name m n e = sym (reverse-reverse m) ∙ ap reverse e ∙ reverse-reverse n

abbrev first_byte : Bytes → ℕ
first_byte [] = 0
first_byte (c ∷ s) = c

abbrev second_byte : Bytes → ℕ
second_byte [] = 0
second_byte (c ∷ s) = first_byte s

parts_inj :
    (p q : Part) (m n : Bytes)
    → reverse (suffix p) ++ reverse m ≡ reverse (suffix q) ++ reverse n
    → (same_part p q ≡ true) × (reverse m ≡ reverse n)
parts_inj exclusive_part exclusive_part m n e = (refl, ap (drop 10) e)
parts_inj exclusive_part locked_part m n e = absurd (omega (arith, ap first_byte e))
parts_inj exclusive_part dbus_name_part m n e = absurd (omega (arith, ap second_byte e))
parts_inj locked_part exclusive_part m n e = absurd (omega (arith, ap first_byte e))
parts_inj locked_part locked_part m n e = (refl, ap (drop 7) e)
parts_inj locked_part dbus_name_part m n e = absurd (omega (arith, ap first_byte e))
parts_inj dbus_name_part exclusive_part m n e = absurd (omega (arith, ap second_byte e))
parts_inj dbus_name_part locked_part m n e = absurd (omega (arith, ap first_byte e))
parts_inj dbus_name_part dbus_name_part m n e = (refl, ap (drop 10) e)

same_part_eq : (p q : Part) → same_part p q ≡ true → p ≡ q
same_part_eq p q h = ground arith

-- For names that fit, the keys of two parts of two locks are one key only where the part and the
-- name are the same.
pub str_eq-lock_key :
    (p q : Part) (m n : Bytes)
    → IsShort m
    → IsShort n
    → str_eq (lock_key p m) (lock_key q n) ≡ (same_part p q && str_eq m n)
str_eq-lock_key p q m n hm hn = elim (Bool-cases (str_eq (lock_key p m) (lock_key q n))) [
  | inl same ↦
      let (part, name) = parts_inj p q m n (
        backwards p q m n
          (parts_eq p q m n hm hn ((eq_iff (lock_key p m) (lock_key q n)).0 same))) in
      ground (arith, same, part, eq_iff m n, same_name m n name)
  | inr other ↦
      ground (arith, other, same_part_eq p q, eq_iff m n, eq_iff (lock_key p m) (lock_key q n))
]

pub str_eq-lock_key-named_locks :
    (p : Part) (m : Bytes) → IsShort m → str_eq (lock_key p m) named_locks ≡ false
unfolding str_eq named_locks
str_eq-lock_key-named_locks p m h = rw (lock_key_short p m h)

pub str_eq-named_locks-lock_key :
    (p : Part) (m : Bytes) → IsShort m → str_eq named_locks (lock_key p m) ≡ false
unfolding str_eq named_locks
str_eq-named_locks-lock_key p m h = rw (lock_key_short p m h)
