-- ===== src/Hex.antt =====
-- Hexadecimal texts, as lists of code units: JavaScript's `===`, `<=` and `toLowerCase` on them.
pub mod Order
use tripwire_launch_auditor.Prelude.{
  ℕ, ◌+◌, ◌≡◌, ◌↔◌, Bool, true, ◌&&◌, List, [], ◌∷◌, map, arith, ltb, leb, ◌==◌, if◌then◌else◌, All,
  All-split, ◌++◌, false, ◌∙◌,
}

abbrev pub Hex : Type 0
Hex = List ℕ

-- `a === b`
unfoldable pub hex_eq : Hex → Hex → Bool
hex_eq [] [] = true
hex_eq [] (d ∷ b) = false
hex_eq (c ∷ a) [] = false
hex_eq (c ∷ a) (d ∷ b) = (c == d) && hex_eq a b

-- `a <= b`, by the first code units that differ.
unfoldable pub hex_le : Hex → Hex → Bool
hex_le [] b = true
hex_le (c ∷ a) [] = false
hex_le (c ∷ a) (d ∷ b) = if ltb c d then true else (c == d) && hex_le a b

-- `toLowerCase` of an ASCII letter.
lower_unit : ℕ → ℕ
lower_unit c = if leb 65 c && leb c 90 then c + 32 else c

unfoldable pub to_lower_case : Hex → Hex
unfolding lower_unit
to_lower_case = map lower_unit

pub hex_eq_iff : (a b : Hex) → (hex_eq a b ≡ true) ↔ (a ≡ b)
unfolding hex_eq
hex_eq_iff [] [] = ground arith
hex_eq_iff [] (d ∷ b) = ground arith
hex_eq_iff (c ∷ a) [] = ground arith
hex_eq_iff (c ∷ a) (d ∷ b) = ground (arith, hex_eq_iff a b)

pub hex_eq_comm : (a b : Hex) → hex_eq a b ≡ hex_eq b a
unfolding hex_eq
hex_eq_comm [] [] = ground arith
hex_eq_comm [] (d ∷ b) = ground arith
hex_eq_comm (c ∷ a) [] = ground arith
hex_eq_comm (c ∷ a) (d ∷ b) = ground (arith, hex_eq_comm a b)

-- The entry is none of the list's.
abbrev pub Absent : Hex → List Hex → Type 0
Absent a = All (λ x. hex_eq x a ≡ false)

abbrev pub Distinct : List Hex → Type 0
Distinct [] = Unit
Distinct (x ∷ xs) = Absent x xs × Distinct xs

Absent-each :
    (x : Hex) (xs ys : List Hex)
    → Absent x ys
    → All (λ y. Absent y xs) ys
    → All (λ y. Absent y (x ∷ xs)) ys
Absent-each x xs [] h k = tt
Absent-each x xs (y ∷ ys) h k = ((hex_eq_comm x y ∙ h.0, k.0), Absent-each x xs ys h.1 k.1)

Absent-none : (ys : List Hex) → All (λ y. Absent y []) ys
Absent-none [] = tt
Absent-none (y ∷ ys) = (tt, Absent-none ys)

pub Absent-swap : (xs ys : List Hex) → All (λ x. Absent x ys) xs → All (λ y. Absent y xs) ys
Absent-swap [] ys h = Absent-none ys
Absent-swap (x ∷ xs) ys h = Absent-each x xs ys h.0 (Absent-swap xs ys h.1)

pub Distinct-split :
    (xs ys : List Hex) → Distinct (xs ++ ys) → Distinct xs × Distinct ys × All (λ x. Absent x ys) xs
Distinct-split [] ys h = (tt, h, tt)
Distinct-split (x ∷ xs) ys h =
    let (hx, hy) = All-split (λ y. hex_eq y x ≡ false) xs ys h.0 in
    let (dx, dy, a) = Distinct-split xs ys h.1 in ((hx, dx), dy, (hy, a))

pub Absents-split :
    (xs ys zs : List Hex)
    → All (λ x. Absent x (ys ++ zs)) xs
    → All (λ x. Absent x ys) xs × All (λ x. Absent x zs) xs
Absents-split [] ys zs h = (tt, tt)
Absents-split (x ∷ xs) ys zs h =
    let (hy, hz) = All-split (λ y. hex_eq y x ≡ false) ys zs h.0 in
    let (ky, kz) = Absents-split xs ys zs h.1 in ((hy, ky), (hz, kz))
