-- ===== src/Commit/Merkle/Leaves.antt =====
-- The builder's leaves: lowered, without repeats, ascending; any two lists with the same entries
-- lead to the same leaves.
use tripwire_launch_auditor.Prelude.{
  ◌≡◌, refl, ◌∙◌, true, false, List, [], ◌∷◌, arith, Bool-cases, inl, inr, All,
}
use tripwire_launch_auditor.Hex.{Hex, hex_eq, hex_le, hex_eq_iff, hex_eq_comm, Absent, Distinct}
use tripwire_launch_auditor.Hex.Order.{hex_le_total, hex_le_trans}
use tripwire_launch_auditor.Commit.Merkle.{contains, dedupe_from, insert, sort}

pub contains-Absent : (a : Hex) (xs : List Hex) → contains a xs ≡ false → Absent a xs
unfolding contains
contains-Absent a [] h = tt
contains-Absent a (x ∷ xs) h = (ground arith, contains-Absent a xs (ground arith))

pub Absent-contains : (a : Hex) (xs : List Hex) → Absent a xs → contains a xs ≡ false
unfolding contains
Absent-contains a [] h = refl
Absent-contains a (x ∷ xs) h = ground (arith, Absent-contains a xs h.1)

pub All-contains {ℓ} :
    (P : Hex → Type ℓ) (a : Hex) (xs : List Hex) → All P xs → contains a xs ≡ true → P a
unfolding contains
All-contains P a [] h c = absurd (ground arith)
All-contains P a (x ∷ xs) h c = elim (Bool-cases (hex_eq x a)) [
  | inl e ↦ rw (← (hex_eq_iff x a).0 e) h.0
  | inr e ↦ All-contains P a xs h.1 (ground arith)
]

-- dedupe_from

pub contains-dedupe_from :
    (a : Hex) (seen xs : List Hex)
    → contains a seen ≡ false
    → contains a (dedupe_from seen xs) ≡ contains a xs
unfolding dedupe_from contains
contains-dedupe_from a seen [] h = refl
contains-dedupe_from a seen (x ∷ xs) h =
    ground
      (arith, hex_eq_iff x a, contains-dedupe_from a seen xs, contains-dedupe_from a (x ∷ seen) xs)

unseen-split :
    (x : Hex) (seen xs : List Hex)
    → All (λ a. contains a (x ∷ seen) ≡ false) xs
    → Absent x xs × All (λ a. contains a seen ≡ false) xs
unfolding contains
unseen-split x seen [] h = (tt, tt)
unseen-split x seen (y ∷ xs) h =
    let (a, b) = unseen-split x seen xs h.1 in
    ((ground (arith, hex_eq_comm x y), a), (ground arith, b))

pub Distinct-dedupe_from :
    (seen xs : List Hex)
    → Distinct (dedupe_from seen xs) × All (λ a. contains a seen ≡ false) (dedupe_from seen xs)
unfolding dedupe_from
Distinct-dedupe_from seen [] = (tt, tt)
Distinct-dedupe_from seen (x ∷ xs) = elim (Bool-cases (contains x seen)) [
  | inl e ↦ rw e (Distinct-dedupe_from seen xs)
  | inr e ↦ rw e (
      let (d, k) = Distinct-dedupe_from (x ∷ seen) xs in
      let (kx, ks) = unseen-split x seen (dedupe_from (x ∷ seen) xs) k in ((kx, d), (e, ks)))
]

pub All-dedupe_from {ℓ} :
    (P : Hex → Type ℓ) (seen xs : List Hex) → All P xs → All P (dedupe_from seen xs)
unfolding dedupe_from
All-dedupe_from P seen [] h = tt
All-dedupe_from P seen (x ∷ xs) h = elim (Bool-cases (contains x seen)) [
  | inl e ↦ rw e (All-dedupe_from P seen xs h.1)
  | inr e ↦ rw e (h.0, All-dedupe_from P (x ∷ seen) xs h.1)
]

-- sort

contains-insert : (a b : Hex) (xs : List Hex) → contains a (insert b xs) ≡ contains a (b ∷ xs)
unfolding insert contains
contains-insert a b [] = refl
contains-insert a b (x ∷ xs) = ground (arith, contains-insert a b xs)

pub contains-sort : (a : Hex) (xs : List Hex) → contains a (sort xs) ≡ contains a xs
unfolding sort contains
contains-sort a [] = refl
contains-sort a (x ∷ xs) = contains-insert a x (sort xs) ∙ ground (arith, contains-sort a xs)

All-insert {ℓ} : (P : Hex → Type ℓ) (b : Hex) (xs : List Hex) → P b → All P xs → All P (insert b xs)
unfolding insert
All-insert P b [] p h = (p, tt)
All-insert P b (x ∷ xs) p h = elim (Bool-cases (hex_le b x)) [
  | inl e ↦ rw e (p, h)
  | inr e ↦ rw e (h.0, All-insert P b xs p h.1)
]

pub All-sort {ℓ} : (P : Hex → Type ℓ) (xs : List Hex) → All P xs → All P (sort xs)
unfolding sort
All-sort P [] h = tt
All-sort P (x ∷ xs) h = All-insert P x (sort xs) h.0 (All-sort P xs h.1)

Distinct-insert : (b : Hex) (xs : List Hex) → Absent b xs → Distinct xs → Distinct (insert b xs)
unfolding insert
Distinct-insert b [] h d = (tt, tt)
Distinct-insert b (x ∷ xs) h d = elim (Bool-cases (hex_le b x)) [
  | inl e ↦ rw e (h, d)
  | inr e ↦ rw e (
    All-insert (λ y. hex_eq y x ≡ false) b xs (hex_eq_comm b x ∙ h.0) d.0,
    Distinct-insert b xs h.1 d.1,
  )
]

pub Distinct-sort : (xs : List Hex) → Distinct xs → Distinct (sort xs)
unfolding sort
Distinct-sort [] d = tt
Distinct-sort (x ∷ xs) d =
    Distinct-insert x (sort xs) (All-sort (λ y. hex_eq y x ≡ false) xs d.0) (Distinct-sort xs d.1)

abbrev pub IsAscending : List Hex → Type 0
IsAscending [] = Unit
IsAscending (x ∷ xs) = All (λ y. hex_le x y ≡ true) xs × IsAscending xs

All-le :
    (a b : Hex) (xs : List Hex)
    → hex_le a b ≡ true
    → All (λ y. hex_le b y ≡ true) xs
    → All (λ y. hex_le a y ≡ true) xs
All-le a b [] h k = tt
All-le a b (x ∷ xs) h k = (hex_le_trans a b x h k.0, All-le a b xs h k.1)

insert-IsAscending : (b : Hex) (xs : List Hex) → IsAscending xs → IsAscending (insert b xs)
unfolding insert
insert-IsAscending b [] s = (tt, tt)
insert-IsAscending b (x ∷ xs) s = elim (Bool-cases (hex_le b x)) [
  | inl e ↦ rw e ((e, All-le b x xs e s.0), s)
  | inr e ↦ rw e (
    All-insert (λ y. hex_le x y ≡ true) b xs (hex_le_total b x e) s.0,
    insert-IsAscending b xs s.1,
  )
]

pub sort-IsAscending : (xs : List Hex) → IsAscending (sort xs)
unfolding sort
sort-IsAscending [] = tt
sort-IsAscending (x ∷ xs) = insert-IsAscending x (sort xs) (sort-IsAscending xs)
