-- ===== src/Commit/Merkle/Canonical.antt =====
-- Which tree is built depends only on which report hashes are given, not on their order, their
-- letter case or their repeats.
use tripwire_launch_auditor.Prelude.{
  ◌≡◌, refl, sym, ap, ap₂, ◌∙◌, true, false, List, [], ◌∷◌, arith, map, Bool-cases, inl, inr, All,
}
use tripwire_launch_auditor.Hex.{Hex, hex_eq, hex_le, hex_eq_iff, to_lower_case, Absent, Distinct}
use tripwire_launch_auditor.Hex.Order.{hex_le_antisymm, hex_le_refl, to_lower_case_idem}
use tripwire_launch_auditor.Commit.Merkle.{contains, dedupe_from, sort, tree_of, build_merkle_tree}
use tripwire_launch_auditor.Commit.Merkle.Fold.{IsLower}
use tripwire_launch_auditor.Commit.Merkle.Leaves.{
  IsAscending, sort-IsAscending, Distinct-sort, Distinct-dedupe_from, contains-sort,
  contains-dedupe_from, Absent-contains, All-contains, All-sort, All-dedupe_from,
}

pub ordered : List Hex → List Hex
ordered leaves = sort (dedupe_from [] (map to_lower_case leaves))

pub ordered-Distinct : (leaves : List Hex) → Distinct (ordered leaves)
unfolding ordered
ordered-Distinct leaves = Distinct-sort _ (Distinct-dedupe_from [] (map to_lower_case leaves)).0

pub ordered-IsAscending : (leaves : List Hex) → IsAscending (ordered leaves)
unfolding ordered
ordered-IsAscending leaves = sort-IsAscending (dedupe_from [] (map to_lower_case leaves))

pub contains-ordered :
    (a : Hex) (leaves : List Hex)
    → contains a (ordered leaves) ≡ contains a (map to_lower_case leaves)
unfolding ordered contains
contains-ordered a leaves =
    contains-sort a (dedupe_from [] (map to_lower_case leaves))
    ∙ contains-dedupe_from a [] (map to_lower_case leaves) refl

contains-head : (x : Hex) (xs : List Hex) → contains x (x ∷ xs) ≡ true
unfolding contains
contains-head x xs = rw (hex_eq_iff x x).1 refl

given-tail :
    (x : Hex) (xs bs : List Hex)
    → All (λ b. contains (to_lower_case b) xs ≡ true) bs
    → All (λ b. contains (to_lower_case b) (x ∷ xs) ≡ true) bs
unfolding contains
given-tail x xs [] h = tt
given-tail x xs (b ∷ bs) h = (ground arith, given-tail x xs bs h.1)

given : (bs : List Hex) → All (λ b. contains (to_lower_case b) (map to_lower_case bs) ≡ true) bs
given [] = tt
given (b ∷ bs) = (
  contains-head (to_lower_case b) (map to_lower_case bs),
  given-tail (to_lower_case b) (map to_lower_case bs) bs (given bs),
)

given-ordered-each :
    (leaves bs : List Hex)
    → All (λ b. contains (to_lower_case b) (map to_lower_case leaves) ≡ true) bs
    → All (λ b. contains (to_lower_case b) (ordered leaves) ≡ true) bs
given-ordered-each leaves [] h = tt
given-ordered-each leaves (b ∷ bs) h =
    (contains-ordered (to_lower_case b) leaves ∙ h.0, given-ordered-each leaves bs h.1)

-- Every hash that was given is a leaf, lowered.
pub given-ordered :
    (leaves : List Hex) → All (λ b. contains (to_lower_case b) (ordered leaves) ≡ true) leaves
given-ordered leaves = given-ordered-each leaves leaves (given leaves)

pub build-ordered :
    (pair : Hex → Hex → Hex) (leaves : List Hex)
    → build_merkle_tree pair leaves ≡ tree_of pair (ordered leaves)
unfolding build_merkle_tree ordered
build-ordered pair leaves = refl

map-IsLower : (leaves : List Hex) → All IsLower (map to_lower_case leaves)
map-IsLower [] = tt
map-IsLower (l ∷ ls) = (to_lower_case_idem l, map-IsLower ls)

pub ordered-IsLower : (leaves : List Hex) → All IsLower (ordered leaves)
unfolding ordered
ordered-IsLower leaves = All-sort IsLower _ (All-dedupe_from IsLower [] _ (map-IsLower leaves))

contains-tail :
    (a x : Hex) (xs : List Hex)
    → contains a (x ∷ xs) ≡ true
    → hex_eq x a ≡ false
    → contains a xs ≡ true
unfolding contains
contains-tail a x xs c e = ground arith

-- The heads of two ascending lists with the same entries are each at most the other.
head_le :
    (x y : Hex) (ys : List Hex)
    → IsAscending (y ∷ ys)
    → contains x (y ∷ ys) ≡ true
    → hex_le y y ≡ true
    → hex_le y x ≡ true
head_le x y ys s c r = elim (Bool-cases (hex_eq y x)) [
  | inl e ↦ rw (← (hex_eq_iff y x).0 e) r
  | inr e ↦ All-contains (λ z. hex_le y z ≡ true) x ys s.0 (contains-tail x y ys c e)
]

same_tail :
    (x : Hex) (xs ys : List Hex) (a : Hex)
    → Absent x xs
    → Absent x ys
    → contains a (x ∷ xs) ≡ contains a (x ∷ ys)
    → contains a xs ≡ contains a ys
unfolding contains
same_tail x xs ys a hx hy e = elim (Bool-cases (hex_eq x a)) [
  | inl q ↦ rw (← (hex_eq_iff x a).0 q) (Absent-contains x xs hx ∙ sym (Absent-contains x ys hy))
  | inr q ↦ ground arith
]

unique :
    (xs ys : List Hex)
    → IsAscending xs
    → IsAscending ys
    → Distinct xs
    → Distinct ys
    → ((a : Hex) → contains a xs ≡ contains a ys)
    → xs ≡ ys
unfolding contains
unique [] [] s t d e h = refl
unique [] (y ∷ ys) s t d e h = cc (h y ∙ contains-head y ys)
unique (x ∷ xs) [] s t d e h = cc (sym (h x) ∙ contains-head x xs)
unique (x ∷ xs) (y ∷ ys) s t d e h = ap₂ ◌∷◌ same (unique xs ys s.1 t.1 d.1 e.1 tails)
  where
    same : x ≡ y
    same =
        hex_le_antisymm x y (head_le y x xs s (h y ∙ contains-head y ys) (hex_le_refl x))
          (head_le x y ys t (sym (h x) ∙ contains-head x xs) (hex_le_refl y))

    tails : (a : Hex) → contains a xs ≡ contains a ys
    tails a = same_tail x xs ys a d.0 (rw same e.0) (rw (← same) at (h a))

-- Two batches with the same lowered report hashes, in any order and with any repeats, give the
-- same tree: the same root, leaves and proofs.
pub build_merkle_tree-canonical :
    (pair : Hex → Hex → Hex) (xs ys : List Hex)
    → ((a : Hex) → contains a (map to_lower_case xs) ≡ contains a (map to_lower_case ys))
    → build_merkle_tree pair xs ≡ build_merkle_tree pair ys
unfolding build_merkle_tree ordered
build_merkle_tree-canonical pair xs ys h = ap (tree_of pair) leaves
  where
    leaves : ordered xs ≡ ordered ys
    leaves =
        unique (ordered xs) (ordered ys) (ordered-IsAscending xs) (ordered-IsAscending ys)
          (ordered-Distinct xs) (ordered-Distinct ys)
          (λ a. contains-ordered a xs ∙ h a ∙ sym (contains-ordered a ys))
