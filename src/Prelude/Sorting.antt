-- ===== src/Prelude/Sorting.antt =====
-- The stable sort by a key, which the queries and the array sorts of the source share.
use Prim.Native.Nat.{ℕ, suc, ◌+◌, ◌≤◌}
use mathlib.Core.Path.{◌≡◌, refl}
use mathlib.Core.Bool.{Bool, true, false}
use mathlib.Core.List.{List, [], ◌∷◌, ◌++◌}
use native.Mathlib.Omega.{arith}
use tripwire_launch_auditor.Prelude.Lists.{length, All}
use tripwire_launch_auditor.Prelude.Tests.{leb, if◌then◌else◌, if_intro}

module _ {ℓ} {A : Type ℓ} (key : A → ℕ) where
  unfoldable pub insert_on : A → List A → List A
  insert_on x [] = x ∷ []
  insert_on x (y ∷ ys) = if leb (key x) (key y) then x ∷ y ∷ ys else y ∷ insert_on x ys

  unfoldable pub sort_on : List A → List A
  unfolding insert_on
  sort_on [] = []
  sort_on (x ∷ xs) = insert_on x (sort_on xs)

  length-insert_on : (x : A) (ys : List A) → length (insert_on x ys) ≡ suc (length ys)
  unfolding insert_on
  length-insert_on x [] = refl
  length-insert_on x (y ∷ ys) = ground (arith, length-insert_on x ys)

  pub length-sort_on : (xs : List A) → length (sort_on xs) ≡ length xs
  unfolding sort_on
  length-sort_on [] = refl
  length-sort_on (x ∷ xs) = omega (arith, length-insert_on x (sort_on xs), length-sort_on xs)

-- A predicate of every entry survives the sort.
module _ {ℓ κ} {A : Type ℓ} (P : A → Type κ) (key : A → ℕ) where
  All-insert_on : (x : A) (ys : List A) → P x → All P ys → All P (insert_on key x ys)
  unfolding insert_on
  All-insert_on x [] p h = (p, tt)
  All-insert_on x (y ∷ ys) p (q, h) =
      if_intro (All P) (leb (key x) (key y)) (x ∷ y ∷ ys) (y ∷ insert_on key x ys)
        (λ e. (p, (q, h))) (λ e. (q, All-insert_on x ys p h))

  pub All-sort_on : (xs : List A) → All P xs → All P (sort_on key xs)
  unfolding sort_on
  All-sort_on [] h = tt
  All-sort_on (x ∷ xs) (p, h) = All-insert_on x (sort_on key xs) p (All-sort_on xs h)

-- How many entries pass a test.
unfoldable pub count_if {ℓ} : {A : Type ℓ} → (A → Bool) → List A → ℕ
count_if p [] = 0
count_if p (x ∷ xs) = (if p x then 1 else 0) + count_if p xs

module _ {ℓ} {A : Type ℓ} (p : A → Bool) where
  pub count_if-append : (xs ys : List A) → count_if p (xs ++ ys) ≡ count_if p xs + count_if p ys
  unfolding count_if
  count_if-append [] ys = omega arith
  count_if-append (x ∷ xs) ys = omega (arith, count_if-append xs ys)

  count_if-insert_on :
      (key : A → ℕ) (x : A) (ys : List A)
      → count_if p (insert_on key x ys) ≡ (if p x then 1 else 0) + count_if p ys
  unfolding count_if insert_on
  count_if-insert_on key x [] = refl
  count_if-insert_on key x (y ∷ ys) = ground (arith, count_if-insert_on key x ys)

  pub count_if-sort_on : (key : A → ℕ) (xs : List A) → count_if p (sort_on key xs) ≡ count_if p xs
  unfolding count_if sort_on
  count_if-sort_on key [] = refl
  count_if-sort_on key (x ∷ xs) =
      omega (arith, count_if-insert_on key x (sort_on key xs), count_if-sort_on key xs)

  pub count_if-all : (xs : List A) → All (λ x. p x ≡ true) xs → count_if p xs ≡ length xs
  unfolding count_if
  count_if-all [] h = refl
  count_if-all (x ∷ xs) (h, hs) = ground (arith, count_if-all xs hs)

  pub count_if-no : (xs : List A) → All (λ x. p x ≡ false) xs → count_if p xs ≡ 0
  unfolding count_if
  count_if-no [] h = refl
  count_if-no (x ∷ xs) (h, hs) = ground (arith, count_if-no xs hs)

-- Every entry's key is at most those of the entries behind it.
abbrev pub IsSorted {ℓ} : {A : Type ℓ} → (A → ℕ) → List A → Type 0
IsSorted key [] = Unit
IsSorted key (x ∷ xs) = All (λ y. key x ≤ key y) xs × IsSorted key xs

pub All-map {ℓ κ μ} :
    {A : Type ℓ} {P : A → Type κ} {Q : A → Type μ} (xs : List A)
    → ((x : A) → P x → Q x)
    → All P xs
    → All Q xs
All-map [] f h = tt
All-map (x ∷ xs) f (p, h) = (f x p, All-map xs f h)

module _ {ℓ} {A : Type ℓ} (key : A → ℕ) where
  insert_on-IsSorted : (x : A) (ys : List A) → IsSorted key ys → IsSorted key (insert_on key x ys)
  unfolding insert_on
  insert_on-IsSorted x [] h = (tt, tt)
  insert_on-IsSorted x (y ∷ ys) (lo, h) =
      if_intro (IsSorted key) (leb (key x) (key y)) (x ∷ y ∷ ys) (y ∷ insert_on key x ys)
        (λ e. ((ground arith, All-map ys (λ z k. ground arith) lo), (lo, h)))
        (λ e. (
          All-insert_on (λ z. key y ≤ key z) key x ys (ground arith) lo,
          insert_on-IsSorted x ys h,
        ))

  pub sort_on-IsSorted : (xs : List A) → IsSorted key (sort_on key xs)
  unfolding sort_on
  sort_on-IsSorted [] = tt
  sort_on-IsSorted (x ∷ xs) = insert_on-IsSorted x (sort_on key xs) (sort_on-IsSorted xs)
