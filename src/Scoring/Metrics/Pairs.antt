-- ===== src/Scoring/Metrics/Pairs.antt =====
-- The area under the curve counts the pairs that the scores order rightly.
use tripwire_launch_auditor.Prelude.{
  ℕ, suc, ◌+◌, ◌-◌, ◌*◌, ◌≤◌, ◌<◌, ◌≡◌, refl, Bool, ◌&&◌, none, some, List, [], ◌∷◌, length, ltb,
  ◌==◌, if◌then◌else◌, arith, Bool-cases, ap, ◌∙◌, count_if, inl, inr,
}
use tripwire_launch_auditor.Scoring.Metrics.{midranks, positives, negatives, rank_sum, auroc}
use tripwire_launch_auditor.Scoring.Metrics.Midranks.{value_at, less, same, midranks_lem}

sum_of : (ℕ → ℕ) → List ℕ → ℕ
sum_of f [] = 0
sum_of f (x ∷ xs) = f x + sum_of f xs

-- Two for each pair whose first score is the larger, and one for each pair of equal scores.
pub wins : List ℕ → List ℕ → ℕ
unfolding sum_of
wins xs ys = sum_of (λ x. 2 * less x ys + same x ys) xs

rank_sum_lem :
    (ranks R : ℕ → ℕ) (i : ℕ) (vs : List ℕ) (ls : List Bool)
    → ((j : ℕ) → j < length vs → ranks (i + j) ≡ R (value_at vs j))
    → length vs ≡ length ls
    → rank_sum ranks i ls ≡ sum_of R (positives vs ls)
unfolding rank_sum positives sum_of
rank_sum_lem ranks R i [] [] h n = refl
rank_sum_lem ranks R i [] (b ∷ ls) h n = absurd (omega (arith, n))
rank_sum_lem ranks R i (v ∷ vs) [] h n = absurd (omega (arith, n))
rank_sum_lem ranks R i (v ∷ vs) (b ∷ ls) h n =
    let first : ranks i ≡ R v = ap ranks (omega arith) ∙ h 0 (omega arith) in
    let ih =
      rank_sum_lem ranks R (i + 1) vs ls (λ j k. ap ranks (omega arith) ∙ h (suc j) (omega arith))
        (omega (arith, n)) in
    ground (arith, first, ih)

pub positives-nil : (vs : List ℕ) → positives vs [] ≡ []
unfolding positives
positives-nil [] = refl
positives-nil (v ∷ vs) = refl

length-positives_le : (vs : List ℕ) (ls : List Bool) → length (positives vs ls) ≤ length vs
unfolding positives
length-positives_le [] ls = omega arith
length-positives_le (v ∷ vs) [] = omega arith
length-positives_le (v ∷ vs) (b ∷ ls) = ground (arith, length-positives_le vs ls)

-- The positives and the negatives are all the scores.
count_if-split :
    (p : ℕ → Bool) (vs : List ℕ) (ls : List Bool)
    → count_if p vs ≡ count_if p (positives vs ls) + count_if p (negatives vs ls)
unfolding count_if positives negatives
count_if-split p [] ls = omega arith
count_if-split p (v ∷ vs) [] =
    let e = ap (count_if p) (positives-nil vs) in omega (arith, count_if-split p vs [], e)
count_if-split p (v ∷ vs) (b ∷ ls) = ground (arith, count_if-split p vs ls)

-- The ranks of some scores among the scores of both kinds.
ranks-wins :
    (vs ys zs xs : List ℕ)
    → ((p : ℕ → Bool) → count_if p vs ≡ count_if p ys + count_if p zs)
    → sum_of (λ w. 2 * less w vs + same w vs + 1) xs ≡ wins xs ys + wins xs zs + length xs
unfolding sum_of wins
ranks-wins vs ys zs [] h = refl
ranks-wins vs ys zs (x ∷ xs) h =
    omega (arith, h (λ v. ltb v x), h (λ v. v == x), ranks-wins vs ys zs xs h)

wins-cons : (xs ys : List ℕ) (y : ℕ) → wins xs (y ∷ ys) ≡ wins xs ys + wins xs (y ∷ [])
unfolding wins sum_of count_if
wins-cons [] ys y = refl
wins-cons (x ∷ xs) ys y = omega (arith, wins-cons xs ys y)

wins-twice : (xs : List ℕ) (x : ℕ) → wins (x ∷ []) xs + wins xs (x ∷ []) ≡ 2 * length xs
unfolding wins sum_of count_if
wins-twice [] x = refl
wins-twice (y ∷ xs) x = ground (arith, wins-twice xs x)

wins_self : (xs : List ℕ) → wins xs xs ≡ length xs * length xs
unfolding wins sum_of count_if
wins_self [] = refl
wins_self (x ∷ xs) =
    let n = length xs in
    let square : suc n * suc n ≡ n * n + 2 * n + 1 = grind arith in
    ground (arith, wins-cons xs xs x, wins-twice xs x, wins_self xs, square)

-- The curve's area, as a fraction, is defined exactly where there is a label for each score, a positive
-- and a negative. It is then the share of the pairs of a positive and a negative whose positive has
-- the larger score, where a pair of equal scores counts a half.
pub auroc-wins :
    (scores : List ℕ) (labels : List Bool)
    → let pos = positives scores labels in
      let neg = negatives scores labels in
      auroc scores labels ≡ (
        if (length scores == length labels) && ltb 0 (length pos) && ltb 0 (length neg)
        then some (record { num = wins pos neg; den = 2 * (length pos * length neg) })
        else none)
unfolding auroc
auroc-wins scores labels =
    let pos = positives scores labels in
    let neg = negatives scores labels in
    let p = length pos in
    let sum : length scores ≡ length labels
        → rank_sum (midranks scores) 0 labels ≡ p * p + wins pos neg + p =
      λ n.
        rank_sum_lem (midranks scores) (λ w. 2 * less w scores + same w scores + 1) 0 scores labels
          (λ j k. ap (midranks scores) (omega arith) ∙ midranks_lem scores j k) n
        ∙ ranks-wins scores pos neg pos (λ q. count_if-split q scores labels)
        ∙ ap (λ s. s + wins pos neg + p) (wins_self pos) in
    let product : p * (p + 1) ≡ p * p + p = grind arith in
    elim (Bool-cases (length scores == length labels)) [
      | inl q ↦
          let n : length scores ≡ length labels = ground arith in
          let e : rank_sum (midranks scores) 0 labels - p * (p + 1) ≡ wins pos neg =
            omega (arith, sum n, product) in
          ground (arith, q, e, length-positives_le scores labels)
      | inr q ↦ ground (arith, q)
    ]
