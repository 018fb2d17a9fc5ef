-- ===== src/Scoring/Metrics/Ranks.antt =====
-- The rank of a score, by the numbers of smaller and of equal scores.
use tripwire_launch_auditor.Prelude.{
  ℕ, zero, suc, ◌+◌, ◌*◌, ◌≤◌, ◌<◌, ◌≡◌, refl, Bool, List, [], ◌∷◌, length, take, drop, All,
  All-append, All-split, take-append-drop, subst, if_intro, ltb, ◌==◌, arith, ap, sym, ◌∙◌,
  count_if, count_if-append, count_if-all, count_if-no, All-map, IsSorted,
}
use tripwire_launch_auditor.Scoring.Metrics.{run_length, write_group, rank_groups}

-- How many of the entries have a smaller score, and how many the same.
abbrev pub below : ℕ → List (ℕ × ℕ) → ℕ
below v = count_if (λ e. ltb e.0 v)

abbrev pub equal : ℕ → List (ℕ × ℕ) → ℕ
equal v = count_if (λ e. e.0 == v)

abbrev pub at : ℕ → List (ℕ × ℕ) → ℕ
at k = count_if (λ e. e.1 == k)

abbrev pub score : ℕ × ℕ → ℕ
score e = e.0

-- The run at the front, and what is left.
abbrev Splits : ℕ → List (ℕ × ℕ) → ℕ → Type 0
Splits v es m =
    All (λ e. e.0 ≡ v) (take m es)
    × All (λ e. v < e.0) (drop m es)
    × IsSorted score (drop m es)
    × (length (take m es) ≡ m)
    × (length (drop m es) + m ≡ length es)

run-Splits :
    (v : ℕ) (es : List (ℕ × ℕ))
    → IsSorted score es
    → All (λ e. v ≤ e.0) es
    → Splits v es (run_length v es)
unfolding run_length
run-Splits v [] s h = (tt, tt, tt, refl, omega arith)
run-Splits v (e ∷ es) (lo, s) (h, hs) =
    let (a, b, c, d, l) = run-Splits v es s hs in
    if_intro (Splits v (e ∷ es)) (e.0 == v) (suc (run_length v es)) 0
      (λ q. ((ground arith, a), b, c, omega (arith, d), omega (arith, l)))
      (λ q. (tt, (ground arith, All-map es (λ x k. ground arith) lo), (lo, s), refl, omega arith))

All-cut {κ} :
    (P : ℕ × ℕ → Type κ) (m : ℕ) (es : List (ℕ × ℕ))
    → All P es
    → All P (take m es) × All P (drop m es)
All-cut P m es h =
    All-split P (take m es) (drop m es) (subst (All P) (sym (take-append-drop m es)) h)

pub count_if-cut :
    (p : ℕ × ℕ → Bool) (m : ℕ) (es : List (ℕ × ℕ))
    → count_if p es ≡ count_if p (take m es) + count_if p (drop m es)
count_if-cut p m es =
    ap (count_if p) (sym (take-append-drop m es)) ∙ count_if-append p (take m es) (drop m es)

-- What the groups write, given the score `f` at each index, and the numbers `L` of smaller and `E` of
-- equal scores of a score.
module _ (f L E : ℕ → ℕ) where
  abbrev pub Ranked : ℕ × ℕ → Type 0
  Ranked w = w.1 ≡ 2 * L (f w.0) + E (f w.0) + 1

  write_group-Ranked :
      (r v : ℕ) (es : List (ℕ × ℕ))
      → All (λ e. f e.1 ≡ e.0) es
      → All (λ e. e.0 ≡ v) es
      → r ≡ 2 * L v + E v + 1
      → All Ranked (write_group r es)
  unfolding write_group
  write_group-Ranked r v [] h k q = tt
  write_group-Ranked r v (e ∷ es) (h, hs) (k, ks) q =
      (q ∙ ap (λ x. 2 * L x + E x + 1) (sym (h ∙ k)), write_group-Ranked r v es hs ks q)

  -- The numbers of smaller and of equal scores, from the position and the entries that are left.
  abbrev pub Counted : ℕ → ℕ → List (ℕ × ℕ) → Type 0
  Counted i low order = (w : ℕ) → low ≤ w → (L w ≡ i + below w order) × (E w ≡ equal w order)

  group-counts :
      (i m : ℕ) (e : ℕ × ℕ) (rest : List (ℕ × ℕ))
      → Splits e.0 rest m
      → Counted i e.0 (e ∷ rest)
      → (i + (i + m) + 2 ≡ 2 * L e.0 + E e.0 + 1) × Counted (i + m + 1) (e.0 + 1) (drop m rest)
  unfolding count_if
  group-counts i m e rest (same, more, s, n, l) h =
      let v = e.0 in
      let front = take m rest in
      let back = drop m rest in
      (
        (let (a, b) = h v (omega arith) in
            let c = count_if-cut (λ x. ltb x.0 v) m rest in
            let d = count_if-cut (λ x. x.0 == v) m rest in
            let c1 =
              count_if-no (λ x. ltb x.0 v) front (All-map front (λ x k. ground arith) same) in
            let c2 = count_if-no (λ x. ltb x.0 v) back (All-map back (λ x k. ground arith) more) in
            let d1 =
              count_if-all (λ x. x.0 == v) front (All-map front (λ x k. ground arith) same) in
            let d2 = count_if-no (λ x. x.0 == v) back (All-map back (λ x k. ground arith) more) in
            ground (arith, a, b, c, d, c1, c2, d1, d2, n)),
        (λ w k.
            let (a, b) = h w (omega arith) in
            let c = count_if-cut (λ x. ltb x.0 w) m rest in
            let d = count_if-cut (λ x. x.0 == w) m rest in
            let c1 =
              count_if-all (λ x. ltb x.0 w) front (All-map front (λ x q. ground arith) same) in
            let d1 = count_if-no (λ x. x.0 == w) front (All-map front (λ x q. ground arith) same) in
            (ground (arith, a, c, c1, n), ground (arith, b, d, d1))),
      )

  pub rank_groups-Ranked :
      (fuel i low : ℕ) (order : List (ℕ × ℕ))
      → length order ≤ fuel
      → IsSorted score order
      → All (λ e. low ≤ e.0) order
      → All (λ e. f e.1 ≡ e.0) order
      → Counted i low order
      → All Ranked (rank_groups fuel i order)
  unfolding rank_groups
  rank_groups-Ranked zero i low order n s b h c = tt
  rank_groups-Ranked (suc fuel) i low [] n s b h c = tt
  rank_groups-Ranked (suc fuel) i low (e ∷ rest) n (lo, s) (b, bs) (h, hs) c =
      let m = run_length e.0 rest in
      let (same, more, rs, len, l) = run-Splits e.0 rest s lo in
      let (r, next) = group-counts i m e rest (same, more, rs, len, l) (λ w k. c w (omega arith)) in
      let (front, back) = All-cut (λ x. f x.1 ≡ x.0) m rest hs in
      All-append Ranked (write_group (i + (i + m) + 2) (e ∷ take m rest)) _
        (write_group-Ranked (i + (i + m) + 2) e.0 (e ∷ take m rest) (h, front) (refl, same) r)
        (rank_groups-Ranked fuel (i + m + 1) (e.0 + 1) (drop m rest) (omega (arith, n, l)) rs
          (All-map (drop m rest) (λ x k. omega arith) more) back next)
