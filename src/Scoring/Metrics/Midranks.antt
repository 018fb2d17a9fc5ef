-- ===== src/Scoring/Metrics/Midranks.antt =====
-- Every index of the array gets the rank of its score.
use tripwire_launch_auditor.Prelude.{
  length-drop_le, ℕ, zero, suc, ◌+◌, ◌*◌, ◌≤◌, ◌<◌, ◌≡◌, ◌⊎◌, inl, inr, refl, List, [], ◌∷◌, length,
  take, drop, All, ltb, ◌==◌, if◌then◌else◌, arith, Bool-cases, ap, sym, ◌∙◌, sort_on, count_if,
  count_if-append, count_if-sort_on, length-sort_on, All-sort_on, sort_on-IsSorted, All-map,
}
use tripwire_launch_auditor.Scoring.Metrics.{
  entries, run_length, write_group, rank_groups, write_all, midranks,
}
use tripwire_launch_auditor.Scoring.Metrics.Ranks.{
  below, equal, at, score, count_if-cut, rank_groups-Ranked,
}

abbrev written_at : ℕ → List (ℕ × ℕ) → ℕ
written_at k = count_if (λ w. w.0 == k)

write_group-at : (k r : ℕ) (es : List (ℕ × ℕ)) → written_at k (write_group r es) ≡ at k es
unfolding write_group count_if
write_group-at k r [] = refl
write_group-at k r (e ∷ es) = ground (arith, write_group-at k r es)

rank_groups-at :
    (k fuel i : ℕ) (order : List (ℕ × ℕ))
    → length order ≤ fuel
    → written_at k (rank_groups fuel i order) ≡ at k order
unfolding rank_groups count_if
rank_groups-at k zero i [] h = refl
rank_groups-at k zero i (e ∷ rest) h = absurd (omega arith)
rank_groups-at k (suc fuel) i [] h = refl
rank_groups-at k (suc fuel) i (e ∷ rest) h =
    let m = run_length e.0 rest in
    let r = i + (i + m) + 2 in
    let a =
      count_if-append (λ w. w.0 == k) (write_group r (e ∷ take m rest))
        (rank_groups fuel (i + m + 1) (drop m rest)) in
    let b = write_group-at k r (e ∷ take m rest) in
    let c =
      rank_groups-at k fuel (i + m + 1) (drop m rest) (omega (arith, length-drop_le m rest)) in
    let d = count_if-cut (λ x. x.1 == k) m rest in omega (arith, a, b, c, d)

-- Where every write at an index has one value, and there is one or the value stands already, the
-- array has it.
write_all-at :
    (value : ℕ → ℕ) (ranks : ℕ → ℕ) (k : ℕ) (ws : List (ℕ × ℕ))
    → All (λ w. w.1 ≡ value w.0) ws
    → (0 < written_at k ws) ⊎ (ranks k ≡ value k)
    → write_all ranks ws k ≡ value k
unfolding write_all count_if
write_all-at value ranks k [] h (inl n) = absurd (omega arith)
write_all-at value ranks k [] h (inr e) = e
write_all-at value ranks k (w ∷ ws) (h, hs) o =
    write_all-at value (λ j. if j == w.0 then w.1 else ranks j) k ws hs
      (elim (Bool-cases (k == w.0)) [
        | inl q ↦
            let same : k ≡ w.0 = ground arith in inr (ground (arith, q, h ∙ ap value (sym same)))
        | inr q ↦ elim o [ inl n ↦ inl (ground arith) | inr e ↦ inr (ground (arith, e)) ]
      ])

abbrev pub value_at : List ℕ → ℕ → ℕ
value_at [] j = 0
value_at (v ∷ vs) zero = v
value_at (v ∷ vs) (suc j) = value_at vs j

-- How many of the scores are smaller, and how many the same.
abbrev pub less : ℕ → List ℕ → ℕ
less w = count_if (λ v. ltb v w)

abbrev pub same : ℕ → List ℕ → ℕ
same w = count_if (λ v. v == w)

entries-values :
    (f : ℕ → ℕ) (i : ℕ) (vs : List ℕ)
    → ((j : ℕ) → j < length vs → f (i + j) ≡ value_at vs j)
    → All (λ e. f e.1 ≡ e.0) (entries i vs)
unfolding entries
entries-values f i [] h = tt
entries-values f i (v ∷ vs) h =
    let first : f i ≡ v = ap f (omega arith) ∙ h 0 (omega arith) in
    (first, entries-values f (i + 1) vs (λ j k. ap f (omega arith) ∙ h (suc j) (omega arith)))

at-entries : (k i : ℕ) (vs : List ℕ) → i ≤ k → k < i + length vs → 0 < at k (entries i vs)
unfolding entries count_if
at-entries k i [] h n = absurd (omega arith)
at-entries k i (v ∷ vs) h n = elim (Bool-cases (i == k)) [
  | inl q ↦ ground arith
  | inr q ↦ ground (arith, at-entries k (i + 1) vs (ground arith) (omega arith))
]

entries-counts :
    (w i : ℕ) (vs : List ℕ)
    → (below w (entries i vs) ≡ less w vs) × (equal w (entries i vs) ≡ same w vs)
unfolding entries count_if
entries-counts w i [] = (refl, refl)
entries-counts w i (v ∷ vs) =
    let (a, b) = entries-counts w (i + 1) vs in (omega (arith, a), omega (arith, b))

length-entries : (i : ℕ) (vs : List ℕ) → length (entries i vs) ≡ length vs
unfolding entries
length-entries i [] = refl
length-entries i (v ∷ vs) = omega (arith, length-entries (i + 1) vs)

-- The doubled rank of a score: one, twice the number of smaller scores, and the number of equal ones.
pub midranks_lem :
    (values : List ℕ) (k : ℕ)
    → k < length values
    → let v = value_at values k in midranks values k ≡ 2 * less v values + same v values + 1
unfolding midranks
midranks_lem values k h =
    let f = value_at values in
    let L = λ (w : ℕ). less w values in
    let E = λ (w : ℕ). same w values in
    let order = sort_on score (entries 0 values) in
    let n : length order ≡ length values =
      length-sort_on score (entries 0 values) ∙ length-entries 0 values in
    let ranked =
      rank_groups-Ranked f L E (length values) 0 0 order (omega (arith, n))
        (sort_on-IsSorted score (entries 0 values))
        (All-sort_on (λ e. 0 ≤ e.0) score (entries 0 values)
          (All-map (entries 0 values) (λ e q. omega arith)
            (entries-values f 0 values (λ j q. ap f (omega arith)))))
        (All-sort_on (λ e. f e.1 ≡ e.0) score (entries 0 values)
          (entries-values f 0 values (λ j q. ap f (omega arith))))
        (λ w q.
          let (a, b) = entries-counts w 0 values in
          let c = count_if-sort_on (λ e. ltb e.0 w) score (entries 0 values) in
          let d = count_if-sort_on (λ e. e.0 == w) score (entries 0 values) in
          (omega (arith, a, c), omega (arith, b, d))) in
    let some_write : 0 < written_at k (rank_groups (length values) 0 order) = omega (
      arith,
      rank_groups-at k (length values) 0 order (omega (arith, n)),
      count_if-sort_on (λ e. e.1 == k) score (entries 0 values),
      at-entries k 0 values (omega arith) (omega arith),
    ) in
    write_all-at (λ j. 2 * L (f j) + E (f j) + 1) (λ j. 0) k (rank_groups (length values) 0 order)
      ranked (inl some_write)
