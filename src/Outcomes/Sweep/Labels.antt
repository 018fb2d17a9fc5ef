-- ===== src/Outcomes/Sweep/Labels.antt =====
-- Which labels a sweep takes in the fair order.
use tripwire_launch_auditor.Prelude.{
  ◌≡◌, ◌↔◌, ◌⊎◌, inl, inr, refl, true, false, List, [], ◌∷◌, arith, Bool-cases, if◌then◌else◌, ap,
  sym, ◌∙◌,
}
use tripwire_launch_auditor.Scoring.Outcome.{
  OutcomeLabel, insider_exit, sell_impaired, liq_impaired, drawdown_80, trading_alive,
}
use tripwire_launch_auditor.Outcomes.Rows.{label_eq}
use tripwire_launch_auditor.Outcomes.Rows.Keys.{label_eq_iff, label_eq_refl}
use tripwire_launch_auditor.Outcomes.Sweep.{SweepFilter, all_outcome_labels}
use tripwire_launch_auditor.Outcomes.Sweep.Interleave.{is_nil}
use tripwire_launch_auditor.Outcomes.Sweep.Due.{includes, kept_labels, labels}

abbrev pub Among : OutcomeLabel → List OutcomeLabel → Type 0
Among l [] = ⊥
Among l (x ∷ xs) = (x ≡ l) ⊎ Among l xs

-- One of the labels that the filter names, or of the five if it names none, and not an excluded one.
abbrev pub Wanted : SweepFilter → OutcomeLabel → Type 0
Wanted f l = ((f.only_labels ≡ []) ⊎ Among l f.only_labels) × (Among l f.exclude_labels → ⊥)

includes_iff : (l : OutcomeLabel) (xs : List OutcomeLabel) → (includes l xs ≡ true) ↔ Among l xs
unfolding includes
includes_iff l [] = ground arith
includes_iff l (x ∷ xs) =
    let (f, g) = includes_iff l xs in
    (
      λ h. elim (Bool-cases (label_eq x l)) [
        | inl e ↦ inl (label_eq_iff x l e)
        | inr e ↦ inr (f (ground (arith, h, e)))
      ],
      λ m. elim m [
        | inl e ↦
            let q : label_eq x l ≡ true = ap (λ y. label_eq y l) e ∙ label_eq_refl l in
            ground (arith, q)
        | inr e ↦ let q = g e in ground (arith, q)
      ],
    )

all_labels-Among : (l : OutcomeLabel) → Among l all_outcome_labels
unfolding all_outcome_labels
all_labels-Among insider_exit = inl refl
all_labels-Among sell_impaired = inr (inl refl)
all_labels-Among liq_impaired = inr (inr (inl refl))
all_labels-Among drawdown_80 = inr (inr (inr (inl refl)))
all_labels-Among trading_alive = inr (inr (inr (inr (inl refl))))

kept-Among :
    (f : SweepFilter) (l : OutcomeLabel) (xs : List OutcomeLabel)
    → Among l (kept_labels f xs) ↔ (Among l xs × (includes l f.exclude_labels ≡ false))
unfolding kept_labels
kept-Among f l [] = (λ h. absurd h, λ h. absurd h.0)
kept-Among f l (x ∷ xs) =
    let (h, k) = kept-Among f l xs in
    elim (Bool-cases (includes x f.exclude_labels)) [
      | inl e ↦ rw e (
        λ m. let (a, b) = h m in (inr a, b),
        λ (m, b). elim m [
          | inl q ↦
              let c : includes x f.exclude_labels ≡ includes l f.exclude_labels =
                ap (λ y. includes y f.exclude_labels) q in
              absurd (ground (arith, b, c, e))
          | inr n ↦ k (n, b)
        ],
      )
      | inr e ↦ rw e (
        λ m. elim m [
          | inl q ↦
              let c : includes x f.exclude_labels ≡ includes l f.exclude_labels =
                ap (λ y. includes y f.exclude_labels) q in
              (inl q, sym c ∙ e)
          | inr n ↦ let (a, b) = h n in (inr a, b)
        ],
        λ (m, b). elim m [ inl q ↦ inl q | inr n ↦ inr (k (n, b)) ],
      )
    ]

given_labels :
    (l : OutcomeLabel) (only : List OutcomeLabel)
    → Among l (if is_nil only then all_outcome_labels else only) ↔ ((only ≡ []) ⊎ Among l only)
unfolding is_nil
given_labels l [] = (λ m. inl refl, λ m. all_labels-Among l)
given_labels l (x ∷ xs) = (λ m. inr m, λ m. elim m [ inl e ↦ absurd cc | inr n ↦ n ])

-- The labels of the sweep are the wanted ones.
pub labels-Wanted : (f : SweepFilter) (l : OutcomeLabel) → Among l (labels f) ↔ Wanted f l
unfolding labels is_nil
labels-Wanted f l =
    let (k, k') =
      kept-Among f l (if is_nil f.only_labels then all_outcome_labels else f.only_labels) in
    let (g, g') = given_labels l f.only_labels in
    let (i, i') = includes_iff l f.exclude_labels in
    (
      λ m. let (a, b) = k m in (g a, λ n. let c = i' n in absurd (ground (arith, b, c))),
      λ (a, n). elim (Bool-cases (includes l f.exclude_labels)) [
        | inl e ↦ absurd (n (i e))
        | inr e ↦ k' (g' a, e)
      ],
    )
