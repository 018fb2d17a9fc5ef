-- ===== src/Outcomes/Sweep/Queue.antt =====
-- The queue of a label: the rows that are due for it, the oldest horizon first.
use mathlib.Core.Path.{fun_ext}
use tripwire_launch_auditor.Prelude.{
  ℕ, ◌+◌, ◌≤◌, ◌<◌, ◌≡◌, ◌↔◌, ◌⊎◌, inl, inr, refl, Bool, true, false, ◌&&◌, ◌||◌, Option, none,
  some, List, [], ◌∷◌, All, arith, Bool-cases, Option-cases, sort_on, IsSorted, sort_on-IsSorted,
  All-sort_on, count_if, count_if-sort_on, All-map, if_intro, subst, ap, ◌∙◌,
}
use tripwire_launch_auditor.Scoring.Outcome.{OutcomeLabel, drawdown_80, trading_alive}
use tripwire_launch_auditor.Outcomes.Rows.{OutcomeStatus, pending, OutcomeRow, label_eq}
use tripwire_launch_auditor.Outcomes.Rows.Keys.{label_eq_iff, label_eq_refl}
use tripwire_launch_auditor.Outcomes.Sweep.{SweepFilter, or_else, default_retry_backoff_ms}
use tripwire_launch_auditor.Outcomes.Sweep.Due.{
  is_pending, horizon_passed, backoff_passed, lane_wanted, filter_rows, at_of, is_due,
}

-- How long a deferral keeps a row out, half an hour if the filter does not say.
abbrev pub backoff_of : Option ℕ → ℕ
backoff_of none = 1_800_000
backoff_of (some ms) = ms

-- The lane lets the row through.
abbrev pub InLane : SweepFilter → OutcomeLabel → Bool → Type 0
InLane f l qualified =
    (f.lane_qualified_only ≡ true → qualified ≡ true)
    × (f.lane_qualified_only ≡ false
        → f.qualified_only ≡ true
        → (l ≡ drawdown_80) ⊎ ((l ≡ trading_alive) ⊎ (qualified ≡ true)))

-- The row is of the label, pending, past its horizon, not held back by a deferral, and in the lane.
abbrev pub Due : (Option ℕ → Bool) → ℕ → SweepFilter → OutcomeLabel → OutcomeRow → Type 0
Due qualified now f l r =
    (r.label ≡ l)
    × (r.status ≡ pending)
    × ((t : ℕ) × (r.horizon_at ≡ some t) × (t ≤ now))
    × ((t : ℕ) → r.measured_at ≡ some t → t + backoff_of f.retry_backoff_ms < now)
    × InLane f r.label (qualified r.launch_id)

abbrev pub horizon_time : OutcomeRow → ℕ
horizon_time r = elim r.horizon_at [ none ↦ 0 | some t ↦ t ]

-- A list with the due rows of the table, each as often as the table has it, and no other, the oldest
-- horizon first.
abbrev pub IsQueue :
    (Option ℕ → Bool) → ℕ → SweepFilter → List OutcomeRow → OutcomeLabel → List OutcomeRow → Type 0
IsQueue qualified now f table l q =
    IsSorted horizon_time q
    × All (Due qualified now f l) q
    × ((p : OutcomeRow → Bool)
        → ((r : OutcomeRow) → p r ≡ true → Due qualified now f l r)
        → count_if p q ≡ count_if p table)

filter-All :
    (q : OutcomeRow → Bool) (rows : List OutcomeRow) → All (λ r. q r ≡ true) (filter_rows q rows)
unfolding filter_rows
filter-All q [] = tt
filter-All q (r ∷ rows) =
    if_intro (All (λ x. q x ≡ true)) (q r) (r ∷ filter_rows q rows) (filter_rows q rows)
      (λ e. (e, filter-All q rows)) (λ e. filter-All q rows)

count_if-filter :
    (p q : OutcomeRow → Bool) (rows : List OutcomeRow)
    → ((r : OutcomeRow) → p r ≡ true → q r ≡ true)
    → count_if p (filter_rows q rows) ≡ count_if p rows
unfolding count_if filter_rows
count_if-filter p q [] h = refl
count_if-filter p q (r ∷ rows) h = ground (arith, h r, count_if-filter p q rows h)

pending_iff : (s : OutcomeStatus) → (is_pending s ≡ true) ↔ (s ≡ pending)
unfolding is_pending
pending_iff s = ground arith

horizon_iff :
    (o : Option ℕ) (now : ℕ) → (horizon_passed o now ≡ true) ↔ ((t : ℕ) × (o ≡ some t) × (t ≤ now))
unfolding horizon_passed
horizon_iff none now = (λ h. absurd (ground (arith, h)), λ (t, e, h). cc)
horizon_iff (some t) now = (
  λ h. (t, refl, ground (arith, h)),
  λ (u, e, h). let q : t ≡ u = ground (arith, e) in ground (arith, q, h),
)

backoff_iff :
    (o b : Option ℕ) (now : ℕ)
    → (backoff_passed o (or_else b default_retry_backoff_ms) now ≡ true)
      ↔ ((t : ℕ) → o ≡ some t → t + backoff_of b < now)
unfolding backoff_passed or_else
backoff_iff none b now = (λ h t e. cc, λ h. refl)
backoff_iff (some t) none now = (
  λ h u e. let q : t ≡ u = ground (arith, e) in ground (arith, q, h),
  λ h. ground (arith, h t refl),
)
backoff_iff (some t) (some b) now = (
  λ h u e. let q : t ≡ u = ground (arith, e) in ground (arith, q, h),
  λ h. ground (arith, h t refl),
)

spared_iff :
    (l : OutcomeLabel) (q : Bool)
    → ((label_eq l drawdown_80 || label_eq l trading_alive || q) ≡ true)
      ↔ ((l ≡ drawdown_80) ⊎ ((l ≡ trading_alive) ⊎ (q ≡ true)))
spared_iff l q = (
  λ h. elim (Bool-cases (label_eq l drawdown_80)) [
    | inl e ↦ inl (label_eq_iff l drawdown_80 e)
    | inr e ↦ elim (Bool-cases (label_eq l trading_alive)) [
      | inl d ↦ inr (inl (label_eq_iff l trading_alive d))
      | inr d ↦ inr (inr (ground (arith, h, e, d)))
    ]
  ],
  λ m. elim m [
    | inl e ↦
        let c = ap (λ y. label_eq y drawdown_80) e ∙ label_eq_refl drawdown_80 in ground (arith, c)
    | inr (inl e) ↦
        let c = ap (λ y. label_eq y trading_alive) e ∙ label_eq_refl trading_alive in
        ground (arith, c)
    | inr (inr e) ↦ ground (arith, e)
  ],
)

lane_iff :
    (f : SweepFilter) (l : OutcomeLabel) (qualified : Bool)
    → (lane_wanted f l qualified ≡ true) ↔ InLane f l qualified
unfolding lane_wanted
lane_iff f l qualified =
    let (g, h) = spared_iff l qualified in
    elim (Bool-cases f.lane_qualified_only) [
      | inl a ↦ ground (arith, a)
      | inr a ↦ elim (Bool-cases f.qualified_only) [
        | inl b ↦ rw a (rw b (λ e. (λ c. cc, λ c d. g e), λ m. h (m.1 refl refl)))
        | inr b ↦ ground (arith, a, b)
      ]
    ]

-- The test of the query for one label.
abbrev picks : (Option ℕ → Bool) → ℕ → SweepFilter → OutcomeLabel → OutcomeRow → Bool
picks qualified now f l r = is_due qualified now f r && label_eq r.label l

picks_iff :
    (qualified : Option ℕ → Bool) (now : ℕ) (f : SweepFilter) (l : OutcomeLabel) (r : OutcomeRow)
    → (picks qualified now f l r ≡ true) ↔ Due qualified now f l r
unfolding is_due
picks_iff qualified now f l r =
    let (p, p') = pending_iff r.status in
    let (h, h') = horizon_iff r.horizon_at now in
    let (b, b') = backoff_iff r.measured_at f.retry_backoff_ms now in
    let (w, w') = lane_iff f r.label (qualified r.launch_id) in
    (
      λ e. (
        label_eq_iff r.label l (ground (arith, e)),
        p (ground (arith, e)),
        h (ground (arith, e)),
        b (ground (arith, e)),
        w (ground (arith, e)),
      ),
      λ (e, s, t, m, n).
          let c : label_eq r.label l ≡ true = ap (λ y. label_eq y l) e ∙ label_eq_refl l in
          ground (arith, c, p' s, h' t, b' m, w' n),
    )

at_of-horizon_time : (r : OutcomeRow) → at_of r ≡ horizon_time r
unfolding at_of or_else
at_of-horizon_time r = elim (Option-cases r.horizon_at) [
  | inl e ↦ ground (arith, e)
  | inr (t, e) ↦ ground (arith, e)
]

-- The query of one label, before it is cut to the limit.
unfoldable pub queue_of :
    (Option ℕ → Bool) → ℕ → SweepFilter → List OutcomeRow → OutcomeLabel → List OutcomeRow
queue_of qualified now f table l = sort_on at_of (filter_rows (picks qualified now f l) table)

pub queue_of-IsQueue :
    (qualified : Option ℕ → Bool) (now : ℕ) (f : SweepFilter) (table : List OutcomeRow)
    (l : OutcomeLabel)
    → IsQueue qualified now f table l (queue_of qualified now f table l)
unfolding queue_of
queue_of-IsQueue qualified now f table l =
    let rows = filter_rows (picks qualified now f l) table in
    (
      subst (λ key. IsSorted key (sort_on at_of rows)) (fun_ext at_of-horizon_time)
          (sort_on-IsSorted at_of rows),
      All-map (sort_on at_of rows) (λ r e. (picks_iff qualified now f l r).0 e)
          (All-sort_on (λ r. picks qualified now f l r ≡ true) at_of rows
            (filter-All (picks qualified now f l) table)),
      λ p h.
          count_if-sort_on p at_of rows
          ∙ count_if-filter p (picks qualified now f l) table
              (λ r e. (picks_iff qualified now f l r).1 (h r e)),
    )
