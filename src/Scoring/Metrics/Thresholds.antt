-- ===== src/Scoring/Metrics/Thresholds.antt =====
-- Precision and recall at a threshold.
use tripwire_launch_auditor.Prelude.{
  ℕ, ◌+◌, ◌≡◌, Bool, List, [], ◌∷◌, length, leb, arith, ap, count_if,
}
use tripwire_launch_auditor.Scoring.Metrics.{positives, negatives, tally_at, precision_recall_at}
use tripwire_launch_auditor.Scoring.Metrics.Pairs.{positives-nil}

-- At a threshold, the true positives are the positives that reach it, the false negatives the other
-- positives, and the false positives the negatives that reach it.
pub precision_recall_at-counts :
    (scores : List ℕ) (labels : List Bool) (threshold : ℕ)
    → let r = precision_recall_at scores labels threshold in
      (r.tp ≡ count_if (λ s. leb threshold s) (positives scores labels))
      × (r.tp + r.fn ≡ length (positives scores labels))
      × (r.fp ≡ count_if (λ s. leb threshold s) (negatives scores labels))
unfolding precision_recall_at tally_at positives negatives count_if
precision_recall_at-counts [] labels t = omega arith
precision_recall_at-counts (s ∷ scores) [] t =
    let e = positives-nil scores in
    let (a, b, c) = precision_recall_at-counts scores [] t in
    let x : count_if (λ s. leb t s) (positives scores []) ≡ 0 = ap (count_if (λ s. leb t s)) e in
    let y : length (positives scores []) ≡ 0 = ap length e in ground (arith, a, b, c, x, y)
precision_recall_at-counts (s ∷ scores) (b ∷ labels) t =
    ground (arith, precision_recall_at-counts scores labels t)
