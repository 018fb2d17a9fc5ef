-- ===== src/Scoring/Metrics/Examples.antt =====
-- Four scores, two of them equal.
use tripwire_launch_auditor.Prelude.{
  ℕ, ◌*◌, ◌≡◌, Bool, true, false, ◌&&◌, none, some, List, [], ◌∷◌, length, ltb, ◌==◌, if◌then◌else◌,
}
use tripwire_launch_auditor.Scoring.Metrics.{positives, negatives, auroc}
use tripwire_launch_auditor.Scoring.Metrics.Pairs.{wins, auroc-wins}

abbrev scores : List ℕ
scores = 90 ∷ 40 ∷ 40 ∷ 10 ∷ []

abbrev labels : List Bool
labels = true ∷ true ∷ false ∷ false ∷ []

auroc-wins_example :
    let pos = positives scores labels in
    let neg = negatives scores labels in
    auroc scores labels ≡ (
      if (4 == 4) && ltb 0 (length pos) && ltb 0 (length neg)
      then some (record { num = wins pos neg; den = 2 * (length pos * length neg) })
      else none)
auroc-wins_example = auroc-wins scores labels
