-- ===== src/Scoring/Metrics.antt =====
-- packages/scoring/src/metrics.ts and base-rate.ts. A score is a natural number of one unit, so that
-- it compares as the source's number does; a rank is doubled, so that the mean of a group of equal
-- scores is whole, and a quotient is the fraction that it stands for. An array of ranks is a
-- function, written at one index after the other.
pub mod Ranks
pub mod Midranks
pub mod Pairs
pub mod Thresholds
pub mod Examples
use tripwire_launch_auditor.Prelude.{
  ℕ, zero, suc, ◌+◌, ◌-◌, ◌*◌, Bool, true, false, not, ◌&&◌, ◌||◌, Option, none, some, List, [],
  ◌∷◌, ◌++◌, length, take, drop, leb, ltb, ◌==◌, if◌then◌else◌, sort_on, count_if,
}

pub record Ratio : Type 0 where
  pub num : ℕ
  pub den : ℕ

-- The scores with their indices.
pub entries : ℕ → List ℕ → List (ℕ × ℕ)
entries i [] = []
entries i (v ∷ vs) = (v, i) ∷ entries (i + 1) vs

-- How many entries at the front have the score: the inner `while`.
pub run_length : ℕ → List (ℕ × ℕ) → ℕ
run_length v [] = 0
run_length v (e ∷ es) = if e.0 == v then suc (run_length v es) else 0

-- One rank for each of the indices.
pub write_group : ℕ → List (ℕ × ℕ) → List (ℕ × ℕ)
write_group rank [] = []
write_group rank (e ∷ es) = (e.1, rank) ∷ write_group rank es

-- The outer `while`, on the number of entries, from position `i` of the sorted array: what it writes.
pub rank_groups : ℕ → ℕ → List (ℕ × ℕ) → List (ℕ × ℕ)
rank_groups zero i order = []
rank_groups (suc fuel) i [] = []
rank_groups (suc fuel) i (e ∷ rest) =
    let m = run_length e.0 rest in
    write_group (i + (i + m) + 2) (e ∷ take m rest) ++ rank_groups fuel (i + m + 1) (drop m rest)

pub write_all : (ℕ → ℕ) → List (ℕ × ℕ) → ℕ → ℕ
write_all ranks [] = ranks
write_all ranks ((k, r) ∷ ws) = write_all (λ j. if j == k then r else ranks j) ws

pub midranks : List ℕ → ℕ → ℕ
midranks values =
    write_all (λ j. 0) (rank_groups (length values) 0 (sort_on (λ e. e.0) (entries 0 values)))

-- The scores of the positives, and of the negatives.
pub positives : List ℕ → List Bool → List ℕ
positives [] labels = []
positives (s ∷ scores) [] = []
positives (s ∷ scores) (b ∷ labels) =
    if b then s ∷ positives scores labels else positives scores labels

pub negatives : List ℕ → List Bool → List ℕ
negatives [] labels = []
negatives (s ∷ scores) [] = s ∷ negatives scores []
negatives (s ∷ scores) (b ∷ labels) =
    if b then negatives scores labels else s ∷ negatives scores labels

-- The sum of the ranks at the positive labels, from index `i` on.
pub rank_sum : (ℕ → ℕ) → ℕ → List Bool → ℕ
rank_sum ranks i [] = 0
rank_sum ranks i (b ∷ labels) = (if b then ranks i else 0) + rank_sum ranks (i + 1) labels

pub auroc : List ℕ → List Bool → Option Ratio
auroc scores labels =
    let p = length (positives scores labels) in
    let n = length (negatives scores labels) in
    if not (length scores == length labels) || (length scores == 0)
    then none
    else if (p == 0) || (n == 0)
    then none
    else some
        (record { num = rank_sum (midranks scores) 0 labels - p * (p + 1); den = 2 * (p * n) })

-- Counts at a threshold.
pub record PrRecall : Type 0 where
  pub threshold : ℕ
  pub precision : Option Ratio
  pub recall : Option Ratio
  pub tp : ℕ
  pub fp : ℕ
  pub fn : ℕ

-- `tp`, `fp` and `fn`.
pub tally_at : List ℕ → List Bool → ℕ → ℕ × ℕ × ℕ
tally_at [] labels threshold = (0, 0, 0)
tally_at (s ∷ scores) [] threshold =
    let (tp, fp, fn) = tally_at scores [] threshold in
    if leb threshold s then (tp, fp + 1, fn) else (tp, fp, fn)
tally_at (s ∷ scores) (b ∷ labels) threshold =
    let (tp, fp, fn) = tally_at scores labels threshold in
    if leb threshold s
    then (if b then (tp + 1, fp, fn) else (tp, fp + 1, fn))
    else if b
    then (tp, fp, fn + 1)
    else (tp, fp, fn)

ratio_of : ℕ → ℕ → Option Ratio
ratio_of a b = if ltb 0 b then some (record { num = a; den = b }) else none

pub precision_recall_at : List ℕ → List Bool → ℕ → PrRecall
unfolding tally_at ratio_of
precision_recall_at scores labels threshold =
    let (tp, fp, fn) = tally_at scores labels threshold in
    record {
      threshold = threshold;
      precision = ratio_of tp (tp + fp);
      recall = ratio_of tp (tp + fn);
      tp = tp;
      fp = fp;
      fn = fn;
    }

-- The square of a probability's distance to the label, in squares of the unit.
squared_error : ℕ → ℕ → Bool → ℕ
squared_error unit s true = (unit - s) * (unit - s)
squared_error unit s false = s * s

sum_errors : ℕ → List ℕ → List Bool → ℕ
unfolding squared_error
sum_errors unit [] labels = 0
sum_errors unit (s ∷ scores) [] = squared_error unit s false + sum_errors unit scores []
sum_errors unit (s ∷ scores) (b ∷ labels) = squared_error unit s b + sum_errors unit scores labels

-- For probabilities that are at most the unit.
pub brier_score : ℕ → List ℕ → List Bool → Option Ratio
unfolding sum_errors
brier_score unit scores labels =
    if not (length scores == length labels) || (length scores == 0)
    then none
    else some (record { num = sum_errors unit scores labels; den = length scores * (unit * unit) })

pub base_rate : List Bool → Ratio
base_rate labels =
    if length labels == 0
    then record { num = 0; den = 1 }
    else record { num = count_if (λ b. b) labels; den = length labels }
