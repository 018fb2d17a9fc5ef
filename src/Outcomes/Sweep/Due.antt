-- ===== src/Outcomes/Sweep/Due.antt =====
-- apps/worker/src/outcomes/loop.ts: the query for the rows that are due, in the three orders.
use tripwire_launch_auditor.Prelude.{
  ℕ, ◌+◌, Bool, true, false, not, ◌&&◌, ◌||◌, Option, none, some, List, [], ◌∷◌, map, take, ltb,
  leb, if◌then◌else◌, sort_on,
}
use tripwire_launch_auditor.Scoring.Outcome.{OutcomeLabel, drawdown_80, trading_alive}
use tripwire_launch_auditor.Outcomes.Rows.{OutcomeStatus, pending, OutcomeRow, label_eq}
use tripwire_launch_auditor.Outcomes.Sweep.{
  default_retry_backoff_ms, all_outcome_labels, Order, SweepFilter, or_else, by_horizon, spread,
  fair,
}
use tripwire_launch_auditor.Outcomes.Sweep.Interleave.{is_nil, interleave}

unfoldable pub includes : OutcomeLabel → List OutcomeLabel → Bool
includes l [] = false
includes l (x ∷ xs) = label_eq x l || includes l xs

unfoldable pub is_pending : OutcomeStatus → Bool
is_pending pending = true
is_pending _ = false

unfoldable pub horizon_passed : Option ℕ → ℕ → Bool
horizon_passed none now = false
horizon_passed (some t) now = leb t now

-- The deferral's backoff has passed: `measuredAt < now - backoff`.
unfoldable pub backoff_passed : Option ℕ → ℕ → ℕ → Bool
backoff_passed none backoff now = true
backoff_passed (some t) backoff now = ltb (t + backoff) now

-- The condition on the label: where both lists are given, the later entry of the object overwrites
-- the earlier one.
unfoldable pub label_wanted : SweepFilter → OutcomeLabel → Bool
unfolding is_nil
label_wanted f l =
    if not (is_nil f.exclude_labels)
    then not (includes l f.exclude_labels)
    else if not (is_nil f.only_labels)
    then includes l f.only_labels
    else true

unfoldable pub lane_wanted : SweepFilter → OutcomeLabel → Bool → Bool
lane_wanted f l qualified =
    if f.lane_qualified_only
    then qualified
    else if f.qualified_only
    then label_eq l drawdown_80 || label_eq l trading_alive || qualified
    else true

unfoldable pub filter_rows : (OutcomeRow → Bool) → List OutcomeRow → List OutcomeRow
filter_rows p [] = []
filter_rows p (r ∷ rs) = if p r then r ∷ filter_rows p rs else filter_rows p rs

unfoldable pub at_of : OutcomeRow → ℕ
at_of r = or_else r.horizon_at 0

unfoldable pub kept_labels : SweepFilter → List OutcomeLabel → List OutcomeLabel
kept_labels f [] = []
kept_labels f (l ∷ ls) =
    if includes l f.exclude_labels then kept_labels f ls else l ∷ kept_labels f ls

unfoldable pub labels : SweepFilter → List OutcomeLabel
unfolding is_nil
labels f = kept_labels f (if is_nil f.only_labels then all_outcome_labels else f.only_labels)

-- The query that the order chooses.
unfoldable pub picked_by : Order → ℕ → List OutcomeRow → List OutcomeRow → List OutcomeRow
unfolding at_of
picked_by fair limit wanted shared = shared
picked_by spread limit wanted shared = take limit (sort_on OutcomeRow.id wanted)
picked_by by_horizon limit wanted shared = take limit (sort_on at_of wanted)

module _ (qualified : Option ℕ → Bool) (now : ℕ) (f : SweepFilter) where
  -- `where` without the label.
  unfoldable pub is_due : OutcomeRow → Bool
  unfolding is_pending horizon_passed backoff_passed lane_wanted or_else
  is_due r =
      is_pending r.status
      && horizon_passed r.horizon_at now
      && backoff_passed r.measured_at (or_else f.retry_backoff_ms default_retry_backoff_ms) now
      && lane_wanted f r.label (qualified r.launch_id)

  -- `findMany` of one label, the oldest horizon first.
  unfoldable pub label_group : ℕ → List OutcomeRow → OutcomeLabel → List OutcomeRow
  unfolding at_of
  label_group limit rows l =
      take limit (sort_on at_of (filter_rows (λ r. is_due r && label_eq r.label l) rows))

  unfoldable pub due_rows : ℕ → List OutcomeRow → List OutcomeRow
  unfolding picked_by
  due_rows limit rows =
      picked_by f.order limit (filter_rows (λ r. is_due r && label_wanted f r.label) rows)
        (interleave (map (label_group limit rows) (labels f)) limit)
