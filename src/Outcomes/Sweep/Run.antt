-- ===== src/Outcomes/Sweep/Run.antt =====
-- apps/worker/src/outcomes/loop.ts: `sweepDueOutcomes`.
use tripwire_launch_auditor.Prelude.{ℕ, Bool, Option, List, [], ◌∷◌, length}
use tripwire_launch_auditor.Watcher.Retry.{Raced}
use tripwire_launch_auditor.Outcomes.Resolvers.{Resolution}
use tripwire_launch_auditor.Outcomes.Rows.{OutcomeRow}
use tripwire_launch_auditor.Outcomes.Sweep.{default_give_up_after_ms, SweepFilter, or_else}
use tripwire_launch_auditor.Outcomes.Sweep.Due.{due_rows}
use tripwire_launch_auditor.Outcomes.Sweep.Store.{resolve_row, SweepResult, counted, update_row}

-- What the resolver comes to for a row, and when.
module _ (outcome_of : OutcomeRow → ℕ × Raced Resolution) (give_up_after_ms : ℕ) where
  unfoldable pub resolve_rows :
      List OutcomeRow → List OutcomeRow × SweepResult → List OutcomeRow × SweepResult
  unfolding resolve_row counted update_row
  resolve_rows [] s = s
  resolve_rows (row ∷ rows) s =
      let (now, outcome) = outcome_of row in
      let (after, count) = resolve_row give_up_after_ms now outcome row in
      resolve_rows rows (update_row after s.0, counted count s.1)

unfoldable pub sweep_due_outcomes :
    (Option ℕ → Bool)
    → (OutcomeRow → ℕ × Raced Resolution)
    → ℕ
    → SweepFilter
    → ℕ
    → List OutcomeRow
    → List OutcomeRow × SweepResult
unfolding resolve_rows due_rows or_else
sweep_due_outcomes qualified outcome_of now f limit table =
    let due = due_rows qualified now f limit table in
    resolve_rows outcome_of (or_else f.give_up_after_ms default_give_up_after_ms) due (
      table,
      record {
        picked = length due;
        resolved = 0;
        na = 0;
        unresolvable = 0;
        retry_later = 0;
        failed = 0;
      },
    )
