-- ===== src/Outcomes/Sweep/Store.antt =====
-- apps/worker/src/outcomes/loop.ts: `deferRow` and `resolveRow`, what a row becomes.
use tripwire_launch_auditor.Prelude.{
  ℕ, ◌+◌, Bool, false, Option, none, some, List, [], ◌∷◌, ◌==◌, if◌then◌else◌,
}
use tripwire_launch_auditor.Watcher.Retry.{value, failure, Raced, settled, deadline_error}
use tripwire_launch_auditor.Outcomes.Resolvers.{
  Reason, quoter_failed, spot_failed, bulk_failed, survival_thrown, Resolution,
}
use tripwire_launch_auditor.Outcomes.Resolvers
use tripwire_launch_auditor.Outcomes.Rows.{OutcomeStatus, resolved, na, unresolvable, OutcomeRow}
use tripwire_launch_auditor.Outcomes.Sweep.Deferral.{defer_or_give_up, is_retryable, defer, give_up}

-- How a row counts in the `SweepResult`.
pub data Count : Type 0 where
  counts_resolved counts_na counts_unresolvable counts_retry_later counts_failed : Count

unfoldable pub defer_row : ℕ → ℕ → OutcomeRow → OutcomeRow × Count
unfolding defer_or_give_up
defer_row give_up_after_ms now row =
    let (action, first) = defer_or_give_up row.first_deferred_at now give_up_after_ms in
    elim action [
      | give_up ↦ (
        record row {
          status = unresolvable;
          verdict = none;
          first_deferred_at = some first;
          deferrals = row.deferrals + 1;
          measured_at = some now;
        },
        counts_unresolvable,
      )
      | defer ↦ (
        record row {
          first_deferred_at = some first;
          deferrals = row.deferrals + 1;
          measured_at = some now;
        },
        counts_retry_later,
      )
    ]

-- The row that stores a verdict, whose evidence replaces that of the deferrals.
unfoldable pub stored : OutcomeRow → ℕ → OutcomeStatus → Option Bool → OutcomeRow
stored row now s v = record row {
  status = s;
  verdict = v;
  measured_at = some now;
  first_deferred_at = none;
  deferrals = 0;
}

-- A resolution that is not retried.
unfoldable pub store_resolution : OutcomeRow → ℕ → Resolution → OutcomeRow × Count
unfolding stored
store_resolution row now (Resolvers.not_applicable) = (stored row now na none, counts_na)
store_resolution row now (Resolvers.unresolvable reason c) =
    (stored row now unresolvable none, counts_unresolvable)
store_resolution row now (Resolvers.resolved b c) =
    (stored row now resolved (some b), counts_resolved)

unfoldable pub retry_reason : Resolution → Bool
unfolding is_retryable
retry_reason (Resolvers.unresolvable reason c) = is_retryable reason
retry_reason _ = false

unfoldable pub resolve_row : ℕ → ℕ → Raced Resolution → OutcomeRow → OutcomeRow × Count
unfolding defer_row store_resolution retry_reason
resolve_row give_up_after_ms now (settled (value r)) row =
    if retry_reason r then defer_row give_up_after_ms now row else store_resolution row now r
resolve_row give_up_after_ms now (settled (failure e)) row =
    if e.retryable
    then defer_row give_up_after_ms now row
    else (record row { measured_at = some now }, counts_failed)
resolve_row give_up_after_ms now deadline_error row = defer_row give_up_after_ms now row

pub record SweepResult : Type 0 where
  pub picked : ℕ
  pub resolved : ℕ
  pub na : ℕ
  pub unresolvable : ℕ
  pub retry_later : ℕ
  pub failed : ℕ

unfoldable pub counted : Count → SweepResult → SweepResult
counted counts_resolved r = record r { resolved = r.resolved + 1 }
counted counts_na r = record r { na = r.na + 1 }
counted counts_unresolvable r = record r { unresolvable = r.unresolvable + 1 }
counted counts_retry_later r = record r { retry_later = r.retry_later + 1 }
counted counts_failed r = record r { failed = r.failed + 1 }

-- `update` where the id is the row's.
unfoldable pub update_row : OutcomeRow → List OutcomeRow → List OutcomeRow
update_row r [] = []
update_row r (x ∷ xs) = (if x.id == r.id then r else x) ∷ update_row r xs
