-- ===== src/Outcomes/Sweep.antt =====
-- apps/worker/src/outcomes/loop.ts: one sweep over the outcomes that are due. What the resolver of a row
-- comes to, within the deadline or not, and when, is an argument; the workers of a sweep take each
-- row once, so that the rows are done in order. The writes to the table succeed, and the order of
-- rows that the query leaves open is that of the table.
pub mod Interleave
pub mod Deferral
pub mod Due
pub mod Store
pub mod Run
pub mod Fair
pub mod Labels
pub mod Queue
pub mod Clock
pub mod Counts
pub mod Examples
use tripwire_launch_auditor.Prelude.{
  ℕ, zero, suc, ◌+◌, ◌-◌, ◌*◌, Bool, true, false, not, ◌&&◌, ◌||◌, Option, none, some, List, [],
  ◌∷◌, ◌++◌, map, length, get_elem?, take, ltb, leb, ◌==◌, if◌then◌else◌, sort_on,
}
use tripwire_launch_auditor.Scoring.Outcome.{
  OutcomeLabel, insider_exit, sell_impaired, liq_impaired, drawdown_80, trading_alive,
}
use tripwire_launch_auditor.Watcher.Retry.{
  Failure, Settled, value, failure, Raced, settled, deadline_error,
}
use tripwire_launch_auditor.Outcomes.Quote.{QuoteError}
use tripwire_launch_auditor.Outcomes.Quote
use tripwire_launch_auditor.Outcomes.Resolvers.{
  Reason, quoter_failed, spot_failed, bulk_failed, survival_thrown, Resolution,
}
use tripwire_launch_auditor.Outcomes.Resolvers
use tripwire_launch_auditor.Outcomes.Rows.{
  OutcomeStatus, pending, resolved, na, unresolvable, OutcomeRow, label_eq,
}

abbrev pub default_retry_backoff_ms : ℕ
default_retry_backoff_ms = 30 * 60_000

abbrev pub default_give_up_after_ms : ℕ
default_give_up_after_ms = 24 * 3_600_000

unfoldable pub all_outcome_labels : List OutcomeLabel
all_outcome_labels = insider_exit ∷ sell_impaired ∷ liq_impaired ∷ drawdown_80 ∷ trading_alive ∷ []

pub data Order : Type 0 where
  by_horizon spread fair : Order

pub record SweepFilter : Type 0 where
  pub qualified_only : Bool
  pub only_labels : List OutcomeLabel
  pub exclude_labels : List OutcomeLabel
  pub order : Order
  pub retry_backoff_ms : Option ℕ
  pub give_up_after_ms : Option ℕ
  pub lane_qualified_only : Bool

unfoldable pub or_else : Option ℕ → ℕ → ℕ
or_else none d = d
or_else (some n) d = n
