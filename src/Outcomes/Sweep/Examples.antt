-- ===== src/Outcomes/Sweep/Examples.antt =====
-- Two rows that are due, and one that keeps missing its deadline.
use tripwire_launch_auditor.Prelude.{
  ℕ, ◌+◌, ◌<◌, ◌≡◌, ◌↔◌, ◌⊎◌, refl, Bool, true, false, Option, none, some, List, [], ◌∷◌, map,
  length, take, get_elem?, All, arith, ◌≢◌, subst, sym,
}
use tripwire_launch_auditor.Scoring.Outcome.{
  OutcomeLabel, drawdown_80, trading_alive, liq_impaired, h24,
}
use tripwire_launch_auditor.Watcher.Retry.{Raced, settled, value, deadline_error}
use tripwire_launch_auditor.Outcomes.Resolvers
use tripwire_launch_auditor.Outcomes.Resolvers.{Resolution}
use tripwire_launch_auditor.Outcomes.Rows.{OutcomeRow, pending, unresolvable}
use tripwire_launch_auditor.Outcomes.Sweep.{Order, by_horizon, fair, SweepFilter}
use tripwire_launch_auditor.Outcomes.Sweep.Due.{due_rows}
use tripwire_launch_auditor.Outcomes.Sweep.Queue.{IsQueue}
use tripwire_launch_auditor.Outcomes.Sweep.Labels.{Among, Wanted}
use tripwire_launch_auditor.Outcomes.Sweep.Run.{sweep_due_outcomes}
use tripwire_launch_auditor.Outcomes.Sweep.Fair.{columns, due_rows-fair}
use tripwire_launch_auditor.Outcomes.Sweep.Clock.{tried, tried-give_up}
use tripwire_launch_auditor.Outcomes.Sweep.Counts.{
  total, NotAmong, sweep_due_outcomes-Counts, due_rows-ignores_only,
}

abbrev row : ℕ → OutcomeLabel → OutcomeRow
row id label = record {
  id = id;
  chain_id = 4663;
  token_address = 97 ∷ [];
  anchor_time = 0;
  trigger = "launch";
  launch_id = some 1;
  label = label;
  horizon = h24;
  status = pending;
  verdict = none;
  horizon_at = some 86_400_000;
  measured_at = none;
  first_deferred_at = none;
  deferrals = 0;
  retrospective = false;
}

abbrev table : List OutcomeRow
table = row 0 drawdown_80 ∷ row 1 trading_alive ∷ []

abbrev filter : Order → SweepFilter
filter order = record {
  qualified_only = false;
  only_labels = [];
  exclude_labels = liq_impaired ∷ [];
  order = order;
  retry_backoff_ms = none;
  give_up_after_ms = none;
  lane_qualified_only = false;
}

abbrev qualified : Option ℕ → Bool
qualified launch_id = true

abbrev outcome : OutcomeRow → ℕ × Raced Resolution
outcome r = (90_000_000, settled (value (Resolvers.resolved true none)))

due_rows-fair_example :
    (queues : OutcomeLabel → List OutcomeRow) × (wanted : List OutcomeLabel) × ((l : OutcomeLabel)
      → IsQueue qualified 90_000_000 (filter fair) table l (queues l))
    × ((l : OutcomeLabel) → Among l wanted ↔ Wanted (filter fair) l)
    × (due_rows qualified 90_000_000 (filter fair) 1 table
        ≡ take 1 (columns 1 0 (map (λ l. take 1 (queues l)) wanted)))
due_rows-fair_example = due_rows-fair qualified 90_000_000 (filter fair) 1 table refl

tried-give_up_example :
    let r = tried 1000 (row 0 drawdown_80) ((50, deadline_error) ∷ (2000, deadline_error) ∷ []) in
    ((r.status ≡ pending)
      ↔ All (λ (t : ℕ × Raced Resolution). t.0 < 50 + 1000) ((2000, deadline_error) ∷ []))
    × ((r.status ≡ pending) ⊎ (r.status ≡ unresolvable))
    × (r.first_deferred_at ≡ some 50)
tried-give_up_example =
    tried-give_up 1000 50 deadline_error ((2000, deadline_error) ∷ []) (row 0 drawdown_80)
      (omega arith) refl refl tt (tt, tt)

sweep_due_outcomes-Counts_example :
    let due = due_rows qualified 90_000_000 (filter by_horizon) 1 table in
    let r = sweep_due_outcomes qualified outcome 90_000_000 (filter by_horizon) 1 table in
    (r.1.picked ≡ length due)
    × (total r.1 ≡ length due)
    × (length r.0 ≡ 2)
    × ((n : ℕ) (x : OutcomeRow)
        → get_elem? table n ≡ some x
        → NotAmong x.id due
        → get_elem? r.0 n ≡ some x)
sweep_due_outcomes-Counts_example =
    sweep_due_outcomes-Counts qualified outcome 90_000_000 (filter by_horizon) 1 table

IsFair : Order → Type 0
IsFair fair = Unit {0}
IsFair _ = ⊥

unfair : by_horizon ≢ fair
unfolding IsFair
unfair e = subst IsFair (sym e) tt

due_rows-ignores_only_example :
    due_rows qualified 90_000_000 (filter by_horizon) 5 table
    ≡ due_rows qualified 90_000_000
        (record (filter by_horizon) { only_labels = drawdown_80 ∷ [] })
        5
        table
due_rows-ignores_only_example =
    due_rows-ignores_only qualified 90_000_000 (filter by_horizon) 5 table liq_impaired []
      (drawdown_80 ∷ []) refl unfair
