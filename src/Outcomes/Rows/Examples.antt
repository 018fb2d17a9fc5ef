-- ===== src/Outcomes/Rows/Examples.antt =====
-- A report on a token whose liquidity is not locked.
use tripwire_launch_auditor.Prelude.{◌≡◌, false, none, some, [], ◌∷◌, All}
use tripwire_launch_auditor.Scoring.Outcome.{all_outcome_keys}
use tripwire_launch_auditor.Outcomes.Rows.{EnsureOutcomeInput, ensure_outcome_rows}
use tripwire_launch_auditor.Outcomes.Rows.Grid.{Extends, ensure_outcome_rows-once}
use tripwire_launch_auditor.Outcomes.Rows.Keys.{Present}

abbrev report : EnsureOutcomeInput
report = record {
  chain_id = 4663;
  token_address = 97 ∷ [];
  report_time = 1000;
  trigger = "launch";
  launch_id = some 1;
  lp_locked_by_construction = false;
  retrospective = none;
}

ensure_outcome_rows-once_example :
    let after = (ensure_outcome_rows report []).0 in
    Extends report [] (ensure_outcome_rows report [])
    × All (Present report after) all_outcome_keys
    × (ensure_outcome_rows report after ≡ (after, 0))
ensure_outcome_rows-once_example = ensure_outcome_rows-once report []
