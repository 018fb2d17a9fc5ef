-- ===== src/Metabolism/Epoch/Examples.antt =====
-- A window with a run whose charge comes in the next window.
use tripwire_launch_auditor.Prelude.{ℕ, Option, ◌≡◌, refl, true, false, none, some, [], ◌∷◌, arith}
use tripwire_launch_auditor.Metabolism.Reconcile.{exact, phantom, idle_window}
use tripwire_launch_auditor.Metabolism.Ledger.{unavailable, SpendRow}
use tripwire_launch_auditor.Metabolism.Ledger.Store.{
  window_estimate, is_null, in_window, reconcile_row, apply_reconciliation,
}
use tripwire_launch_auditor.Metabolism.Epoch.{
  EpochRow, Accounts, EpochEnv, lag_count, graded_epoch, epoch_step, window_start,
}
use tripwire_launch_auditor.Metabolism.Epoch.Lag.{epoch_step-lag}

abbrev env : EpochEnv
env = record {
  metabolism_anomaly_pct = 20_000_000;
  metabolism_phantom_tolerance_usd = 1000;
  metabolism_anomaly_epochs = 2;
  interval_ms = 100;
}

abbrev first : EpochRow
first = record {
  id = 0;
  at = 100;
  provider_spend_usd = 0;
  result = record {
    provider_delta_usd = 0;
    local_estimate_usd = 0;
    request_count = 0;
    reconciliation_factor = none;
    discrepancy_pct = none;
    is_phantom = false;
    is_anomaly = false;
    billing_status = exact;
    reason = idle_window;
  };
  status = exact;
}

abbrev run : SpendRow
run = record {
  id = 0;
  at = 150;
  cost_usd = 20_000;
  model = "sakana/fugu-max";
  key_hash_prefix = none;
  report_id = none;
  generation_id = none;
  prompt_tokens = none;
  completion_tokens = none;
  estimated_cost_usd = some 20_000;
  pricing_version = none;
  cost_basis = unavailable;
  reconciled_cost_usd = none;
  epoch_id = none;
}

abbrev before : Accounts
before = record { ledger = run ∷ []; epochs = first ∷ []; consecutive_anomalies = 0 }

graded_run :
    (f : Option ℕ)
    → (window_estimate (some 200) 300 (apply_reconciliation (some 100) 200 1 f (run ∷ [])).0).1 ≡ 0
unfolding window_estimate apply_reconciliation reconcile_row in_window is_null
graded_run none = refl
graded_run (some n) = refl

next_idle : (window_estimate (some 200) 300 (epoch_step env 0 none 200 before).ledger).1 ≡ 0
unfolding epoch_step window_start
next_idle = graded_run (graded_epoch env 0 none 200 before).reconciliation_factor

epoch_step-lag_example :
    let b = epoch_step env 0 none 200 before in
    (lag_count env b.epochs b.ledger ≡ 0)
    × ((graded_epoch env 20_000 none 300 b).is_phantom ≡ true)
    × ((graded_epoch env 20_000 none 300 b).billing_status ≡ phantom)
epoch_step-lag_example =
    epoch_step-lag env 0 none 200 before first [] 20_000 300 none refl next_idle (omega arith)
