-- ===== src/Metabolism/Epoch.antt =====
-- apps/worker/src/metabolism/lifecycle-runner.ts: the reconciliation of an epoch within a tick of the
-- runner. The ledger and the table of epochs are the state, the latest epoch first; the table gives
-- its number of rows as an id. The baseline is the one that is stored when the epoch is graded.
pub mod Lag
pub mod Examples
use tripwire_launch_auditor.Prelude.{
  ℕ, zero, suc, ◌+◌, ◌-◌, Bool, true, false, Option, none, some, List, [], ◌∷◌, length, leb,
  if◌then◌else◌,
}
use tripwire_launch_auditor.Metabolism.Reconcile.{
  BillingStatus, exact, aggregate_only, unavailable, anomaly, phantom, EpochInput, EpochResult,
  reconcile_epoch,
}
use tripwire_launch_auditor.Metabolism.Ledger.{SpendRow}
use tripwire_launch_auditor.Metabolism.Ledger.Store.{window_estimate, apply_reconciliation}

pub record EpochRow : Type 0 where
  pub id : ℕ
  pub at : ℕ
  pub provider_spend_usd : ℕ
  pub result : EpochResult
  pub status : BillingStatus

pub record SpendBaseline : Type 0 where
  pub provider_spent_usd : ℕ
  pub at : ℕ

pub record Accounts : Type 0 where
  pub ledger : List SpendRow
  pub epochs : List EpochRow
  pub consecutive_anomalies : ℕ

-- The settings that the epoch reads.
pub record EpochEnv : Type 0 where
  pub metabolism_anomaly_pct : ℕ
  pub metabolism_phantom_tolerance_usd : ℕ
  pub metabolism_anomaly_epochs : ℕ
  pub interval_ms : ℕ

pub provider_spend_prev : List EpochRow → Option SpendBaseline → ℕ → ℕ
provider_spend_prev (e ∷ es) baseline now_usd = e.provider_spend_usd
provider_spend_prev [] (some b) now_usd = b.provider_spent_usd
provider_spend_prev [] none now_usd = now_usd

pub window_start : List EpochRow → Option SpendBaseline → ℕ → ℕ
window_start (e ∷ es) baseline epoch_at = e.at
window_start [] (some b) epoch_at = b.at
window_start [] none epoch_at = epoch_at

-- The requests of the window before.
pub lag_count : EpochEnv → List EpochRow → List SpendRow → ℕ
lag_count env [] ledger = 0
lag_count env (e ∷ []) ledger = (window_estimate (some (e.at - env.interval_ms)) e.at ledger).1
lag_count env (e ∷ d ∷ es) ledger = (window_estimate (some d.at) e.at ledger).1

-- One anomalous window is logged, and not acted on.
calmed : BillingStatus → BillingStatus
calmed anomaly = aggregate_only
calmed s = s

pub status_of : EpochEnv → EpochResult → ℕ → BillingStatus
unfolding calmed
status_of env ep consecutive =
    if ep.is_phantom
    then phantom
    else if leb env.metabolism_anomaly_epochs consecutive
    then anomaly
    else calmed ep.billing_status

pub graded_epoch : EpochEnv → ℕ → Option SpendBaseline → ℕ → Accounts → EpochResult
unfolding provider_spend_prev
graded_epoch env provider_spend_usd baseline epoch_at a =
    let start = window_start a.epochs baseline epoch_at in
    let (sum, count) = window_estimate (some start) epoch_at a.ledger in
    reconcile_epoch (record {
      provider_spend_now_usd = provider_spend_usd;
      provider_spend_prev_usd = provider_spend_prev a.epochs baseline provider_spend_usd;
      local_estimate_usd = sum;
      request_count = count;
      anomaly_pct = env.metabolism_anomaly_pct;
      phantom_tolerance_usd = env.metabolism_phantom_tolerance_usd;
      lag_request_count = some (lag_count env a.epochs a.ledger);
      min_grade_usd = none;
    })

pub epoch_step : EpochEnv → ℕ → Option SpendBaseline → ℕ → Accounts → Accounts
unfolding graded_epoch window_start
epoch_step env provider_spend_usd baseline epoch_at a =
    let ep = graded_epoch env provider_spend_usd baseline epoch_at a in
    let consecutive = if ep.is_anomaly then a.consecutive_anomalies + 1 else 0 in
    let row : EpochRow = record {
      id = length a.epochs;
      at = epoch_at;
      provider_spend_usd = provider_spend_usd;
      result = ep;
      status = status_of env ep consecutive;
    } in
    record {
      ledger =
          (apply_reconciliation (some (window_start a.epochs baseline epoch_at)) epoch_at row.id
            ep.reconciliation_factor a.ledger).0;
      epochs = row ∷ a.epochs;
      consecutive_anomalies = consecutive;
    }
