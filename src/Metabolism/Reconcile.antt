-- ===== src/Metabolism/Reconcile.antt =====
-- apps/worker/src/metabolism/reconcile.ts. Amounts are whole micro-dollars, so that `r6` changes
-- neither a difference nor a maximum of two; a percentage is a whole number of 1e-6 percent, and
-- `Math.round` of a quotient is written out. The texts of the reasons are constructors.
pub mod Grades
use tripwire_launch_auditor.Prelude.{
  ℕ, zero, suc, ◌+◌, ◌-◌, ◌*◌, ◌/◌, Bool, true, false, ◌&&◌, Option, none, some, ltb, leb, ◌==◌,
  if◌then◌else◌, ℤ, pos, negsuc,
}

pub data BillingStatus : Type 0 where
  exact aggregate_only unavailable anomaly phantom : BillingStatus

pub data EpochReason : Type 0 where
  phantom_spend idle_window unpriced too_small estimator_anomaly reconciled : EpochReason

pub record EpochInput : Type 0 where
  pub provider_spend_now_usd : ℕ
  pub provider_spend_prev_usd : ℕ
  pub local_estimate_usd : ℕ
  pub request_count : ℕ
  -- in 1e-6 percent
  pub anomaly_pct : ℕ
  pub phantom_tolerance_usd : ℕ
  pub lag_request_count : Option ℕ
  pub min_grade_usd : Option ℕ

pub record EpochResult : Type 0 where
  pub provider_delta_usd : ℕ
  pub local_estimate_usd : ℕ
  pub request_count : ℕ
  -- in 1e-6
  pub reconciliation_factor : Option ℕ
  -- in 1e-6 percent
  pub discrepancy_pct : Option ℤ
  pub is_phantom : Bool
  pub is_anomaly : Bool
  pub billing_status : BillingStatus
  pub reason : EpochReason

pub or_default : Option ℕ → ℕ → ℕ
or_default none d = d
or_default (some n) d = n

-- `Math.round(a / b)` for numbers that are not negative: half goes up.
pub round_div : ℕ → ℕ → ℕ
round_div a b = (2 * a + b) / (2 * b)

-- The same for `-a / b`, without its sign: half goes toward zero.
pub round_div_down : ℕ → ℕ → ℕ
round_div_down a b = (2 * a + (b - 1)) / (2 * b)

negated : ℕ → ℤ
negated zero = pos 0
negated (suc m) = negsuc m

-- `r6(((providerDelta - local) / local) * 100)`
discrepancy : ℕ → ℕ → ℤ
unfolding negated round_div round_div_down
discrepancy provider local =
    if leb local provider
    then pos (round_div ((provider - local) * 100_000_000) local)
    else negated (round_div_down ((local - provider) * 100_000_000) local)

abs : ℤ → ℕ
abs (pos n) = n
abs (negsuc n) = n + 1

factor_of : ℕ → ℕ → Option ℕ
unfolding round_div
factor_of provider local =
    if ltb 0 provider then some (round_div (provider * 1_000_000) local) else none

-- A result without a grade.
ungraded : EpochInput → ℕ → Bool → BillingStatus → EpochReason → EpochResult
ungraded i delta is_phantom status reason = record {
  provider_delta_usd = delta;
  local_estimate_usd = i.local_estimate_usd;
  request_count = i.request_count;
  reconciliation_factor = none;
  discrepancy_pct = none;
  is_phantom = is_phantom;
  is_anomaly = false;
  billing_status = status;
  reason = reason;
}

graded : EpochInput → ℕ → ℤ → Bool → EpochResult
unfolding factor_of
graded i delta pct is_anomaly = record {
  provider_delta_usd = delta;
  local_estimate_usd = i.local_estimate_usd;
  request_count = i.request_count;
  reconciliation_factor = factor_of delta i.local_estimate_usd;
  discrepancy_pct = some pct;
  is_phantom = false;
  is_anomaly = is_anomaly;
  billing_status = if is_anomaly then anomaly else aggregate_only;
  reason = if is_anomaly then estimator_anomaly else reconciled;
}

pub reconcile_epoch : EpochInput → EpochResult
unfolding ungraded graded discrepancy abs or_default
reconcile_epoch i =
    let delta = i.provider_spend_now_usd - i.provider_spend_prev_usd in
    let min_grade = or_default i.min_grade_usd 20_000 in
    let pct = discrepancy delta i.local_estimate_usd in
    if (i.request_count == 0)
      && (or_default i.lag_request_count 0 == 0)
      && ltb i.phantom_tolerance_usd delta
    then ungraded i delta true phantom phantom_spend
    else if i.request_count == 0
    then ungraded i delta false aggregate_only idle_window
    else if i.local_estimate_usd == 0
    then ungraded i delta false unavailable unpriced
    else if ltb i.local_estimate_usd min_grade && ltb delta min_grade
    then ungraded i delta false aggregate_only too_small
    else graded i delta pct (ltb i.anomaly_pct (abs pct))

pub billing_blocks_inference : Option BillingStatus → Bool
billing_blocks_inference (some anomaly) = true
billing_blocks_inference (some phantom) = true
billing_blocks_inference status = false
