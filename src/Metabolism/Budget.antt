-- ===== src/Metabolism/Budget.antt =====
-- packages/db/src/deepdive-budget.ts and apps/worker/src/metabolism/budget.ts. Amounts are whole
-- micro-dollars, and twice that where a half of one is taken; `round2` gives cents.
pub mod Gate
pub mod Daily
pub mod Examples
use tripwire_launch_auditor.Prelude.{
  ℕ, ◌+◌, ◌-◌, ◌*◌, ◌/◌, min, max, Bool, true, false, ◌||◌, Option, none, some, ltb, leb, ◌==◌,
  if◌then◌else◌, String, ◌=ₛ◌, ℤ, pos, negsuc, positive_part,
}

abbrev pub cent : ℕ
cent = 10_000

-- `Math.round(x * 100) / 100` of micro-dollars, in cents.
round2 : ℕ → ℕ
round2 x = (x + 5000) / cent

-- The same of half micro-dollars.
round2_of_half : ℕ → ℕ
round2_of_half x = (x + 10_000) / 20_000

pub record BudgetInputs : Type 0 where
  pub daily_cap_usd : ℕ
  pub trailing_credits_usd : ℕ
  pub key_remaining_usd : ℕ
  pub reserve_usd : ℕ

pub data Constraint : Type 0 where
  daily_cap credit_share key_reserve no_money : Constraint

-- In cents.
pub record BudgetBreakdown : Type 0 where
  pub budget_usd : ℕ
  pub binding_constraint : Constraint
  pub credit_share_usd : ℕ
  pub spendable_key_usd : ℕ

-- One pass of the loop over the candidates, in half micro-dollars.
closer : Constraint × ℕ → Constraint × ℕ → Constraint × ℕ
closer c best = if ltb c.1 best.1 then c else best

named : Constraint × ℕ → Constraint
named best = if best.1 == 0 then no_money else best.0

pub daily_deepdive_budget : BudgetInputs → BudgetBreakdown
unfolding closer named round2_of_half
daily_deepdive_budget i =
    let credit_share_usd = i.trailing_credits_usd in
    let spendable_key_usd = 2 * (i.key_remaining_usd - i.reserve_usd) in
    let binding =
      closer (key_reserve, spendable_key_usd)
        (closer (credit_share, credit_share_usd) (daily_cap, 2 * i.daily_cap_usd)) in
    record {
      budget_usd = round2_of_half binding.1;
      binding_constraint = named binding;
      credit_share_usd = round2_of_half credit_share_usd;
      spendable_key_usd = round2_of_half spendable_key_usd;
    }

pub record DeepdiveRunGateInputs : Type 0 where
  pub cap_per_run_usd : ℕ
  pub daily_cap_usd : ℕ
  pub today_spend_usd : ℕ
  pub provider_spend_today_usd : Option ℕ
  pub spendable_usd : ℤ
  pub billing_status : Option String

pub data GateReason : Type 0 where
  billing_stopped balance_at_reserve cap_reached nothing_affordable allowed_run : GateReason

-- In cents.
pub record DeepdiveRunGate : Type 0 where
  pub allowed : Bool
  pub reason : GateReason
  pub remaining_today_usd : ℕ
  pub max_run_cost_usd : ℕ
  pub balance_stale : Bool

pub is_status : Option String → String → Bool
is_status none s = false
is_status (some t) s = t =ₛ s

pub or_zero : Option ℕ → ℕ
or_zero none = 0
or_zero (some n) = n

gate : Bool → GateReason → ℕ → ℕ → Bool → DeepdiveRunGate
gate allowed reason remaining max_run stale = record {
  allowed = allowed;
  reason = reason;
  remaining_today_usd = remaining;
  max_run_cost_usd = max_run;
  balance_stale = stale;
}

pub deepdive_run_gate : DeepdiveRunGateInputs → DeepdiveRunGate
unfolding round2 gate
deepdive_run_gate i =
    let spent = max i.today_spend_usd (or_zero i.provider_spend_today_usd) in
    let remaining = round2 (i.daily_cap_usd - spent) in
    let max_run =
      round2 (min i.cap_per_run_usd (min (remaining * cent) (positive_part i.spendable_usd))) in
    let stale = is_status i.billing_status "stale" in
    if is_status i.billing_status "phantom" || is_status i.billing_status "anomaly"
    then gate false billing_stopped remaining 0 stale
    else if positive_part i.spendable_usd == 0
    then gate false balance_at_reserve remaining max_run stale
    else if remaining == 0
    then gate false cap_reached remaining max_run stale
    else if max_run == 0
    then gate false nothing_affordable remaining max_run stale
    else gate true allowed_run remaining max_run stale

-- Both factors are natural, so that `Math.max(0, x)` changes neither.
pub reserve_usd : ℕ → ℕ → ℕ
reserve_usd reserve_r claim_size_usd = reserve_r * claim_size_usd

pub runs_affordable : ℕ → ℕ → ℕ
runs_affordable budget_usd cap_per_run_usd =
    if cap_per_run_usd == 0 then 0 else budget_usd / cap_per_run_usd
