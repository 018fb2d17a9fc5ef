-- ===== src/Metabolism/Ledger/Pricing.antt =====
-- apps/worker/src/deepdive/pricing.ts: the estimate of a run's cost.
use tripwire_launch_auditor.Prelude.{ℕ, ◌+◌, ◌*◌, Option, none, some, ◌=ₛ◌, String, if◌then◌else◌}
use tripwire_launch_auditor.Metabolism.Reconcile.{round_div}

pub record ModelPrice : Type 0 where
  pub in_per_m : ℕ
  pub out_per_m : ℕ

unfoldable pub model_price : String → Option ModelPrice
model_price slug =
    if slug =ₛ "sakana/fugu-max"
    then some (record { in_per_m = 2_000_000; out_per_m = 6_000_000 })
    else if slug =ₛ "deepseek/deepseek-v4.1-flash"
    then some (record { in_per_m = 150_000; out_per_m = 600_000 })
    else if slug =ₛ "inception/mercury-2.5"
    then some (record { in_per_m = 40_000; out_per_m = 150_000 })
    else none

unfoldable pub priced : Option ModelPrice → Option ℕ → Option ℕ → Option ℕ
priced (some p) (some input) (some output) =
    some (round_div (input * p.in_per_m + output * p.out_per_m) 1_000_000)
priced _ input output = none

unfoldable pub estimate_cost_usd : String → Option ℕ → Option ℕ → Option ℕ
unfolding model_price priced
estimate_cost_usd slug prompt_tokens completion_tokens =
    priced (model_price slug) prompt_tokens completion_tokens
