-- ===== src/Metabolism/Ledger.antt =====
-- apps/worker/src/metabolism/spend-ledger.ts, apps/worker/src/deepdive/pricing.ts and cost.ts: the rows
-- of the spend ledger, as the table in the order of insertion, and what a run is recorded at. Amounts
-- are whole micro-dollars, prices are micro-dollars for a million tokens, and a factor is in 1e-6.
-- The table gives its number of rows as an id.
pub mod Store
pub mod Record
pub mod Pricing
pub mod Cost
pub mod Window
pub mod Recording
pub mod Examples
use tripwire_launch_auditor.Prelude.{
  ℕ, zero, suc, ◌+◌, ◌-◌, ◌*◌, ◌/◌, Bool, true, false, not, ◌&&◌, ◌||◌, Option, none, some, List,
  [], ◌∷◌, ◌++◌, length, ltb, leb, ◌==◌, ◌=ₛ◌, String, if◌then◌else◌, ℤ, pos, negsuc,
}
use tripwire_launch_auditor.Metabolism.Reconcile.{round_div}

pub data CostBasis : Type 0 where
  token_estimate provider_reconciled_estimate provider_reported provider_generation unavailable :
      CostBasis

pub record SpendRow : Type 0 where
  pub id : ℕ
  pub at : ℕ
  pub cost_usd : ℕ
  pub model : String
  pub key_hash_prefix : Option String
  pub report_id : Option String
  pub generation_id : Option String
  pub prompt_tokens : Option ℕ
  pub completion_tokens : Option ℕ
  pub estimated_cost_usd : Option ℕ
  pub pricing_version : Option String
  pub cost_basis : CostBasis
  pub reconciled_cost_usd : Option ℕ
  pub epoch_id : Option ℕ

-- A number of the source that may not be finite.
pub data Amount : Type 0 where
  finite : ℤ → Amount
  not_finite : Amount

pub record SpendEntry : Type 0 where
  pub cost_usd : Amount
  pub model : String
  pub key_hash_prefix : Option String
  pub report_id : Option String
  pub generation_id : Option String
  pub prompt_tokens : Option ℕ
  pub completion_tokens : Option ℕ
  pub estimated_cost_usd : Option ℕ
  pub pricing_version : Option String
  pub cost_basis : Option CostBasis

pub record SpendFilter : Type 0 where
  pub since : Option ℕ
  pub key_hash_prefix : Option String
