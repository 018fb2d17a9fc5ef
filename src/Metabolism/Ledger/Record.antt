-- ===== src/Metabolism/Ledger/Record.antt =====
-- apps/worker/src/metabolism/spend-ledger.ts: `recordSpend`.
use tripwire_launch_auditor.Prelude.{
  ℕ, Bool, true, false, Option, none, some, List, [], ◌∷◌, ◌++◌, length, ◌=ₛ◌, String,
  if◌then◌else◌, pos, negsuc,
}
use tripwire_launch_auditor.Metabolism.Ledger.{
  CostBasis, SpendRow, finite, not_finite, SpendEntry, unavailable,
}
use tripwire_launch_auditor.Metabolism.Ledger.Store.{find_by_generation_id}

unfoldable pub or_basis : Option CostBasis → CostBasis
or_basis none = unavailable
or_basis (some b) = b

unfoldable pub row_of : ℕ → ℕ → ℕ → SpendEntry → SpendRow
unfolding or_basis
row_of id now cost e = record {
  id = id;
  at = now;
  cost_usd = cost;
  model = e.model;
  key_hash_prefix = e.key_hash_prefix;
  report_id = e.report_id;
  generation_id = e.generation_id;
  prompt_tokens = e.prompt_tokens;
  completion_tokens = e.completion_tokens;
  estimated_cost_usd = e.estimated_cost_usd;
  pricing_version = e.pricing_version;
  cost_basis = or_basis e.cost_basis;
  reconciled_cost_usd = none;
  epoch_id = none;
}

pub record Recorded : Type 0 where
  pub id : ℕ
  pub deduped : Bool

-- The insertion, for an entry that passed the checks.
unfoldable pub insert_spend : ℕ → ℕ → SpendEntry → List SpendRow → Recorded × List SpendRow
unfolding row_of
insert_spend now cost e rows =
    (record { id = length rows; deduped = false }, rows ++ row_of (length rows) now cost e ∷ [])

-- An empty generation id is no id.
unfoldable pub existing : Option String → List SpendRow → Option ℕ
existing none rows = none
existing (some g) rows = if g =ₛ "" then none else find_by_generation_id g rows

unfoldable pub store_spend : ℕ → ℕ → SpendEntry → List SpendRow → Recorded × List SpendRow
unfolding existing insert_spend
store_spend now cost e rows = elim (existing e.generation_id rows) [
  | some id ↦ (record { id = id; deduped = true }, rows)
  | none ↦ insert_spend now cost e rows
]

-- `none` is a thrown error: a cost that is negative or not finite, or no model.
unfoldable pub record_spend : ℕ → SpendEntry → List SpendRow → Option (Recorded × List SpendRow)
unfolding store_spend
record_spend now e rows = elim e.cost_usd [
  | not_finite ↦ none
  | finite (negsuc n) ↦ none
  | finite (pos n) ↦ if e.model =ₛ "" then none else some (store_spend now n e rows)
]
