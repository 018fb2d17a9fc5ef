-- ===== src/Metabolism/Ledger/Cost.antt =====
-- apps/worker/src/deepdive/cost.ts: the row of a run.
use tripwire_launch_auditor.Prelude.{ℕ, ◌+◌, Option, none, some, List, [], ◌∷◌, String, pos}
use tripwire_launch_auditor.Metabolism.Ledger.{
  CostBasis, SpendRow, Amount, finite, not_finite, token_estimate, provider_reported,
  provider_generation, unavailable,
}
use tripwire_launch_auditor.Metabolism.Ledger.Record.{Recorded, record_spend}
use tripwire_launch_auditor.Metabolism.Ledger.Pricing.{estimate_cost_usd}

pub record DeepDiveResult : Type 0 where
  pub generation_ids : List String
  pub model_slug : String
  pub usage_cost_usd : Option Amount
  pub prompt_tokens : Option ℕ
  pub completion_tokens : Option ℕ

-- The sum of the look-ups, and the ids whose look-up failed.
unfoldable pub look_up_all : (String → Option ℕ) → List String → ℕ × List String
look_up_all lookup [] = (0, [])
look_up_all lookup (id ∷ ids) =
    let (sum, failed) = look_up_all lookup ids in
    elim (lookup id) [ none ↦ (sum, id ∷ failed) | some cost ↦ (cost + sum, failed) ]

unfoldable pub generation_total : List String → ℕ × List String → Option ℕ
generation_total [] r = none
generation_total (id ∷ ids) (sum, []) = some sum
generation_total (id ∷ ids) (sum, f ∷ failed) = none

unfoldable pub fallback : Option ℕ → Option ℕ → Amount × CostBasis
fallback (some total) estimate = (finite (pos total), provider_generation)
fallback none (some estimate) = (finite (pos estimate), token_estimate)
fallback none none = (finite (pos 0), unavailable)

-- The figure and what kind it is of.
unfoldable pub cost_of : Option Amount → Option ℕ → Option ℕ → Amount × CostBasis
unfolding fallback
cost_of (some (finite n)) total estimate = (finite n, provider_reported)
cost_of (some not_finite) total estimate = fallback total estimate
cost_of none total estimate = fallback total estimate

unfoldable pub first_of : List String → Option String
first_of [] = none
first_of (x ∷ xs) = some x

unfoldable pub version_of : Option ℕ → Option String
version_of none = none
version_of (some n) = some "openrouter-2026-09-11"

unfoldable pub record_deepdive_spend :
    (String → Option ℕ)
    → ℕ
    → DeepDiveResult
    → Option String
    → Option String
    → List SpendRow
    → Option (Recorded × List SpendRow)
unfolding look_up_all generation_total cost_of first_of version_of
record_deepdive_spend lookup now result key_hash_prefix report_id rows =
    let estimate =
      estimate_cost_usd result.model_slug result.prompt_tokens result.completion_tokens in
    let (cost, basis) =
      cost_of result.usage_cost_usd
        (generation_total result.generation_ids (look_up_all lookup result.generation_ids))
        estimate in
    record_spend now
      (record {
        cost_usd = cost;
        model = result.model_slug;
        key_hash_prefix = key_hash_prefix;
        report_id = report_id;
        generation_id = first_of result.generation_ids;
        prompt_tokens = result.prompt_tokens;
        completion_tokens = result.completion_tokens;
        estimated_cost_usd = estimate;
        pricing_version = version_of estimate;
        cost_basis = some basis;
      })
      rows
