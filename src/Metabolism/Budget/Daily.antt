-- ===== src/Metabolism/Budget/Daily.antt =====
-- The daily budget as a minimum.
use tripwire_launch_auditor.Prelude.{ℕ, ◌+◌, ◌-◌, ◌*◌, ◌/◌, min, ◌≡◌, ◌↔◌, arith}
use tripwire_launch_auditor.Metabolism.Budget.{
  BudgetInputs, daily_cap, credit_share, key_reserve, no_money, closer, named, round2_of_half,
  daily_deepdive_budget,
}

abbrev pub least : BudgetInputs → ℕ
least i =
    min (2 * i.daily_cap_usd)
      (min i.trailing_credits_usd (2 * (i.key_remaining_usd - i.reserve_usd)))

-- The budget is the rounded minimum of the daily cap, half of the trailing credits and what the key
-- has beyond the reserve, in half micro-dollars, and the constraint that is named is one that
-- attains the minimum, or `no_money` exactly where the minimum is 0.
pub daily_deepdive_budget-least :
    (i : BudgetInputs)
    → let b = daily_deepdive_budget i in
      (b.budget_usd ≡ (least i + 10_000) / 20_000)
      × ((b.binding_constraint ≡ no_money) ↔ (least i ≡ 0))
      × (b.binding_constraint ≡ daily_cap → least i ≡ 2 * i.daily_cap_usd)
      × (b.binding_constraint ≡ credit_share → least i ≡ i.trailing_credits_usd)
      × (b.binding_constraint ≡ key_reserve → least i ≡ 2 * (i.key_remaining_usd - i.reserve_usd))
unfolding daily_deepdive_budget closer named round2_of_half
daily_deepdive_budget-least i = ground arith
