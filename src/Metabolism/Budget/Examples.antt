-- ===== src/Metabolism/Budget/Examples.antt =====
-- Budgets at concrete amounts.
use tripwire_launch_auditor.Prelude.{
  ◌+◌, ◌-◌, ◌*◌, ◌≤◌, ◌/◌, min, ◌≡◌, ◌↔◌, true, false, none, some, pos, positive_part,
}
use tripwire_launch_auditor.Metabolism.Budget.{DeepdiveRunGateInputs, is_status, deepdive_run_gate}
use tripwire_launch_auditor.Metabolism.Budget.Gate.{spent_today, deepdive_run_gate-allowed}

-- Half a cent can be spent, and a cent is admitted.
abbrev half_cent : DeepdiveRunGateInputs
half_cent = record {
  cap_per_run_usd = 100_000;
  daily_cap_usd = 1_000_000;
  today_spend_usd = 200_000;
  provider_spend_today_usd = some 300_000;
  spendable_usd = pos 5000;
  billing_status = none;
}

deepdive_run_gate-allowed_example :
    let r = deepdive_run_gate half_cent in
    let left = 1_000_000 - spent_today half_cent in
    ((r.allowed ≡ true) ↔ (
      (is_status none "phantom" ≡ false)
      × (is_status none "anomaly" ≡ false)
      × (5000 ≤ 100_000)
      × (5000 ≤ left)
      × (5000 ≤ positive_part (pos 5000))))
    × ((r.allowed ≡ true)
        → (r.remaining_today_usd ≡ (left + 5000) / 10_000)
          × (r.max_run_cost_usd
              ≡ (min 100_000 (min ((left + 5000) / 10_000 * 10_000) (positive_part (pos 5000)))
                  + 5000)
                / 10_000))
deepdive_run_gate-allowed_example = deepdive_run_gate-allowed half_cent
