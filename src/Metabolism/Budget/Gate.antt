-- ===== src/Metabolism/Budget/Gate.antt =====
-- What the gate admits.
use tripwire_launch_auditor.Prelude.{
  ℕ, ◌+◌, ◌-◌, ◌*◌, ◌≤◌, max, min, ◌/◌, ◌≡◌, ◌↔◌, true, false, none, some, positive_part, arith,
}
use tripwire_launch_auditor.Metabolism.Budget.{
  round2, DeepdiveRunGateInputs, is_status, or_zero, gate, deepdive_run_gate,
}

abbrev pub spent_today : DeepdiveRunGateInputs → ℕ
spent_today i = max i.today_spend_usd (or_zero i.provider_spend_today_usd)

-- A run is admitted exactly where the billing status is neither `phantom` nor `anomaly` and each of
-- the cap per run, what the larger of the two figures leaves of the daily cap, and the spendable
-- balance is half a cent at least. An admitted run's announced maximum is then the smallest of the
-- three in cents, where what is left of the daily cap is rounded to a cent first and the smallest
-- is rounded last; the rest of the day that is announced is what is left, rounded.
pub deepdive_run_gate-allowed :
    (i : DeepdiveRunGateInputs)
    → let r = deepdive_run_gate i in
      let left = i.daily_cap_usd - spent_today i in
      ((r.allowed ≡ true) ↔ (
        (is_status i.billing_status "phantom" ≡ false)
        × (is_status i.billing_status "anomaly" ≡ false)
        × (5000 ≤ i.cap_per_run_usd)
        × (5000 ≤ left)
        × (5000 ≤ positive_part i.spendable_usd)))
      × ((r.allowed ≡ true)
          → (r.remaining_today_usd ≡ (left + 5000) / 10_000)
            × (r.max_run_cost_usd
                ≡ (min i.cap_per_run_usd
                      (min ((left + 5000) / 10_000 * 10_000) (positive_part i.spendable_usd))
                    + 5000)
                  / 10_000))
unfolding deepdive_run_gate gate round2
deepdive_run_gate-allowed i = ground arith

-- A stale balance is announced, and decides nothing else: the gate is that of no status at all.
pub deepdive_run_gate-stale :
    (i : DeepdiveRunGateInputs)
    → let r = deepdive_run_gate (record i { billing_status = some "stale" }) in
      let t = deepdive_run_gate (record i { billing_status = none }) in
      (r.balance_stale ≡ true)
      × (t.balance_stale ≡ false)
      × (record r { balance_stale = false } ≡ record t { balance_stale = false })
unfolding deepdive_run_gate gate is_status
deepdive_run_gate-stale i = ground arith
