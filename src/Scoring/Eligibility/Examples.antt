-- ===== src/Scoring/Eligibility/Examples.antt =====
-- Commits at concrete times.
use tripwire_launch_auditor.Prelude.{◌+◌, ◌≤◌, ◌≡◌, refl, ◌↔◌, true, some}
use tripwire_launch_auditor.Scoring.Eligibility.{
  eligible, replay_after_ms, horizon_to_ms, classify_eligibility,
}
use tripwire_launch_auditor.Scoring.Eligibility.Timing.{input_at, eligible_iff_prompt}

six_hours : horizon_to_ms "6h" ≡ some 21_600_000
unfolding horizon_to_ms
six_hours = refl

eligible_iff_prompt_example :
    (classify_eligibility (input_at 1000 true (some 5000) 21_600_000) ≡ eligible)
    ↔ (5000 ≤ 1000 + replay_after_ms)
eligible_iff_prompt_example = eligible_iff_prompt "6h" 1000 21_600_000 5000 six_hours
