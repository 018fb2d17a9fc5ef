-- ===== src/Watcher/Retry/Examples.antt =====
-- A call that times out twice and then gives a value.
use tripwire_launch_auditor.Prelude.{ℕ, zero, suc, ◌+◌, ◌*◌, ◌≤◌, ◌<◌, ◌≡◌, ◌⊎◌, true, false, arith}
use tripwire_launch_auditor.Watcher.Retry.{Failure, Settled, value, failure, with_retry}
use tripwire_launch_auditor.Watcher.Retry.Attempts.{FailsForNow, Counts, with_retry-Settles}

abbrev timeout : Failure
timeout = record { transient_name = true; transient_message = false; retryable = true }

abbrev calls : ℕ → Settled ℕ
calls zero = failure timeout
calls (suc zero) = failure timeout
calls (suc (suc n)) = value 7

with_retry-Settles_example :
    let r = with_retry calls 3 1500 in
    (r.attempts ≤ 3)
    × ((k : ℕ) × (k < 3)
        × (r.outcome ≡ calls k)
        × (r.attempts ≡ k + 1)
        × (2 * r.waited ≡ 1500 * (k * (k + 1)))
        × ((i : ℕ) → i < k → FailsForNow (calls i))
        × (Counts (calls k) ⊎ (k + 1 ≡ 3)))
with_retry-Settles_example = with_retry-Settles calls 3 1500 (omega arith)
