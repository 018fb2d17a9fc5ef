-- ===== src/RpcBudget/Scheduler/Examples.antt =====
-- The scheduler at concrete inputs.
use tripwire_launch_auditor.Prelude.{ℕ, true, List, [], ◌∷◌}
use tripwire_launch_auditor.RpcBudget.Scheduler.{Event, schedules, pumps, fires, settles}
use tripwire_launch_auditor.RpcBudget.TokenBucket.{TokenBucket}

abbrev full_bucket : TokenBucket
full_bucket = record { capacity = 3; rpm = 60; tokens = 180_000; last = 0 }

abbrev two_calls : List (ℕ × Event)
two_calls =
    (0, schedules 3 1) ∷ (0, schedules 0 2) ∷ (0, pumps) ∷ (5, settles true) ∷ (9, fires) ∷ []
