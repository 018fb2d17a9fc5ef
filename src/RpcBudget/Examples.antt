-- ===== src/RpcBudget/Examples.antt =====
-- The queue and the bucket at concrete inputs.
use tripwire_launch_auditor.Prelude.{ℕ, ◌≡◌, refl, some, [], ◌∷◌, arith}
use tripwire_launch_auditor.RpcBudget.PriorityQueue.{PriorityQueue, shift}
use tripwire_launch_auditor.RpcBudget.PriorityQueue.Order.{IsOrdered}
use tripwire_launch_auditor.RpcBudget.TokenBucket.{TokenBucket}

abbrev two_waiting : PriorityQueue ℕ
two_waiting = record {
  items =
      record { priority = 1; seq = 0; value = 10 }
      ∷ record { priority = 3; seq = 1; value = 11 }
      ∷ [];
  seq = 2;
}

two_waiting-IsOrdered : IsOrdered two_waiting.items
two_waiting-IsOrdered = ground arith

shift_two : (shift two_waiting).0 ≡ some 10
unfolding shift
shift_two = refl

abbrev half_full : TokenBucket
half_full = record { capacity = 4; rpm = 60; tokens = 120_000; last = 1000 }
