-- ===== src/Watcher/Poller/Examples.antt =====
-- A range with a failing pool.
use tripwire_launch_auditor.Prelude.{
  ℕ, ◌-◌, none, some, List, [], ◌∷◌, leb, if◌then◌else◌, ◌&&◌, if_intro, arith,
}
use tripwire_launch_auditor.Watcher.Poller.{DetectedPool, PollOptions, Poller, fails, poll_once}
use tripwire_launch_auditor.Watcher.Poller.Cursor.{Within, IsCareful, poll_once-IsCareful}

abbrev failing_at_12 : DetectedPool
failing_at_12 = record { block_number = 12; ingest = fails }

-- One pool, in block 12.
abbrev one_pool : ℕ → ℕ → List DetectedPool
one_pool from to = if leb from 12 && leb 12 to then failing_at_12 ∷ [] else []

one_pool-Within : (from to : ℕ) → Within from to (one_pool from to)
one_pool-Within from to =
    if_intro (Within from to) (leb from 12 && leb 12 to) (failing_at_12 ∷ []) []
      (λ e. ((ground (arith, e), ground (arith, e)), tt)) (λ e. tt)

abbrev plain : PollOptions
plain = record {
  max_span = some 10;
  abandon_failures_through_block = none;
  start_at_head_if_empty = none;
}

poll_once-IsCareful_example :
    IsCareful one_pool plain (100 - 5) 9 (poll_once one_pool plain 5 100 (some 9)).1
poll_once-IsCareful_example =
    poll_once-IsCareful one_pool plain 5 100 9 (omega arith) one_pool-Within
