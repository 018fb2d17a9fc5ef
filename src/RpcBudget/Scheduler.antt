-- ===== src/RpcBudget/Scheduler.antt =====
-- packages/rpc-budget/src/scheduler.ts: admission in order of priority, under a token bucket and a
-- limit on requests in flight. Promises are left out but for their settling: an event says what the
-- JavaScript event loop runs next, and an event that is not pending changes nothing. One run of
-- `loop` reads one value of the clock.
pub mod Loop
pub mod Invariant
pub mod Examples
use tripwire_launch_auditor.Prelude.{
  ℕ, zero, suc, ◌+◌, ◌-◌, ◌/◌, max, Bool, true, false, not, ◌&&◌, Option, none, some, List, [], ◌∷◌,
  ltb, ◌==◌, length, if◌then◌else◌,
}
use tripwire_launch_auditor.RpcBudget.PriorityQueue.{PriorityQueue, empty, push, shift, size}
use tripwire_launch_auditor.RpcBudget.TokenBucket.{
  TokenBucket, new_token_bucket, try_take, ms_until_available,
}

pub record Job : Type 0 where
  pub priority : ℕ
  pub request : ℕ

pub record Scheduler : Type 0 where
  pub bucket : TokenBucket
  pub queue : PriorityQueue Job
  pub max_in_flight : ℕ
  pub in_flight : ℕ
  -- the delay that was set, while a timer is pending
  pub timer : Option ℕ
  pub pumping : Bool
  pub enqueued : ℕ
  pub started : ℕ
  pub completed : ℕ
  pub failed : ℕ
  pub by_priority : ℕ → ℕ

or_else : Option ℕ → ℕ → ℕ
or_else none d = d
or_else (some n) d = n

-- `Math.max(Math.ceil(rpm / 30), 3)`
default_burst : ℕ → ℕ
default_burst rpm = max ((rpm + 29) / 30) 3

-- The fields that the constructor sets.
idle : TokenBucket → ℕ → Scheduler
idle bucket max_in_flight = record {
  bucket = bucket;
  queue = empty;
  max_in_flight = max_in_flight;
  in_flight = 0;
  timer = none;
  pumping = false;
  enqueued = 0;
  started = 0;
  completed = 0;
  failed = 0;
  by_priority = λ k. 0;
}

-- The constructor; `none` where the bucket's constructor throws.
pub new_scheduler : ℕ → Option ℕ → Option ℕ → ℕ → Option Scheduler
unfolding or_else default_burst
new_scheduler rpm burst max_in_flight now =
    elim (new_token_bucket (or_else burst (default_burst rpm)) rpm now) [
      | none ↦ none
      | some b ↦ some (idle b (or_else max_in_flight 12))
    ]

pub pump : Scheduler → Scheduler
pump s = if s.pumping then s else record s { pumping = true }

pub schedule : Scheduler → ℕ → ℕ → Scheduler
unfolding pump
schedule s priority request = pump (record s {
  queue = push s.queue priority (record { priority = priority; request = request });
  enqueued = s.enqueued + 1;
})

-- The branch of `loop` without a token.
set_timer : Scheduler → ℕ → Scheduler
set_timer s now =
    let (wait, b) = ms_until_available s.bucket now 1 in
    record s { bucket = b; timer = elim s.timer [ none ↦ some (max wait 5) | some w ↦ some w ] }

count_start : Scheduler → Job → Scheduler
count_start s job = record s {
  in_flight = s.in_flight + 1;
  started = s.started + 1;
  by_priority = λ k. if k == job.priority then s.by_priority k + 1 else s.by_priority k;
}

-- One round with a token: the job that comes out starts. `none` is the `return` without a job.
start_next : Scheduler → Option Scheduler
unfolding count_start
start_next s =
    let (job, q) = shift s.queue in
    elim job [ none ↦ none | some j ↦ some (count_start (record s { queue = q }) j) ]

-- `loop()`, with a round for each queued job at most.
pub loop : ℕ → Scheduler → ℕ → Scheduler
loop zero s now = s
loop (suc fuel) s now =
    let (taken, b) = try_take s.bucket now 1 in
    let s' = record s { bucket = b } in
    let next : Scheduler = elim (start_next s') [ none ↦ s' | some t ↦ loop fuel t now ] in
    if ltb 0 (size s.queue) && ltb s.in_flight s.max_in_flight
    then (if taken then next else set_timer s' now)
    else s

abbrev run_loop : Scheduler → ℕ → Scheduler
run_loop s now = loop (size s.queue) s now

pub data Event : Type 0 where
  -- a client calls `schedule`
  schedules : ℕ → ℕ → Event
  -- the microtask of `pump`
  pumps : Event
  -- the timer of `loop`
  fires : Event
  -- a request in flight settles, with success or not
  settles : Bool → Event

settle : Scheduler → Bool → Scheduler
settle s true = record s { completed = s.completed + 1; in_flight = s.in_flight - 1 }
settle s false = record s { failed = s.failed + 1; in_flight = s.in_flight - 1 }

pub step : Scheduler → ℕ × Event → Scheduler
unfolding settle
step s (now, schedules priority request) = schedule s priority request
step s (now, pumps) = if s.pumping then run_loop (record s { pumping = false }) now else s
step s (now, fires) = elim s.timer [ none ↦ s | some w ↦ run_loop (record s { timer = none }) now ]
step s (now, settles ok) = if s.in_flight == 0 then s else run_loop (settle s ok) now

pub run : Scheduler → List (ℕ × Event) → Scheduler
unfolding step
run s [] = s
run s (e ∷ es) = run (step s e) es
