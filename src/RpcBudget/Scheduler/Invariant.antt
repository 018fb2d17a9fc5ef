-- ===== src/RpcBudget/Scheduler/Invariant.antt =====
-- What holds after any sequence of events.
use tripwire_launch_auditor.Prelude.{
  ℕ, ◌+◌, ◌<◌, ◌≡◌, refl, Bool, true, false, inl, inr, none, arith, ◌==◌, Bool-cases, if_intro,
  option_intro, if◌then◌else◌,
}
use tripwire_launch_auditor.RpcBudget.PriorityQueue.{size, push}
use tripwire_launch_auditor.RpcBudget.PriorityQueue.Order.{push-IsOrdered, size-push}
use tripwire_launch_auditor.RpcBudget.TokenBucket.{TokenBucket}
use tripwire_launch_auditor.RpcBudget.Scheduler.{
  Scheduler, Job, Event, schedules, pumps, fires, settles, loop, pump, schedule, settle, step,
}
use tripwire_launch_auditor.RpcBudget.Scheduler.Loop.{IsSound, IsAwake, loop_lem}
use native.Mathlib.Nat.{le_refl}

-- Sound counts, and never jobs queued with nothing pending that will serve them.
abbrev pub IsLive : Scheduler → Type 0
IsLive s = IsSound s × IsAwake s

run_loop_lem : (s : Scheduler) (now : ℕ) → IsSound s → IsLive (loop (size s.queue) s now)
run_loop_lem s now v = loop_lem (size s.queue) s now (le_refl (size s.queue)) v

pump_lem : (s : Scheduler) → IsSound s → IsSound (pump s) × ((pump s).pumping ≡ true)
unfolding pump
pump_lem s v = pump_of s.pumping refl
  where
    pump_of :
        (p : Bool)
        → s.pumping ≡ p
        → let t : Scheduler = if p then s else record s { pumping = true } in
          IsSound t × (t.pumping ≡ true)
    pump_of true e = (v, e)
    pump_of false e = (v, refl)

schedule_lem :
    (s : Scheduler) (priority request : ℕ) → IsSound s → IsLive (schedule s priority request)
unfolding schedule
schedule_lem s priority request (limited, open_ended, settled, queued, ordered) =
    let job : Job = record { priority = priority; request = request } in
    let s' : Scheduler = record s {
      queue = push s.queue priority job;
      enqueued = s.enqueued + 1;
    } in
    let (u, a) = pump_lem s' (
      limited,
      open_ended,
      settled,
      omega (arith, size-push s.queue priority job),
      push-IsOrdered s.queue priority job ordered,
    ) in
    (u, inr (inl a))

settle_lem : (s : Scheduler) (ok : Bool) → 0 < s.in_flight → IsSound s → IsSound (settle s ok)
unfolding settle
settle_lem s true h (limited, open_ended, settled, queued, ordered) =
    (omega arith, open_ended, omega arith, queued, ordered)
settle_lem s false h (limited, open_ended, settled, queued, ordered) =
    (omega arith, open_ended, omega arith, queued, ordered)

-- Whatever event runs next, the scheduler stays sound and awake.
pub step-IsLive : (s : Scheduler) (e : ℕ × Event) → IsLive s → IsLive (step s e)
unfolding step
step-IsLive s (now, schedules priority request) v = schedule_lem s priority request v.0
step-IsLive s (now, pumps) v =
    if_intro IsLive s.pumping (loop (size s.queue) (record s { pumping = false }) now) s
      (λ e. run_loop_lem (record s { pumping = false }) now v.0) (λ e. v)
step-IsLive s (now, fires) v =
    option_intro IsLive s.timer s (λ w. loop (size s.queue) (record s { timer = none }) now)
      (λ e. v) (λ w e. run_loop_lem (record s { timer = none }) now v.0)
step-IsLive s (now, settles ok) v = elim (Bool-cases (s.in_flight == 0)) [
  | inl e ↦ rw e v
  | inr e ↦ rw e (run_loop_lem (settle s ok) now (settle_lem s ok (ground arith) v.0))
]
