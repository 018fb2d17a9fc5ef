-- ===== src/RpcBudget/Scheduler/Loop.antt =====
-- What one run of `loop` keeps, and how it ends.
use tripwire_launch_auditor.Prelude.{
  ℕ, zero, suc, ◌+◌, ◌≤◌, ◌<◌, ◌≡◌, ◌≢◌, ap, true, ◌⊎◌, inl, inr, none, some, arith, ltb,
  Bool-cases,
}
use tripwire_launch_auditor.RpcBudget.PriorityQueue.{PriorityQueue, size, shift}
use tripwire_launch_auditor.RpcBudget.PriorityQueue.Order.{IsOrdered, shift-some}
use tripwire_launch_auditor.RpcBudget.TokenBucket.{try_take}
use tripwire_launch_auditor.RpcBudget.Scheduler.{
  Scheduler, Job, loop, start_next, set_timer, count_start,
}

-- The counts agree with one another and with the limits.
abbrev pub IsSound : Scheduler → Type 0
IsSound s =
    (s.in_flight ≤ s.max_in_flight)
    × (0 < s.max_in_flight)
    × (s.started ≡ s.completed + s.failed + s.in_flight)
    × (s.enqueued ≡ s.started + size s.queue)
    × IsOrdered s.queue.items

-- With jobs queued, something is pending that will run `loop` again.
abbrev pub IsAwake : Scheduler → Type 0
IsAwake s = (size s.queue ≡ 0) ⊎ (s.pumping ≡ true) ⊎ (0 < s.in_flight) ⊎ (s.timer ≢ none)

start_next_of :
    (s : Scheduler) (j : Job) (q : PriorityQueue Job)
    → shift s.queue ≡ (some j, q)
    → start_next s ≡ some (count_start (record s { queue = q }) j)
unfolding start_next
start_next_of s j q e =
    ap (λ r. elim r.0 [ none ↦ none | some k ↦ some (count_start (record s { queue = r.1 }) k) ]) e

start_next_lem :
    (s : Scheduler)
    → 0 < size s.queue
    → s.in_flight < s.max_in_flight
    → IsSound s
    → (t : Scheduler) × (start_next s ≡ some t)
      × IsSound t
      × (size s.queue ≡ suc (size t.queue))
      × (0 < t.in_flight)
unfolding count_start
start_next_lem s h b (limited, open_ended, settled, queued, ordered) =
    let (j, q, e, n, o) = shift-some s.queue h in
    (
      count_start (record s { queue = q }) j,
      start_next_of s j q e,
      (omega arith, open_ended, omega arith, omega arith, o ordered),
      n,
      omega arith,
    )

set_timer_lem :
    (s : Scheduler) (now : ℕ)
    → IsSound s
    → IsSound (set_timer s now) × ((set_timer s now).timer ≢ none)
unfolding set_timer
set_timer_lem s now v = (v, ground arith)

-- `loop` keeps the counts sound, and stops only where something will run it again.
pub loop_lem :
    (fuel : ℕ) (s : Scheduler) (now : ℕ)
    → size s.queue ≤ fuel
    → IsSound s
    → IsSound (loop fuel s now) × IsAwake (loop fuel s now)
unfolding loop
loop_lem zero s now f v = (v, inl (omega arith))
loop_lem (suc fuel) s now f v =
    let s' : Scheduler = record s { bucket = (try_take s.bucket now 1).1 } in
    elim (Bool-cases (ltb 0 (size s.queue))) [
      | inr e ↦ rw e (v, inl (ground arith))
      | inl e ↦ elim (Bool-cases (ltb s.in_flight s.max_in_flight)) [
        | inr g ↦ rw (e, g) (v, inr (inr (inl (ground (arith, v)))))
        | inl g ↦ elim (Bool-cases (try_take s.bucket now 1).0) [
          | inr k ↦ let (u, a) = set_timer_lem s' now v in rw (e, g, k) (u, inr (inr (inr a)))
          | inl k ↦
              let (t, r, u, n, i) = start_next_lem s' (ground arith) (ground arith) v in
              rw (e, g, k, r) (loop_lem fuel t now (omega arith) u)
        ]
      ]
    ]
