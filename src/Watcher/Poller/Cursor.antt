-- ===== src/Watcher/Poller/Cursor.antt =====
-- Where the cursor goes.
use tripwire_launch_auditor.Prelude.{
  ℕ, ◌+◌, ◌-◌, ◌≤◌, ◌<◌, ◌≡◌, refl, false, Option, none, some, List, [], ◌∷◌, All, leb, arith,
  if_intro,
}
use tripwire_launch_auditor.Watcher.Poller.{
  Ingest, DetectedPool, PollOptions, Tally, indexed, skipped, fails, is_abandoned, earlier,
  tally_one, tally_all, range_end, next_cursor, poll_range, poll_from, start_cursor, poll_once,
}

-- A failure that is held: it is tried again.
abbrev pub IsHeld : Option ℕ → DetectedPool → Type 0
IsHeld abandon p = (p.ingest ≡ fails) × (is_abandoned abandon p.block_number ≡ false)

-- A held failure at or below the block.
abbrev AtMost : Option ℕ → ℕ → Type 0
AtMost none b = ⊥
AtMost (some held) b = held ≤ b

abbrev Above : ℕ → Option ℕ → Type 0
Above lo none = Unit
Above lo (some held) = lo < held

-- What one pool does to the earliest held failure: `o` before, `u` after.
abbrev Moves : Option ℕ → DetectedPool → Option ℕ → Option ℕ → Type 0
Moves abandon p o u =
    (IsHeld abandon p → AtMost u p.block_number)
    × ((c : ℕ) → AtMost o c → AtMost u c)
    × ((lo : ℕ) → lo < p.block_number → Above lo o → Above lo u)

earlier-Moves :
    (abandon : Option ℕ) (p : DetectedPool) (o : Option ℕ)
    → Moves abandon p o (earlier o p.block_number)
unfolding earlier
earlier-Moves abandon p none = (λ h. omega arith, λ c h. absurd h, λ lo h a. h)
earlier-Moves abandon p (some held) =
    (λ h. omega arith, λ c h. omega (arith, h), λ lo h a. omega (arith, h, a))

tally_one-Moves :
    (abandon : Option ℕ) (p : DetectedPool) (i : Ingest) (t : Tally)
    → p.ingest ≡ i
    → Moves abandon p t.earliest_held_failure
        (tally_one abandon p.block_number i t).earliest_held_failure
unfolding tally_one
tally_one-Moves abandon p indexed t e = (λ h. absurd (ground (arith, h.0)), λ c h. h, λ lo h a. a)
tally_one-Moves abandon p skipped t e = (λ h. absurd (ground (arith, h.0)), λ c h. h, λ lo h a. a)
tally_one-Moves abandon p fails t e =
    if_intro (Moves abandon p t.earliest_held_failure) (is_abandoned abandon p.block_number)
      t.earliest_held_failure (earlier t.earliest_held_failure p.block_number)
      (λ q. (λ h. absurd (ground (arith, h.1)), λ c h. h, λ lo h a. a))
      (λ q. earlier-Moves abandon p t.earliest_held_failure)

tally_all_keeps :
    (abandon : Option ℕ) (ps : List DetectedPool) (t : Tally) (c : ℕ)
    → AtMost t.earliest_held_failure c
    → AtMost (tally_all abandon ps t).earliest_held_failure c
unfolding tally_all
tally_all_keeps abandon [] t c h = h
tally_all_keeps abandon (p ∷ ps) t c h =
    tally_all_keeps abandon ps (tally_one abandon p.block_number p.ingest t) c
      ((tally_one-Moves abandon p p.ingest t refl).1 c h)

tally_all-IsHeld :
    (abandon : Option ℕ) (ps : List DetectedPool) (t : Tally)
    → All
        (λ p.
          IsHeld abandon p → AtMost (tally_all abandon ps t).earliest_held_failure p.block_number)
        ps
unfolding tally_all
tally_all-IsHeld abandon [] t = tt
tally_all-IsHeld abandon (p ∷ ps) t =
    let u : Tally = tally_one abandon p.block_number p.ingest t in
    (
      λ h.
          tally_all_keeps abandon ps u p.block_number
            ((tally_one-Moves abandon p p.ingest t refl).0 h),
      tally_all-IsHeld abandon ps u,
    )

-- Every pool stands in the range that was asked for.
abbrev pub Within : ℕ → ℕ → List DetectedPool → Type 0
Within from to = All (λ p. (from ≤ p.block_number) × (p.block_number ≤ to))

tally_all-Above :
    (abandon : Option ℕ) (ps : List DetectedPool) (t : Tally) (lo to : ℕ)
    → Within (lo + 1) to ps
    → Above lo t.earliest_held_failure
    → Above lo (tally_all abandon ps t).earliest_held_failure
unfolding tally_all
tally_all-Above abandon [] t lo to w a = a
tally_all-Above abandon (p ∷ ps) t lo to w a =
    tally_all-Above abandon ps (tally_one abandon p.block_number p.ingest t) lo to w.1
      ((tally_one-Moves abandon p p.ingest t refl).2 lo (omega (arith, w.0.0)) a)

next_cursor_below :
    (e : Option ℕ) (b lo to : ℕ) → Above lo e → AtMost e b → lo < b → next_cursor e to < b
unfolding next_cursor
next_cursor_below none b lo to a m l = absurd m
next_cursor_below (some held) b lo to a m l = omega (arith, a, m)

below-IsHeld :
    (abandon e : Option ℕ) (ps : List DetectedPool) (lo to : ℕ)
    → Above lo e
    → Within (lo + 1) to ps
    → All (λ p. IsHeld abandon p → AtMost e p.block_number) ps
    → All (λ p. IsHeld abandon p → next_cursor e to < p.block_number) ps
below-IsHeld abandon e [] lo to a w h = tt
below-IsHeld abandon e (p ∷ ps) lo to a w h = (
  λ k. next_cursor_below e p.block_number lo to a (h.0 k) (omega (arith, w.0.0)),
  below-IsHeld abandon e ps lo to a w.1 h.1,
)

next_cursor_from : (e : Option ℕ) (lo to : ℕ) → Above lo e → lo ≤ to → lo ≤ next_cursor e to
unfolding next_cursor
next_cursor_from none lo to a h = h
next_cursor_from (some held) lo to a h = omega (arith, a)

abbrev pub no_tally : Tally
no_tally = record { launches_indexed = 0; failed = 0; earliest_held_failure = none }

pub range_end_lem :
    (span : Option ℕ) (cursor safe_head : ℕ)
    → cursor < safe_head
    → (cursor < range_end span (cursor + 1) safe_head)
      × (range_end span (cursor + 1) safe_head ≤ safe_head)
unfolding range_end
range_end_lem none cursor safe_head h = (h, omega arith)
range_end_lem (some span) cursor safe_head h = ground arith

-- What a poll promises of its cursor, for the pools of the range that it asks for.
abbrev pub IsCareful : (ℕ → ℕ → List DetectedPool) → PollOptions → ℕ → ℕ → ℕ → Type 0
IsCareful detect opts safe_head cursor next =
    let to = range_end opts.max_span (cursor + 1) safe_head in
    (cursor ≤ next)
    × All (λ p. IsHeld opts.abandon_failures_through_block p → next < p.block_number)
        (detect (cursor + 1) to)

poll_range_lem :
    (detect : ℕ → ℕ → List DetectedPool) (opts : PollOptions) (cursor safe_head : ℕ)
    → cursor < safe_head
    → ((from to : ℕ) → Within from to (detect from to))
    → IsCareful detect opts safe_head cursor (poll_range detect opts cursor safe_head).1
unfolding poll_range
poll_range_lem detect opts cursor safe_head h w =
    let to : ℕ = range_end opts.max_span (cursor + 1) safe_head in
    let ps : List DetectedPool = detect (cursor + 1) to in
    let e : Option ℕ =
      (tally_all opts.abandon_failures_through_block ps no_tally).earliest_held_failure in
    let a : Above cursor e =
      tally_all-Above opts.abandon_failures_through_block ps no_tally cursor to (w (cursor + 1) to)
        tt in
    let l : cursor < to = (range_end_lem opts.max_span cursor safe_head h).0 in
    (
      next_cursor_from e cursor to a (omega arith),
      below-IsHeld opts.abandon_failures_through_block e ps cursor to a (w (cursor + 1) to)
          (tally_all-IsHeld opts.abandon_failures_through_block ps no_tally),
    )

-- A poll with blocks to read never moves the cursor back, and leaves it before every pool of its
-- range whose ingestion failed and was not abandoned, so that the next poll meets that pool again.
-- The detection gives pools of the range that it is asked for.
pub poll_once-IsCareful :
    (detect : ℕ → ℕ → List DetectedPool) (opts : PollOptions) (head_lag_blocks head cursor : ℕ)
    → cursor < head - head_lag_blocks
    → ((from to : ℕ) → Within from to (detect from to))
    → IsCareful detect opts
        (head - head_lag_blocks)
        cursor
        (poll_once detect opts head_lag_blocks head (some cursor)).1
unfolding poll_once poll_from start_cursor
poll_once-IsCareful detect opts head_lag_blocks head cursor h w =
    let safe_head : ℕ = head - head_lag_blocks in
    let later : leb safe_head cursor ≡ false = ground arith in
    rw later (poll_range_lem detect opts cursor safe_head h w)
