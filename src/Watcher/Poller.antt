-- ===== src/Watcher/Poller.antt =====
-- apps/worker/src/watcher/poller.ts: one poll of the pools' stream, and the loop's count of polls
-- that did not advance. `detect` stands for the detection of pools in a range of blocks, each with
-- what its ingestion comes to; the stored cursor and the head are arguments.
pub mod Cursor
pub mod Progress
pub mod Examples
use tripwire_launch_auditor.Prelude.{
  ℕ, suc, ◌+◌, ◌-◌, min, Bool, true, false, not, ◌&&◌, Option, none, some, List, [], ◌∷◌, length,
  ltb, leb, ◌==◌, if◌then◌else◌,
}

pub data Ingest : Type 0 where
  indexed skipped fails : Ingest

pub record DetectedPool : Type 0 where
  pub block_number : ℕ
  pub ingest : Ingest

pub record PollOptions : Type 0 where
  pub max_span : Option ℕ
  pub abandon_failures_through_block : Option ℕ
  pub start_at_head_if_empty : Option Bool

pub record PollResult : Type 0 where
  pub from : ℕ
  pub to : ℕ
  pub pools_seen : ℕ
  pub launches_indexed : ℕ
  pub failed : ℕ
  pub cursor_advanced : Bool

-- The loop's three variables.
pub record Tally : Type 0 where
  pub launches_indexed : ℕ
  pub failed : ℕ
  pub earliest_held_failure : Option ℕ

pub is_abandoned : Option ℕ → ℕ → Bool
is_abandoned none block = false
is_abandoned (some through) block = leb block through

earlier : Option ℕ → ℕ → Option ℕ
earlier none block = some block
earlier (some held) block = some (min block held)

tally_one : Option ℕ → ℕ → Ingest → Tally → Tally
unfolding is_abandoned earlier
tally_one abandon block indexed t = record t { launches_indexed = t.launches_indexed + 1 }
tally_one abandon block skipped t = t
tally_one abandon block fails t = record t {
  failed = t.failed + 1;
  earliest_held_failure =
      if is_abandoned abandon block
      then t.earliest_held_failure
      else earlier t.earliest_held_failure block;
}

pub tally_all : Option ℕ → List DetectedPool → Tally → Tally
unfolding tally_one
tally_all abandon [] t = t
tally_all abandon (p ∷ ps) t = tally_all abandon ps (tally_one abandon p.block_number p.ingest t)

-- The end of the range: `maxSpan` of 0 is no limit.
pub range_end : Option ℕ → ℕ → ℕ → ℕ
range_end none from safe_head = safe_head
range_end (some span) from safe_head =
    if ltb 0 span && ltb (from + span - 1) safe_head then from + span - 1 else safe_head

or_true : Option Bool → Bool
or_true none = true
or_true (some b) = b

start_cursor : PollOptions → ℕ → Option ℕ → ℕ
unfolding or_true
start_cursor opts safe_head (some cursor) = cursor
start_cursor opts safe_head none = if or_true opts.start_at_head_if_empty then safe_head else 0

next_cursor : Option ℕ → ℕ → ℕ
next_cursor none to = to
next_cursor (some held) to = held - 1

module _ (detect : ℕ → ℕ → List DetectedPool) where
  poll_range : PollOptions → ℕ → ℕ → PollResult × ℕ
  unfolding tally_all range_end next_cursor
  poll_range opts cursor safe_head =
      let to = range_end opts.max_span (cursor + 1) safe_head in
      let detected = detect (cursor + 1) to in
      let t =
        tally_all opts.abandon_failures_through_block detected
          (record { launches_indexed = 0; failed = 0; earliest_held_failure = none }) in
      let next = next_cursor t.earliest_held_failure to in
      (
        record {
          from = cursor + 1;
          to = next;
          pools_seen = length detected;
          launches_indexed = t.launches_indexed;
          failed = t.failed;
          cursor_advanced = ltb cursor next;
        },
        next,
      )

  poll_from : PollOptions → ℕ → ℕ → PollResult × ℕ
  unfolding poll_range
  poll_from opts safe_head cursor =
      if leb safe_head cursor
      then (
        record {
          from = cursor;
          to = cursor;
          pools_seen = 0;
          launches_indexed = 0;
          failed = 0;
          cursor_advanced = false;
        },
        cursor,
      )
      else poll_range opts cursor safe_head

  -- The result, and the cursor that is stored.
  pub poll_once : PollOptions → ℕ → ℕ → Option ℕ → PollResult × ℕ
  unfolding poll_from start_cursor
  poll_once opts head_lag_blocks head cursor =
      let safe_head = head - head_lag_blocks in
      poll_from opts safe_head (start_cursor opts safe_head cursor)

abbrev pub stuck_polls_before_skip : ℕ
stuck_polls_before_skip = 6

pub record Poller : Type 0 where
  pub stuck_polls : ℕ
  pub cursor : Option ℕ

shifted : Option ℕ → ℕ → Option ℕ
shifted none span = none
shifted (some cursor) span = some (cursor + span)

poller_options : ℕ → Poller → PollOptions
unfolding shifted
poller_options max_span_blocks p = record {
  max_span = some max_span_blocks;
  abandon_failures_through_block =
      if leb stuck_polls_before_skip p.stuck_polls then shifted p.cursor max_span_blocks else none;
  start_at_head_if_empty = none;
}

count_stuck : ℕ → PollResult → ℕ
count_stuck stuck r = if r.cursor_advanced then 0 else if ltb 0 r.failed then stuck + 1 else stuck

-- One pass of the loop of `runPoller`, where the poll itself does not throw.
pub poller_step : (ℕ → ℕ → List DetectedPool) → ℕ → ℕ → ℕ → Poller → Poller
unfolding poll_once poller_options count_stuck
poller_step detect max_span_blocks head_lag_blocks head p =
    let (r, cursor) =
      poll_once detect (poller_options max_span_blocks p) head_lag_blocks head p.cursor in
    record { stuck_polls = count_stuck p.stuck_polls r; cursor = some cursor }
