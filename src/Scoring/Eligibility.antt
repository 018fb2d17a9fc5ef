-- ===== src/Scoring/Eligibility.antt =====
-- packages/scoring/src/eligibility.ts: which report-outcome pairs may count toward a claim.
-- Times are milliseconds; `a - b > d` on two times is written `b + d < a`, which is the same for
-- numbers that are not negative and does not meet the truncated subtraction.
pub mod Timing
pub mod Examples
use tripwire_launch_auditor.Prelude.{
  ℕ, ◌+◌, ◌*◌, String, ◌=ₛ◌, Bool, true, false, Option, none, some, ltb, leb, if◌then◌else◌,
}

pub data Eligibility : Type 0 where
  eligible replay late uncommitted missing_time : Eligibility

abbrev pub replay_after_ms : ℕ
replay_after_ms = 30 * 60_000

-- `none` is the thrown "unknown horizon".
unfoldable pub horizon_to_ms : String → Option ℕ
horizon_to_ms h =
    if h =ₛ "1h"
    then some 3_600_000
    else if h =ₛ "6h"
    then some (6 * 3_600_000)
    else if h =ₛ "24h"
    then some (24 * 3_600_000)
    else if h =ₛ "72h"
    then some (72 * 3_600_000)
    else if h =ₛ "7d"
    then some (7 * 24 * 3_600_000)
    else none

pub record EligibilityInput : Type 0 where
  pub report_time : ℕ
  pub committed : Bool
  pub commit_block_time : Option ℕ
  pub horizon_end : ℕ

unfoldable pub classify_eligibility : EligibilityInput → Eligibility
classify_eligibility i =
    if i.committed
    then elim i.commit_block_time [
      | none ↦ missing_time
      | some t ↦
          if leb i.horizon_end t
          then late
          else if ltb (i.report_time + replay_after_ms) t
          then replay
          else eligible
    ]
    else uncommitted

pub scanner_fetch_is_timely : ℕ → Option ℕ → Bool
scanner_fetch_is_timely report_time none = false
scanner_fetch_is_timely report_time (some fetched_at) =
    leb fetched_at (report_time + replay_after_ms)
