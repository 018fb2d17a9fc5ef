-- ===== src/Scoring/Eligibility/Timing.antt =====
-- What a class says of the commit's block time.
use tripwire_launch_auditor.Prelude.{
  false, ℕ, ◌+◌, ◌≤◌, ◌<◌, ◌≡◌, ◌↔◌, String, Bool, true, Option, none, some, arith,
}
use tripwire_launch_auditor.Scoring.Eligibility.{
  Eligibility, EligibilityInput, eligible, replay, late, uncommitted, missing_time, replay_after_ms,
  horizon_to_ms, classify_eligibility, scanner_fetch_is_timely,
}

-- What each class says of the commit, in words of its own.
abbrev pub Says : Eligibility → EligibilityInput → Type 0
Says eligible i =
    (i.committed ≡ true)
    × ((t : ℕ) × (i.commit_block_time ≡ some t)
        × (t < i.horizon_end)
        × (t ≤ i.report_time + replay_after_ms))
Says replay i =
    (i.committed ≡ true)
    × ((t : ℕ) × (i.commit_block_time ≡ some t)
        × (t < i.horizon_end)
        × (i.report_time + replay_after_ms < t))
Says late i =
    (i.committed ≡ true) × ((t : ℕ) × (i.commit_block_time ≡ some t) × (i.horizon_end ≤ t))
Says uncommitted i = i.committed ≡ false
Says missing_time i = (i.committed ≡ true) × (i.commit_block_time ≡ none)

-- A report-outcome pair has the class that its commit satisfies, and no other.
pub classify_eligibility-Says :
    (i : EligibilityInput) (e : Eligibility) → (classify_eligibility i ≡ e) ↔ Says e i
unfolding classify_eligibility
classify_eligibility-Says i eligible = ground arith
classify_eligibility-Says i replay = ground arith
classify_eligibility-Says i late = ground arith
classify_eligibility-Says i uncommitted = ground arith
classify_eligibility-Says i missing_time = ground arith

abbrev pub input_at : ℕ → Bool → Option ℕ → ℕ → EligibilityInput
input_at report_time committed commit_block_time ms = record {
  report_time = report_time;
  committed = committed;
  commit_block_time = commit_block_time;
  horizon_end = report_time + ms;
}

-- Every horizon of the grid outlasts the replay limit.
horizon_to_ms-replay : (h : String) (ms : ℕ) → horizon_to_ms h ≡ some ms → replay_after_ms < ms
unfolding horizon_to_ms
horizon_to_ms-replay h ms e = ground arith

-- At the end of a known horizon after the report, a committed report is eligible exactly when its
-- commit came within the replay limit: the test of the horizon then never decides alone.
pub eligible_iff_prompt :
    (h : String) (report_time ms t : ℕ)
    → horizon_to_ms h ≡ some ms
    → (classify_eligibility (input_at report_time true (some t) ms) ≡ eligible)
      ↔ (t ≤ report_time + replay_after_ms)
unfolding classify_eligibility
eligible_iff_prompt h report_time ms t e = ground (arith, horizon_to_ms-replay h ms e)

-- All outcomes of a report are eligible together: what is eligible at the end of one known horizon
-- after the report is eligible, with the same commit, at the end of every other.
pub eligible_together :
    (h k : String) (report_time m n : ℕ) (committed : Bool) (b : Option ℕ)
    → horizon_to_ms h ≡ some m
    → horizon_to_ms k ≡ some n
    → classify_eligibility (input_at report_time committed b m) ≡ eligible
    → classify_eligibility (input_at report_time committed b n) ≡ eligible
unfolding classify_eligibility
eligible_together h k report_time m n committed b e f p =
    ground (arith, horizon_to_ms-replay h m e, horizon_to_ms-replay k n f)

-- A scanner's fetch counts as timely exactly when, taken for a commit's block time, it would leave
-- the report eligible at a known horizon.
pub scanner_fetch-eligible :
    (h : String) (report_time ms : ℕ) (b : Option ℕ)
    → horizon_to_ms h ≡ some ms
    → (scanner_fetch_is_timely report_time b ≡ true)
      ↔ (classify_eligibility (input_at report_time true b ms) ≡ eligible)
unfolding scanner_fetch_is_timely classify_eligibility
scanner_fetch-eligible h report_time ms b e = ground (arith, horizon_to_ms-replay h ms e)
