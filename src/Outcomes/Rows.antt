-- ===== src/Outcomes/Rows.antt =====
-- The rows of the table of outcomes, and apps/worker/src/outcomes/enumerate.ts, which makes them for
-- a report. The rule version is always v1; the evidence of a row is what a deferral keeps in it, and
-- the rest of it is left out. The table gives new ids.
pub mod Keys
pub mod Grid
pub mod Examples
use tripwire_launch_auditor.Prelude.{
  ℕ, zero, suc, ◌+◌, ◌*◌, Bool, true, false, ◌&&◌, Option, none, some, List, [], ◌∷◌, ◌++◌, map,
  length, ◌==◌, if◌then◌else◌, String,
}
use tripwire_launch_auditor.Hex.{Hex, hex_eq, to_lower_case}
use tripwire_launch_auditor.Scoring.Outcome.{
  Horizon, h1, h6, h24, h72, d7, OutcomeLabel, insider_exit, sell_impaired, liq_impaired,
  drawdown_80, trading_alive, OutcomeKey, all_outcome_keys, outcome_applies,
}

pub data OutcomeStatus : Type 0 where
  pending resolved na unresolvable : OutcomeStatus

pub record OutcomeRow : Type 0 where
  pub id : ℕ
  pub chain_id : ℕ
  pub token_address : Hex
  pub anchor_time : ℕ
  pub trigger : String
  pub launch_id : Option ℕ
  pub label : OutcomeLabel
  pub horizon : Horizon
  pub status : OutcomeStatus
  pub verdict : Option Bool
  pub horizon_at : Option ℕ
  pub measured_at : Option ℕ
  pub first_deferred_at : Option ℕ
  pub deferrals : ℕ
  pub retrospective : Bool

-- `HORIZON_MS`, of apps/worker/src/outcomes/resolve.ts.
pub horizon_ms : Horizon → ℕ
horizon_ms h1 = 3600 * 1000
horizon_ms h6 = 6 * (3600 * 1000)
horizon_ms h24 = 24 * (3600 * 1000)
horizon_ms h72 = 72 * (3600 * 1000)
horizon_ms d7 = 7 * (24 * (3600 * 1000))

label_code : OutcomeLabel → ℕ
label_code insider_exit = 0
label_code sell_impaired = 1
label_code liq_impaired = 2
label_code drawdown_80 = 3
label_code trading_alive = 4

horizon_code : Horizon → ℕ
horizon_code h1 = 0
horizon_code h6 = 1
horizon_code h24 = 2
horizon_code h72 = 3
horizon_code d7 = 4

pub label_eq : OutcomeLabel → OutcomeLabel → Bool
unfolding label_code
label_eq a b = label_code a == label_code b

pub horizon_eq : Horizon → Horizon → Bool
unfolding horizon_code
horizon_eq a b = horizon_code a == horizon_code b

pub record EnsureOutcomeInput : Type 0 where
  pub chain_id : ℕ
  pub token_address : Hex
  pub report_time : ℕ
  pub trigger : String
  pub launch_id : Option ℕ
  pub lp_locked_by_construction : Bool
  pub retrospective : Option Bool

or_false : Option Bool → Bool
or_false none = false
or_false (some b) = b

-- The row of one key. The id is the table's.
pub row_of : EnsureOutcomeInput → OutcomeKey → ℕ → OutcomeRow
unfolding or_false
row_of input key id = record {
  id = id;
  chain_id = input.chain_id;
  token_address = to_lower_case input.token_address;
  anchor_time = input.report_time;
  trigger = input.trigger;
  launch_id = input.launch_id;
  label = key.label;
  horizon = key.horizon;
  status = if outcome_applies key input.lp_locked_by_construction then pending else na;
  verdict = none;
  horizon_at = some (input.report_time + horizon_ms key.horizon);
  measured_at = none;
  first_deferred_at = none;
  deferrals = 0;
  retrospective = or_false input.retrospective;
}

-- The unique key of the table.
pub same_key : OutcomeRow → OutcomeRow → Bool
same_key a b =
    (a.chain_id == b.chain_id)
    && hex_eq a.token_address b.token_address
    && (a.anchor_time == b.anchor_time)
    && label_eq a.label b.label
    && horizon_eq a.horizon b.horizon

pub holds_key : OutcomeRow → List OutcomeRow → Bool
holds_key r [] = false
holds_key r (x ∷ xs) = if same_key x r then true else holds_key r xs

-- `createMany` with `skipDuplicates`: the table after it, and the count.
pub create_many : EnsureOutcomeInput → List OutcomeKey → List OutcomeRow → List OutcomeRow × ℕ
create_many input [] table = (table, 0)
create_many input (key ∷ keys) table =
    let row = row_of input key (length table) in
    let kept = holds_key row table in
    let (after, n) = create_many input keys (if kept then table else table ++ row ∷ []) in
    (after, if kept then n else n + 1)

pub ensure_outcome_rows : EnsureOutcomeInput → List OutcomeRow → List OutcomeRow × ℕ
ensure_outcome_rows input table = create_many input all_outcome_keys table
