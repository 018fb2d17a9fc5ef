-- ===== src/Outcomes/Resolve/Examples.antt =====
-- An outcome of a launch whose liquidity is locked, and a token whose decimals are first not given.
use tripwire_launch_auditor.Prelude.{ℕ, ◌≡◌, ◌↔◌, refl, true, false, Option, none, some, [], ◌∷◌}
use tripwire_launch_auditor.Hex.{Hex}
use tripwire_launch_auditor.Scoring.Outcome.{outcome_key, liq_impaired, h24}
use tripwire_launch_auditor.Watcher.Retry.{value}
use tripwire_launch_auditor.Outcomes.Quote.{amount}
use tripwire_launch_auditor.Outcomes.Resolvers.{not_applicable}
use tripwire_launch_auditor.Outcomes.Rows.{pending, na, OutcomeRow, EnsureOutcomeInput, row_of}
use tripwire_launch_auditor.Outcomes.Resolve.{Launch}
use tripwire_launch_auditor.Outcomes.Resolve.Run.{ResolveState, World, resolve_one_outcome}
use tripwire_launch_auditor.Outcomes.Resolve.Dispatch.{resolve_one_outcome-na}

abbrev token : Hex
token = 97 ∷ []

abbrev no_answer : Hex → Option ℕ
no_answer h = none

abbrev six : Hex → Option ℕ
six h = some 6

abbrev locked : Launch
locked = record {
  token_address = token;
  quote_address = none;
  pool_kind = none;
  pool_address = none;
  pool_id = some (99 ∷ []);
  pool_fee = none;
  pool_tick_spacing = none;
  pool_hooks = none;
  launch_block = 1;
  lp_locked_by_construction = true;
}

abbrev world : World
world = record {
  launches = λ id. some locked;
  members = λ id. [];
  timestamp = λ b. b;
  head = 100;
  client = record { request = λ k q from to. value []; eth_call = λ k d n b. amount 1 };
  read_decimals = six;
  transfers = λ l c b. value ([], []);
  pool_manager = 98 ∷ [];
  max_range = 1000;
}

abbrev report : EnsureOutcomeInput
report = record {
  chain_id = 4663;
  token_address = token;
  report_time = 1000;
  trigger = "launch";
  launch_id = some 1;
  lp_locked_by_construction = true;
  retrospective = none;
}

abbrev due : OutcomeRow
due = record {
  id = 0;
  chain_id = 4663;
  token_address = token;
  anchor_time = 1000;
  trigger = "launch";
  launch_id = some 1;
  label = liq_impaired;
  horizon = h24;
  status = pending;
  verdict = none;
  horizon_at = some 86_401_000;
  measured_at = none;
  first_deferred_at = none;
  deferrals = 0;
  retrospective = false;
}

abbrev empty_caches : ResolveState
empty_caches = record { blocks = λ c s. none; decimals = no_answer }

resolve_one_outcome-na_example :
    ((resolve_one_outcome world due empty_caches).0 ≡ value not_applicable)
    ↔ ((row_of report (outcome_key liq_impaired h24) 0).status ≡ na)
resolve_one_outcome-na_example =
    resolve_one_outcome-na world due empty_caches 1 86_401_000 locked report 0 refl refl refl refl
