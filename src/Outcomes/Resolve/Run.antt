-- ===== src/Outcomes/Resolve/Run.antt =====
-- apps/worker/src/outcomes/resolve.ts: `resolveOneOutcome`.
use tripwire_launch_auditor.Prelude.{
  ℕ, ◌+◌, ◌-◌, ◌/◌, Bool, not, ◌||◌, Option, none, some, List, [], ◌∷◌, map, ◌=ₛ◌, String,
  if◌then◌else◌,
}
use tripwire_launch_auditor.Hex.{Hex, to_lower_case}
use tripwire_launch_auditor.Scoring.Outcome.{
  OutcomeLabel, insider_exit, sell_impaired, liq_impaired, drawdown_80, trading_alive, outcome_key,
  outcome_applies,
}
use tripwire_launch_auditor.Watcher.Retry.{Settled, value, failure}
use tripwire_launch_auditor.Outcomes.BlockTime.{Cache, BlockAtTimeOptions, block_at_time}
use tripwire_launch_auditor.Outcomes.Series.{PoolRef}
use tripwire_launch_auditor.Outcomes.Insider.{Transfer, resolve_insider_exit}
use tripwire_launch_auditor.Outcomes.Insider
use tripwire_launch_auditor.Outcomes.Resolvers.{
  insider_unresolvable, no_linked_launch, no_horizon_at, launch_not_found, Resolution,
  not_applicable, unresolvable, resolved, Client, ResolverContext,
}
use tripwire_launch_auditor.Outcomes.Resolvers.Liq.{resolve_liq_impaired}
use tripwire_launch_auditor.Outcomes.Resolvers.Drawdown.{resolve_drawdown}
use tripwire_launch_auditor.Outcomes.Resolvers.SellImpaired.{resolve_sell_impaired}
use tripwire_launch_auditor.Outcomes.Resolvers.TradingAlive.{resolve_survival}
use tripwire_launch_auditor.Outcomes.Rows.{OutcomeRow}
use tripwire_launch_auditor.Outcomes.Resolve.{h24_ms, Launch}
use tripwire_launch_auditor.Outcomes.Resolve.QuoteDecimals.{DecimalsCache, quote_decimals}
use tripwire_launch_auditor.Outcomes.Resolve.Pool.{quote_of, pool_of, pool_key_of}

pub record ResolveState : Type 0 where
  pub blocks : Cache
  pub decimals : DecimalsCache

-- The chain and the database as the resolver sees them.
pub record World : Type 0 where
  pub launches : ℕ → Option Launch
  pub members : ℕ → List Hex
  pub timestamp : ℕ → ℕ
  pub head : ℕ
  pub client : Client
  pub read_decimals : Hex → Option ℕ
  pub transfers : Launch → List Hex → ℕ → Settled (List Transfer × List Transfer)
  pub pool_manager : Hex
  pub max_range : ℕ

unfoldable pub at_defaults : ℕ → BlockAtTimeOptions
at_defaults chain_id = record { chain_id = some chain_id; max_iters = none; min_block = none }

-- The block of a time in milliseconds.
unfoldable pub block_of : World → ℕ → ℕ → Cache → ℕ × Cache
unfolding at_defaults
block_of w chain_id ms cache =
    block_at_time w.timestamp w.head (ms / 1000) (at_defaults chain_id) cache

-- The trigger of a report at or near the launch.
unfoldable pub at_launch : String → Bool
at_launch t = (t =ₛ "launch") || (t =ₛ "qualified")

-- `drawdownRefStart` and `drawdownRefEnd`.
unfoldable pub reference_window :
    World → OutcomeLabel → String → ℕ → ℕ → ℕ → Cache → (ℕ × ℕ) × Cache
unfolding block_of at_launch
reference_window w drawdown_80 trigger chain_id anchor_time anchor_block cache =
    if at_launch trigger
    then (let (end, later) = block_of w chain_id (anchor_time + h24_ms) cache in
        ((anchor_block, end), later))
    else (let (start, later) = block_of w chain_id (anchor_time - h24_ms) cache in
        ((start, anchor_block), later))
reference_window w _ trigger chain_id anchor_time anchor_block cache =
    ((anchor_block, anchor_block), cache)

unfoldable pub from_insider : Insider.Resolution → Resolution
from_insider Insider.unresolvable = unresolvable insider_unresolvable none
from_insider (Insider.resolved b evidence) = resolved b none

unfoldable pub pool_sinks : PoolRef → List Hex
pool_sinks p = elim p.pool_address [
  | none ↦ to_lower_case p.pool_manager ∷ []
  | some a ↦ to_lower_case p.pool_manager ∷ to_lower_case a ∷ []
]

unfoldable pub insider_verdict :
    List Hex → List Hex → Settled (List Transfer × List Transfer) → Settled Resolution
unfolding from_insider
insider_verdict [] sinks transfers = value (from_insider (resolve_insider_exit [] sinks [] []))
insider_verdict (c ∷ cluster) sinks (failure e) = failure e
insider_verdict (c ∷ cluster) sinks (value (out_logs, in_logs)) =
    value (from_insider (resolve_insider_exit (c ∷ cluster) sinks out_logs in_logs))

-- The `switch` on the label.
unfoldable pub resolve_label :
    World → Launch → List Hex → OutcomeLabel → ResolverContext → Settled Resolution
unfolding insider_verdict pool_sinks
resolve_label w launch cluster drawdown_80 ctx = resolve_drawdown ctx
resolve_label w launch cluster sell_impaired ctx = resolve_sell_impaired ctx
resolve_label w launch cluster liq_impaired ctx = resolve_liq_impaired ctx
resolve_label w launch cluster insider_exit ctx =
    insider_verdict cluster (pool_sinks ctx.pool) (w.transfers launch cluster ctx.horizon_block)
resolve_label w launch cluster trading_alive ctx = resolve_survival ctx

-- The context, and the caches after the look-ups that it takes.
unfoldable pub context_of :
    World → OutcomeRow → ℕ → Launch → ResolveState → ResolverContext × ResolveState
unfolding block_of reference_window quote_decimals pool_of pool_key_of
context_of w row horizon_at launch s =
    let (anchor, c1) = block_of w row.chain_id row.anchor_time s.blocks in
    let (horizon, c2) = block_of w row.chain_id horizon_at c1 in
    let (window, c3) =
      reference_window w row.label row.trigger row.chain_id row.anchor_time anchor c2 in
    let (decimals, d) = quote_decimals w.read_decimals s.decimals (quote_of launch) in
    (
      record {
        client = w.client;
        max_range = w.max_range;
        pool = pool_of w.pool_manager launch;
        token = to_lower_case launch.token_address;
        quote = quote_of launch;
        pool_key = pool_key_of launch;
        quote_decimals = decimals;
        launch_block = launch.launch_block;
        lp_locked_by_construction = launch.lp_locked_by_construction;
        horizon_block = horizon;
        drawdown_ref_start = window.0;
        drawdown_ref_end = window.1;
      },
      record { blocks = c3; decimals = d },
    )

unfoldable pub of_launch :
    World → OutcomeRow → ℕ → ℕ → Option Launch → ResolveState → Settled Resolution × ResolveState
unfolding context_of resolve_label
of_launch w row id horizon_at none s = (value (unresolvable launch_not_found none), s)
of_launch w row id horizon_at (some launch) s =
    let (ctx, after) = context_of w row horizon_at launch s in
    if not (outcome_applies (outcome_key row.label row.horizon) launch.lp_locked_by_construction)
    then (value not_applicable, s)
    else (resolve_label w launch (map to_lower_case (w.members id)) row.label ctx, after)

unfoldable pub of_row :
    World → OutcomeRow → Option ℕ → Option ℕ → ResolveState → Settled Resolution × ResolveState
unfolding of_launch
of_row w row none horizon_at s = (value (unresolvable no_linked_launch none), s)
of_row w row (some id) none s = (value (unresolvable no_horizon_at none), s)
of_row w row (some id) (some horizon_at) s = of_launch w row id horizon_at (w.launches id) s

unfoldable pub resolve_one_outcome :
    World → OutcomeRow → ResolveState → Settled Resolution × ResolveState
unfolding of_row
resolve_one_outcome w row s = of_row w row row.launch_id row.horizon_at s
