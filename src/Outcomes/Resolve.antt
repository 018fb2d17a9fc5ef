-- ===== src/Outcomes/Resolve.antt =====
-- apps/worker/src/outcomes/resolve.ts: one outcome to a verdict, with the caches of the process as a
-- state. The launch and the cluster come from the database, `read_decimals` is the token contract's
-- answer or a failure, and the transfers of the cluster are the answers of the two queries by
-- topic. The chain that is configured has one pool manager.
pub mod QuoteDecimals
pub mod Pool
pub mod Run
pub mod Decimals
pub mod Dispatch
pub mod Examples
use tripwire_launch_auditor.Prelude.{
  ℕ, zero, suc, ◌+◌, ◌-◌, ◌*◌, ◌/◌, Bool, true, false, not, ◌&&◌, ◌||◌, Option, none, some, List,
  [], ◌∷◌, ◌++◌, map, ◌==◌, ◌=ₛ◌, String, if◌then◌else◌,
}
use tripwire_launch_auditor.Hex.{Hex, hex_eq, to_lower_case}
use tripwire_launch_auditor.Scoring.Outcome.{
  OutcomeLabel, insider_exit, sell_impaired, liq_impaired, drawdown_80, trading_alive, outcome_key,
  outcome_applies,
}
use tripwire_launch_auditor.Watcher.Retry.{Failure, Settled, value, failure}
use tripwire_launch_auditor.Outcomes.BlockTime.{Cache, BlockAtTimeOptions, block_at_time}
use tripwire_launch_auditor.Outcomes.Series.{PoolKind, v2, v3, v4, PoolRef}
use tripwire_launch_auditor.Outcomes.Quote.{PoolKey, hex_lt}
use tripwire_launch_auditor.Outcomes.Insider.{Transfer, resolve_insider_exit}
use tripwire_launch_auditor.Outcomes.Insider
use tripwire_launch_auditor.Outcomes.Resolvers.{
  Reason, insider_unresolvable, no_linked_launch, no_horizon_at, launch_not_found, Resolution,
  not_applicable, unresolvable, resolved, Client, ResolverContext,
}
use tripwire_launch_auditor.Outcomes.Resolvers.Liq.{resolve_liq_impaired}
use tripwire_launch_auditor.Outcomes.Resolvers.Drawdown.{resolve_drawdown}
use tripwire_launch_auditor.Outcomes.Resolvers.SellImpaired.{resolve_sell_impaired}
use tripwire_launch_auditor.Outcomes.Resolvers.TradingAlive.{resolve_survival}
use tripwire_launch_auditor.Outcomes.Rows.{OutcomeRow}

unfoldable pub zeros : ℕ → Hex
zeros zero = []
zeros (suc n) = 48 ∷ zeros n

-- `0x` and forty zeros.
unfoldable pub zero_address : Hex
unfolding zeros
zero_address = 48 ∷ 120 ∷ zeros 40

abbrev pub h24_ms : ℕ
h24_ms = 24 * 3600 * 1000

pub record Launch : Type 0 where
  pub token_address : Hex
  pub quote_address : Option Hex
  pub pool_kind : Option PoolKind
  pub pool_address : Option Hex
  pub pool_id : Option Hex
  pub pool_fee : Option ℕ
  pub pool_tick_spacing : Option ℕ
  pub pool_hooks : Option Hex
  pub launch_block : ℕ
  pub lp_locked_by_construction : Bool
