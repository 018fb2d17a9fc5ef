-- ===== src/Outcomes/Resolvers.antt =====
-- apps/worker/src/outcomes/resolve-liq.ts, resolve-drawdown.ts, resolve-sell-impaired.ts and
-- resolve-survival.ts, with the Resolution of types.ts and the ResolverContext of context.ts. Reasons
-- are constructors, the evidence is left out, and a ratio of two floating-point numbers is compared
-- by its fractions. An exception of a resolver is a failure.
pub mod Liq
pub mod Drawdown
pub mod SellImpaired
pub mod TradingAlive
pub mod SellQuotes
pub mod Sell
pub mod Depth
pub mod Survival
pub mod Applies
pub mod Examples
use tripwire_launch_auditor.Prelude.{
  ℕ, zero, suc, ◌+◌, ◌-◌, ◌*◌, ◌/◌, ◌^◌, Bool, true, false, ◌&&◌, ◌||◌, Option, none, some, List,
  [], ◌∷◌, ◌++◌, length, ltb, leb, ◌==◌, if◌then◌else◌,
}
use tripwire_launch_auditor.Hex.{Hex}
use tripwire_launch_auditor.Watcher.Retry.{Failure, Settled, value, failure}
use tripwire_launch_auditor.Outcomes.Series.{PoolKind, v2, v3, v4, PoolRef, Query, Log}
use tripwire_launch_auditor.Outcomes.Series.Coverage.{
  Gap, empty_window, log_cap_hit, sell_not_wired, Note, tail_capped, sell_size_zero, Coverage,
  new_coverage, merge_coverage, add_gap,
}
use tripwire_launch_auditor.Outcomes.Series.Price.{Price, price_zero, price_lt, PricePoint}
use tripwire_launch_auditor.Outcomes.Series.Liquidity.{LiquidityPoint}
use tripwire_launch_auditor.Outcomes.Series.Build.{
  Series, build_price_series, build_liquidity_series,
}
use tripwire_launch_auditor.Outcomes.Quote.{
  PoolKey, QuoteError, Reply, QuoteOutcome, quoted, failed, quote_exact_in_single, sell_direction,
}
use tripwire_launch_auditor.Outcomes.Quote

pub data Reason : Type 0 where
  no_liquidity_events no_events_before_horizon no_positive_liquidity no_positive_price no_quoter
        sell_not_implemented spot_zero size_underflow :
      Reason
  quoter_failed spot_failed bulk_failed : QuoteError → Reason
  survival_thrown : Failure → Reason
  survival_gaps : List Gap → Reason
  insider_unresolvable no_linked_launch no_horizon_at launch_not_found unknown_label : Reason

pub data Resolution : Type 0 where
  not_applicable : Resolution
  unresolvable : Reason → Option Coverage → Resolution
  resolved : Bool → Option Coverage → Resolution

pub record Client : Type 0 where
  pub request : ℕ → Query → ℕ → ℕ → Settled (List Log)
  pub eth_call : PoolKey → Bool → ℕ → ℕ → Reply

pub record ResolverContext : Type 0 where
  pub client : Client
  pub max_range : ℕ
  pub pool : PoolRef
  pub token : Hex
  pub quote : Hex
  pub pool_key : Option PoolKey
  pub quote_decimals : ℕ
  pub launch_block : ℕ
  pub lp_locked_by_construction : Bool
  pub horizon_block : ℕ
  pub drawdown_ref_start : ℕ
  pub drawdown_ref_end : ℕ

-- `await`: a failure ends the resolver.
unfoldable pub and_then {ℓ} :
    {P : Type ℓ} → Settled P → (P → Settled Resolution) → Settled Resolution
and_then (value p) f = f p
and_then (failure e) f = failure e

unfoldable pub last_of {ℓ} : {A : Type ℓ} → A → List A → A
last_of x [] = x
last_of x (y ∷ ys) = last_of y ys

unfoldable pub one_more_call : Coverage → Coverage
one_more_call c = record c { call_count = c.call_count + 1 }
