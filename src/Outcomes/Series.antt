-- ===== src/Outcomes/Series.antt =====
-- apps/worker/src/outcomes/series.ts and coverage.ts, and the decoders and prices of
-- packages/chain/src/uniswap-events.ts: what a pool's events say of its price and its depth. A log is
-- the event that the ABI decoder reads in it; `request` stands for one `eth_getLogs` of the node,
-- by attempt. A price is the fraction that the floating-point number stands for; transaction hashes
-- are left out, and an id or an address that is recorded is not empty.
pub mod Coverage
pub mod Price
pub mod Liquidity
pub mod Build
pub mod Points
use tripwire_launch_auditor.Prelude.{
  ℕ, zero, suc, ◌+◌, ◌-◌, ◌*◌, ◌/◌, ◌^◌, min, max, Bool, true, false, ◌||◌, Option, none, some,
  List, [], ◌∷◌, ◌++◌, length, ltb, leb, ◌==◌, if◌then◌else◌, sort_on, ℤ, pos, negsuc, ◌⊎◌, inl,
  inr,
}
use tripwire_launch_auditor.Hex.{Hex}
use tripwire_launch_auditor.Watcher.Logs.{windows}
use tripwire_launch_auditor.Watcher.Retry.{
  Failure, Settled, value, failure, undefined_error, Retried, with_retry,
}

pub data PoolKind : Type 0 where
  v2 v3 v4 : PoolKind

pub record PoolRef : Type 0 where
  pub pool_kind : PoolKind
  pub pool_manager : Hex
  pub pool_address : Option Hex
  pub pool_id : Option Hex
  pub token_is_currency0 : Bool

-- `TRADE_EVENT_TOPIC0`
pub data TradeEvent : Type 0 where
  v4_swap v4_modify_liquidity v3_swap v2_sync : TradeEvent

pub record Query : Type 0 where
  pub address : Hex
  pub event : TradeEvent
  pub id : Option Hex

pub data Log : Type 0 where
  v4_swap_log : ℕ → ℕ → Log
  v3_swap_log : ℕ → ℕ → Log
  modify_log : ℕ → ℤ → Log
  sync_log : ℕ → ℕ → ℕ → Log
  other_log : ℕ → Log
