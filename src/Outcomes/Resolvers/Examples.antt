-- ===== src/Outcomes/Resolvers/Examples.antt =====
-- A v4 pool whose depth was taken away, and a pool without an id.
use tripwire_launch_auditor.Prelude.{
  ◌≡◌, ◌↔◌, refl, true, false, Option, none, some, List, [], ◌∷◌, pos, negsuc, arith,
}
use tripwire_launch_auditor.Hex.{Hex}
use tripwire_launch_auditor.Watcher.Retry.{Failure, value, failure, attempt_from, with_retry}
use tripwire_launch_auditor.Watcher.Logs.{windows}
use tripwire_launch_auditor.Outcomes.Series.{v4, PoolRef, Query, Log, modify_log, v4_swap}
use tripwire_launch_auditor.Outcomes.Series.Coverage.{Coverage, no_pool_id}
use tripwire_launch_auditor.Outcomes.Series.Build.{price_query, read_windows, chunked_logs}
use tripwire_launch_auditor.Outcomes.Quote.{PoolKey, amount}
use tripwire_launch_auditor.Outcomes.Resolvers.{Client, ResolverContext, Resolution, resolved}
use tripwire_launch_auditor.Outcomes.Resolvers.SellImpaired.{resolve_sell_impaired}
use tripwire_launch_auditor.Outcomes.Resolvers.Liq.{resolve_liq_impaired}
use tripwire_launch_auditor.Outcomes.Resolvers.TradingAlive.{resolve_survival}
use tripwire_launch_auditor.Outcomes.Resolvers.Sell.{WithKey, resolve_sell_impaired-IsMeasured}
use tripwire_launch_auditor.Outcomes.Resolvers.SellQuotes.{Measured, Unencodable}
use tripwire_launch_auditor.Outcomes.Resolvers.Depth.{
  DepthSays, deltas_of, resolve_liq_impaired-Says,
}
use tripwire_launch_auditor.Outcomes.Resolvers.Survival.{
  SurvivalSays, window_logs, resolve_survival-Says, resolve_survival-unscanned,
}

abbrev token : Hex
token = 97 ∷ []

abbrev quote : Hex
quote = 48 ∷ []

abbrev pool_id : Hex
pool_id = 99 ∷ []

abbrev logs : List Log
logs = modify_log 10 (pos 1000) ∷ modify_log 20 (negsuc 899) ∷ []

abbrev key : PoolKey
key = record { currency0 = quote; currency1 = token; fee = 3000; tick_spacing = 60; hooks = quote }

-- Every query gives the two logs, and every quote is a half of the amount.
abbrev node : Client
node = record {
  request = λ k q from to. value logs;
  eth_call = λ k d n block. amount 500_000_000_000;
}

abbrev pool : Option Hex → PoolRef
pool id = record {
  pool_kind = v4;
  pool_manager = quote;
  pool_address = none;
  pool_id = id;
  token_is_currency0 = false;
}

abbrev context : Option Hex → ResolverContext
context id = record {
  client = node;
  max_range = 1000;
  pool = pool id;
  token = token;
  quote = quote;
  pool_key = some key;
  quote_decimals = 18;
  launch_block = 5;
  lp_locked_by_construction = false;
  horizon_block = 900;
  drawdown_ref_start = 5;
  drawdown_ref_end = 100;
}

resolve_sell_impaired-IsMeasured_example :
    let ctx = context (some pool_id) in
    (((c : Option Coverage) × (resolve_sell_impaired ctx ≡ value (resolved true c)))
      ↔ ((false ≡ false) × WithKey ctx (λ k. Measured ctx k true)))
    × (((e : Failure) × (resolve_sell_impaired ctx ≡ failure e))
        ↔ ((false ≡ false) × WithKey ctx (Unencodable ctx)))
resolve_sell_impaired-IsMeasured_example =
    resolve_sell_impaired-IsMeasured (context (some pool_id)) true

resolve_liq_impaired-Says_example :
    (r : Resolution) × (resolve_liq_impaired (context (some pool_id)) ≡ value r)
    × DepthSays (deltas_of logs) r
unfolding chunked_logs read_windows with_retry attempt_from windows
resolve_liq_impaired-Says_example =
    resolve_liq_impaired-Says (context (some pool_id)) pool_id logs refl refl refl (omega arith)
      (omega arith, (omega arith, tt)) refl

abbrev query : Query
query = record { address = quote; event = v4_swap; id = some pool_id }

resolve_survival-Says_example :
    (r : Resolution) × (resolve_survival (context (some pool_id)) ≡ value r)
    × SurvivalSays (context (some pool_id)) (window_logs (context (some pool_id)) query) r
unfolding price_query
resolve_survival-Says_example = resolve_survival-Says (context (some pool_id)) query refl

resolve_survival-unscanned_example :
    (c : Coverage) × (resolve_survival (context none) ≡ value (resolved false (some c)))
unfolding price_query
resolve_survival-unscanned_example = resolve_survival-unscanned (context none) no_pool_id refl
