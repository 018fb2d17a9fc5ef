-- ===== src/Outcomes/Series/Build.antt =====
-- apps/worker/src/outcomes/series.ts: the two series, from the logs that the node gives.
use tripwire_launch_auditor.Prelude.{
  ℕ, ◌+◌, ◌-◌, Option, none, some, List, [], ◌∷◌, ◌++◌, length, ltb, leb, if◌then◌else◌, sort_on,
  ◌⊎◌, inl, inr,
}
use tripwire_launch_auditor.Hex.{Hex}
use tripwire_launch_auditor.Watcher.Logs.{windows}
use tripwire_launch_auditor.Watcher.Retry.{Settled, value, failure, undefined_error, with_retry}
use tripwire_launch_auditor.Outcomes.Series.{
  PoolKind, PoolRef, Query, Log, v2, v3, v4, v4_swap, v4_modify_liquidity, v3_swap, v2_sync,
}
use tripwire_launch_auditor.Outcomes.Series.Coverage.{
  Gap, log_cap_hit, Coverage, new_coverage, add_gap, empty_window, no_pool_id, no_pool_address,
  no_modify_events, no_sync_events, v3_not_implemented,
}
use tripwire_launch_auditor.Outcomes.Series.Price.{PricePoint, price_point, filter_map}
use tripwire_launch_auditor.Outcomes.Series.Liquidity.{
  LiquidityPoint, LiquidityDelta, decode_v4_modify_liquidity, quote_reserve, accumulate, reserves,
}

pub record Series {ℓ} (P : Type ℓ) : Type ℓ where
  pub points : List P
  pub coverage : Coverage

abbrev pub max_series_logs : ℕ
max_series_logs = 40_000

-- The address and the topics that the trades are asked by.
unfoldable pub price_query : PoolRef → PoolKind → Option Hex → Option Hex → Gap ⊎ Query
price_query pool v4 none address = inl no_pool_id
price_query pool v4 (some id) address =
    inr (record { address = pool.pool_manager; event = v4_swap; id = some id })
price_query pool v3 id none = inl no_pool_address
price_query pool v3 id (some address) =
    inr (record { address = address; event = v3_swap; id = none })
price_query pool v2 id none = inl no_pool_address
price_query pool v2 id (some address) =
    inr (record { address = address; event = v2_sync; id = none })

module _ (request : ℕ → Query → ℕ → ℕ → Settled (List Log)) where
  -- `getLogsChunked` of one attempt: the first window that fails ends it.
  unfoldable pub read_windows : ℕ → Query → List (ℕ × ℕ) → Settled (List Log)
  read_windows attempt q [] = value []
  read_windows attempt q ((from, to) ∷ rest) = elim (request attempt q from to) [
    | failure e ↦ failure e
    | value logs ↦ elim (read_windows attempt q rest) [
      | failure e ↦ failure e
      | value more ↦ value (logs ++ more)
    ]
  ]

  unfoldable pub chunked_logs : Query → ℕ → ℕ → ℕ → Settled (List Log)
  unfolding read_windows
  chunked_logs q from to max_range =
      (with_retry
        (λ attempt.
          if ltb max_range 1
          then failure undefined_error
          else read_windows attempt q (windows (to + 1 - from) from to max_range))
        2 1500).outcome

module _ (request : ℕ → Query → ℕ → ℕ → Settled (List Log)) (pool : PoolRef) where
  unfoldable pub price_series : Coverage → Query → ℕ → ℕ → ℕ → Settled (Series PricePoint)
  price_series coverage q from to max_range = elim (chunked_logs request q from to max_range) [
    | failure e ↦ failure e
    | value logs ↦ value (record {
      points =
          sort_on PricePoint.block
            (filter_map (price_point pool.pool_kind pool.token_is_currency0) logs);
      coverage =
          if leb max_series_logs (length logs)
          then add_gap (log_cap_hit (length logs)) coverage
          else coverage;
    })
  ]

  unfoldable pub build_price_series : ℕ → ℕ → ℕ → Settled (Series PricePoint)
  unfolding price_series price_query
  build_price_series from to max_range =
      let coverage = new_coverage from to max_range in
      if ltb to from
      then value (record { points = []; coverage = add_gap empty_window coverage })
      else elim (price_query pool pool.pool_kind pool.pool_id pool.pool_address) [
        | inl gap ↦ value (record { points = []; coverage = add_gap gap coverage })
        | inr q ↦ price_series coverage q from to max_range
      ]

  -- The series, with a gap where it has no point.
  unfoldable pub with_points :
      Gap → Coverage → List LiquidityPoint → Settled (Series LiquidityPoint)
  with_points gap coverage [] = value (record { points = []; coverage = add_gap gap coverage })
  with_points gap coverage (p ∷ ps) = value (record { points = p ∷ ps; coverage = coverage })

  unfoldable pub v4_liquidity : Coverage → Option Hex → ℕ → ℕ → ℕ → Settled (Series LiquidityPoint)
  v4_liquidity coverage none from to max_range =
      value (record { points = []; coverage = add_gap no_pool_id coverage })
  v4_liquidity coverage (some id) from to max_range =
      elim (chunked_logs request
        (record { address = pool.pool_manager; event = v4_modify_liquidity; id = some id }) from to
        max_range) [
          | failure e ↦ failure e
          | value logs ↦ with_points no_modify_events coverage (
              accumulate 0 0
                (sort_on LiquidityDelta.block (filter_map decode_v4_modify_liquidity logs)))
        ]

  unfoldable pub v2_liquidity : Coverage → Option Hex → ℕ → ℕ → ℕ → Settled (Series LiquidityPoint)
  v2_liquidity coverage none from to max_range =
      value (record { points = []; coverage = add_gap no_pool_address coverage })
  v2_liquidity coverage (some address) from to max_range =
      elim (chunked_logs request (record { address = address; event = v2_sync; id = none }) from to
        max_range) [
          | failure e ↦ failure e
          | value logs ↦ with_points no_sync_events coverage (
              reserves 0
                (sort_on (λ s. s.0) (filter_map (quote_reserve pool.token_is_currency0) logs)))
        ]

  unfoldable pub build_liquidity_series : ℕ → ℕ → ℕ → Settled (Series LiquidityPoint)
  unfolding v4_liquidity v2_liquidity with_points
  build_liquidity_series from to max_range =
      let coverage = new_coverage from to max_range in
      if ltb to from
      then value (record { points = []; coverage = add_gap empty_window coverage })
      else elim pool.pool_kind [
        | v4 ↦ v4_liquidity coverage pool.pool_id from to max_range
        | v2 ↦ v2_liquidity coverage pool.pool_address from to max_range
        | v3 ↦ value (record { points = []; coverage = add_gap v3_not_implemented coverage })
      ]
