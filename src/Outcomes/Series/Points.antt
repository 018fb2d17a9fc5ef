-- ===== src/Outcomes/Series/Points.antt =====
-- What the points of a series are, by its logs.
use tripwire_launch_auditor.Prelude.{
  ℕ, suc, ◌≤◌, ◌≡◌, ◌⊎◌, inl, inr, refl, Bool, true, false, Option, none, some, List, [], ◌∷◌,
  length, All, leb, arith, Option-cases, sort_on, pos, negsuc, if◌then◌else◌, ◌∙◌,
}
use tripwire_launch_auditor.Hex.{Hex}
use tripwire_launch_auditor.Watcher.Retry.{Failure, Settled, value, failure}
use tripwire_launch_auditor.Outcomes.Series.{
  PoolKind, v2, v3, v4, PoolRef, Query, Log, v4_swap_log, v3_swap_log, modify_log, sync_log,
  other_log, v4_modify_liquidity,
}
use tripwire_launch_auditor.Outcomes.Series.Coverage.{
  Gap, no_pool_id, no_pool_address, no_modify_events, Coverage, new_coverage, add_gap, log_cap_hit,
}
use tripwire_launch_auditor.Outcomes.Series.Price.{PricePoint, price_point, filter_map}
use tripwire_launch_auditor.Outcomes.Series.Build.{
  max_series_logs, chunked_logs, price_query, price_series, build_liquidity_series, v4_liquidity,
  with_points, build_price_series,
}
use tripwire_launch_auditor.Outcomes.Series.Liquidity.{
  LiquidityPoint, LiquidityDelta, accumulate, decode_v4_modify_liquidity,
}

abbrev pub block_of : Log → ℕ
block_of (v4_swap_log b s) = b
block_of (v3_swap_log b s) = b
block_of (modify_log b d) = b
block_of (sync_log b r0 r1) = b
block_of (other_log b) = b

-- How many of the logs give a point.
abbrev pub is_some {ℓ} : {A : Type ℓ} → Option A → Bool
is_some none = false
is_some (some a) = true

pub trades : PoolKind → Bool → List Log → ℕ
trades kind c0 [] = 0
trades kind c0 (l ∷ ls) =
    if is_some (price_point kind c0 l) then suc (trades kind c0 ls) else trades kind c0 ls

pub length-filter_map :
    (kind : PoolKind) (c0 : Bool) (logs : List Log)
    → length (filter_map (price_point kind c0) logs) ≡ trades kind c0 logs
unfolding filter_map trades
length-filter_map kind c0 [] = refl
length-filter_map kind c0 (l ∷ ls) =
    let ih = length-filter_map kind c0 ls in
    elim (Option-cases (price_point kind c0 l)) [
      | inl e ↦ ground (arith, ih)
      | inr (p, e) ↦ ground (arith, ih)
    ]

-- The pool has no id or address to ask by.
abbrev pub Unnamed : PoolRef → Gap → Type 0
Unnamed pool g = price_query pool pool.pool_kind pool.pool_id pool.pool_address ≡ inl g

abbrev pub Named : PoolRef → Query → Type 0
Named pool q = price_query pool pool.pool_kind pool.pool_id pool.pool_address ≡ inr q

module _ (request : ℕ → Query → ℕ → ℕ → Settled (List Log)) (pool : PoolRef) where
  with_points_lem :
      (g : Gap) (c : Coverage) (ps : List LiquidityPoint)
      → (d : Coverage) × (with_points request pool g c ps
          ≡ value (record { points = ps; coverage = d }))
  unfolding with_points
  with_points_lem g c [] = (add_gap g c, refl)
  with_points_lem g c (p ∷ ps) = (c, refl)

  -- The points of a v4 pool's depth.
  pub liquidity-v4 :
      (id : Hex) (from to max_range : ℕ) (logs : List Log)
      → pool.pool_kind ≡ v4
      → pool.pool_id ≡ some id
      → from ≤ to
      → chunked_logs request
          (record { address = pool.pool_manager; event = v4_modify_liquidity; id = some id })
          from
          to
          max_range
        ≡ value logs
      → (c : Coverage) × (build_liquidity_series request pool from to max_range
          ≡ value (record {
            points =
                accumulate 0 0
                  (sort_on LiquidityDelta.block (filter_map decode_v4_modify_liquidity logs));
            coverage = c;
          }))
  unfolding build_liquidity_series v4_liquidity
  liquidity-v4 id from to max_range logs h k l m =
      let c = new_coverage from to max_range in
      let ps =
        accumulate 0 0
          (sort_on LiquidityDelta.block (filter_map decode_v4_modify_liquidity logs)) in
      let (d, e) = with_points_lem no_modify_events c ps in
      let inner : v4_liquidity request pool c (some id) from to max_range
          ≡ with_points request pool no_modify_events c ps =
        ground (arith, m) in
      let outer : build_liquidity_series request pool from to max_range
          ≡ v4_liquidity request pool c (some id) from to max_range =
        ground (arith, h, k, l) in
      (d, outer ∙ inner ∙ e)

module _ (request : ℕ → Query → ℕ → ℕ → Settled (List Log)) (pool : PoolRef) where
  pub series-Unnamed :
      (g : Gap) (from to max_range : ℕ)
      → Unnamed pool g
      → from ≤ to
      → build_price_series request pool from to max_range
        ≡ value (record { points = []; coverage = add_gap g (new_coverage from to max_range) })
  unfolding build_price_series
  series-Unnamed g from to max_range h k = ground arith

  pub series-Named :
      (q : Query) (from to max_range : ℕ)
      → Named pool q
      → from ≤ to
      → build_price_series request pool from to max_range
        ≡ price_series request pool (new_coverage from to max_range) q from to max_range
  unfolding build_price_series
  series-Named q from to max_range h k = ground arith

  pub series-failure :
      (q : Query) (from to max_range : ℕ) (e : Failure) (c : Coverage)
      → chunked_logs request q from to max_range ≡ failure e
      → price_series request pool c q from to max_range ≡ failure e
  unfolding price_series
  series-failure q from to max_range e c h = ground arith

  pub series-logs :
      (q : Query) (from to max_range : ℕ) (logs : List Log) (c : Coverage)
      → chunked_logs request q from to max_range ≡ value logs
      → price_series request pool c q from to max_range
        ≡ value (record {
          points =
              sort_on PricePoint.block
                (filter_map (price_point pool.pool_kind pool.token_is_currency0) logs);
          coverage =
              if leb max_series_logs (length logs)
              then add_gap (log_cap_hit (length logs)) c
              else c;
        })
  unfolding price_series
  series-logs q from to max_range logs c h = ground arith

query-gap :
    (pool : PoolRef) (kind : PoolKind) (id address : Option Hex) (g : Gap)
    → price_query pool kind id address ≡ inl g
    → (g ≡ no_pool_id) ⊎ (g ≡ no_pool_address)
unfolding price_query
query-gap pool v4 none address g h = inl (cc)
query-gap pool v4 (some id) address g h = cc
query-gap pool v3 id none g h = inr (cc)
query-gap pool v3 id (some address) g h = cc
query-gap pool v2 id none g h = inr (cc)
query-gap pool v2 id (some address) g h = cc

pub Unnamed-gap :
    (pool : PoolRef) (g : Gap) → Unnamed pool g → (g ≡ no_pool_id) ⊎ (g ≡ no_pool_address)
Unnamed-gap pool g h = query-gap pool pool.pool_kind pool.pool_id pool.pool_address g h

pub modify-blocks :
    (h : ℕ) (logs : List Log)
    → All (λ l. block_of l ≤ h) logs
    → All (λ d. LiquidityDelta.block d ≤ h) (filter_map decode_v4_modify_liquidity logs)
unfolding filter_map decode_v4_modify_liquidity
modify-blocks h [] k = tt
modify-blocks h (modify_log b (pos n) ∷ ls) (k, ks) = (k, modify-blocks h ls ks)
modify-blocks h (modify_log b (negsuc n) ∷ ls) (k, ks) = (k, modify-blocks h ls ks)
modify-blocks h (v4_swap_log b s ∷ ls) (k, ks) = modify-blocks h ls ks
modify-blocks h (v3_swap_log b s ∷ ls) (k, ks) = modify-blocks h ls ks
modify-blocks h (sync_log b r s ∷ ls) (k, ks) = modify-blocks h ls ks
modify-blocks h (other_log b ∷ ls) (k, ks) = modify-blocks h ls ks
