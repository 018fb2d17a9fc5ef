-- ===== src/Outcomes/Resolvers/Survival.antt =====
-- When a launch counts as still trading.
use tripwire_launch_auditor.Prelude.{
  sort_on, length-sort_on, ℕ, ◌-◌, ◌≡◌, ◌⊎◌, inl, inr, refl, true, false, none, some, List, [], ◌∷◌,
  length, leb, ltb, if◌then◌else◌, arith, ap, sym, subst, ◌∙◌,
}
use tripwire_launch_auditor.Watcher.Retry.{Settled, value, failure}
use tripwire_launch_auditor.Watcher.Retry.Attempts.{Settled-cases}
use tripwire_launch_auditor.Outcomes.Series.{Query, Log}
use tripwire_launch_auditor.Outcomes.Series.Coverage.{
  Gap, no_pool_id, no_pool_address, log_cap_hit, Coverage, new_coverage, add_gap,
}
use tripwire_launch_auditor.Outcomes.Series.Price.{PricePoint, price_point, filter_map}
use tripwire_launch_auditor.Outcomes.Series.Build.{
  Series, max_series_logs, chunked_logs, price_series, build_price_series,
}
use tripwire_launch_auditor.Outcomes.Series.Points.{
  trades, length-filter_map, Unnamed, Named, series-Unnamed, series-Named, series-failure,
  series-logs, Unnamed-gap,
}
use tripwire_launch_auditor.Outcomes.Resolvers.{
  ResolverContext, Resolution, unresolvable, resolved, survival_thrown, survival_gaps,
}
use tripwire_launch_auditor.Outcomes.Resolvers.TradingAlive.{
  names_failure, survival_verdict, survived, alive_from, resolve_survival,
}

-- The logs of the pool's trades in the last 216,000 blocks before the horizon.
abbrev pub window_logs : ResolverContext → Query → Settled (List Log)
window_logs ctx q =
    chunked_logs ctx.client.request q (ctx.horizon_block - 216_000) ctx.horizon_block ctx.max_range

abbrev pub trades_of : ResolverContext → List Log → ℕ
trades_of ctx = trades ctx.pool.pool_kind ctx.pool.token_is_currency0

-- The verdict, for a pool that has the id or the address to ask by.
abbrev pub SurvivalSays : ResolverContext → Settled (List Log) → Resolution → Type 0
SurvivalSays ctx (failure e) r = r ≡ unresolvable (survival_thrown e) none
SurvivalSays ctx (value logs) r =
    (c : Coverage) × (r ≡ (
      if ltb 0 (trades_of ctx logs)
      then resolved true (some c)
      else if ltb (length logs) 40_000
      then resolved false (some c)
      else unresolvable (survival_gaps (log_cap_hit (length logs) ∷ [])) (some c)))

alive_from_lem : (h : ℕ) → alive_from h ≡ h - 216_000
unfolding alive_from
alive_from_lem h = ground arith

verdict-counts :
    (points : List PricePoint) (c : Coverage)
    → survival_verdict points c ≡ (
        if ltb 0 (length points)
        then resolved true (some c)
        else if names_failure c.gaps
        then unresolvable (survival_gaps c.gaps) (some c)
        else resolved false (some c))
unfolding survival_verdict
verdict-counts [] c = refl
verdict-counts (p ∷ ps) c = ground arith

gap_text : (g : Gap) → (g ≡ no_pool_id) ⊎ (g ≡ no_pool_address) → names_failure (g ∷ []) ≡ false
unfolding names_failure
gap_text g (inl e) = rw e
gap_text g (inr e) = rw e

series_verdict :
    (ctx : ResolverContext) (logs : List Log) (c : Coverage)
    → c.gaps ≡ []
    → SurvivalSays ctx (value logs) (
        survival_verdict
          (sort_on PricePoint.block
            (filter_map (price_point ctx.pool.pool_kind ctx.pool.token_is_currency0) logs))
          (if leb max_series_logs (length logs) then add_gap (log_cap_hit (length logs)) c else c))
unfolding names_failure add_gap
series_verdict ctx logs c h =
    let points =
      sort_on PricePoint.block
        (filter_map (price_point ctx.pool.pool_kind ctx.pool.token_is_currency0) logs) in
    let n : length points ≡ trades_of ctx logs =
      length-sort_on PricePoint.block _
      ∙ length-filter_map ctx.pool.pool_kind ctx.pool.token_is_currency0 logs in
    let d =
      if leb max_series_logs (length logs) then add_gap (log_cap_hit (length logs)) c else c in
    (d, ground (arith, verdict-counts points d, n))

abbrev series_of : ResolverContext → Settled (Series PricePoint)
series_of ctx =
    build_price_series ctx.client.request ctx.pool (alive_from ctx.horizon_block) ctx.horizon_block
      ctx.max_range

abbrev asked_series : ResolverContext → Query → Settled (Series PricePoint)
asked_series ctx q =
    price_series ctx.client.request ctx.pool
      (new_coverage (ctx.horizon_block - 216_000) ctx.horizon_block ctx.max_range) q
      (ctx.horizon_block - 216_000) ctx.horizon_block ctx.max_range

asked : (ctx : ResolverContext) (q : Query) → Named ctx.pool q → series_of ctx ≡ asked_series ctx q
asked ctx q h = rw (alive_from_lem ctx.horizon_block) (
    series-Named ctx.client.request ctx.pool q (ctx.horizon_block - 216_000) ctx.horizon_block
      ctx.max_range h (omega arith))

survived-Says :
    (ctx : ResolverContext) (q : Query)
    → SurvivalSays ctx (window_logs ctx q) (survived (asked_series ctx q))
unfolding survived new_coverage
survived-Says ctx q =
    let from = ctx.horizon_block - 216_000 in
    let c = new_coverage from ctx.horizon_block ctx.max_range in
    elim (Settled-cases (window_logs ctx q)) [
      | inl (logs, e) ↦
          subst (λ w. SurvivalSays ctx w (survived (asked_series ctx q))) (sym e)
            (subst (λ s. SurvivalSays ctx (value logs) (survived s))
              (sym (
                series-logs ctx.client.request ctx.pool q from ctx.horizon_block ctx.max_range logs
                  c e))
              (series_verdict ctx logs c refl))
      | inr (f, e) ↦
          subst (λ w. SurvivalSays ctx w (survived (asked_series ctx q))) (sym e)
            (ap survived (
              series-failure ctx.client.request ctx.pool q from ctx.horizon_block ctx.max_range f c
                e))
    ]

-- For a pool that has the id or the address to ask by: an RPC failure of the scan leaves the outcome
-- unresolvable; else the launch counts as alive exactly where some log of the window gives a price,
-- as dead exactly where none does and the logs number less than 40,000, and it is unresolvable
-- otherwise.
pub resolve_survival-Says :
    (ctx : ResolverContext) (q : Query)
    → Named ctx.pool q
    → (r : Resolution) × (resolve_survival ctx ≡ value r) × SurvivalSays ctx (window_logs ctx q) r
unfolding resolve_survival
resolve_survival-Says ctx q h = (
  survived (series_of ctx),
  refl,
  subst (λ s. SurvivalSays ctx (window_logs ctx q) (survived s)) (sym (asked ctx q h))
      (survived-Says ctx q),
)

-- A pool that has no id or address to ask by, whose trades are therefore never read, counts as dead,
-- whatever the chain holds.
pub resolve_survival-unscanned :
    (ctx : ResolverContext) (g : Gap)
    → Unnamed ctx.pool g
    → (c : Coverage) × (resolve_survival ctx ≡ value (resolved false (some c)))
unfolding resolve_survival survived survival_verdict add_gap new_coverage
resolve_survival-unscanned ctx g h =
    let from = alive_from ctx.horizon_block in
    let c = add_gap g (new_coverage from ctx.horizon_block ctx.max_range) in
    let e =
      series-Unnamed ctx.client.request ctx.pool g from ctx.horizon_block ctx.max_range h
        (omega (arith, alive_from_lem ctx.horizon_block)) in
    (c, ground (arith, e, gap_text g (Unnamed-gap ctx.pool g h)))
