-- ===== src/Outcomes/Resolvers/Liq.antt =====
-- apps/worker/src/outcomes/resolve-liq.ts: whether the liquidity was taken away.
use tripwire_launch_auditor.Prelude.{
  ℕ, ◌+◌, ◌-◌, ◌*◌, Bool, true, false, ◌&&◌, ◌||◌, some, List, [], ◌∷◌, ltb, leb, ◌==◌,
  if◌then◌else◌,
}
use tripwire_launch_auditor.Watcher.Retry.{Settled, value}
use tripwire_launch_auditor.Outcomes.Series.{PoolKind, v2}
use tripwire_launch_auditor.Outcomes.Series.Coverage.{Coverage}
use tripwire_launch_auditor.Outcomes.Series.Liquidity.{LiquidityPoint}
use tripwire_launch_auditor.Outcomes.Series.Build.{Series, build_liquidity_series}
use tripwire_launch_auditor.Outcomes.Resolvers.{
  Resolution, not_applicable, unresolvable, resolved, ResolverContext, and_then, last_of,
  no_liquidity_events, no_events_before_horizon, no_positive_liquidity,
}

unfoldable pub up_to : ℕ → List LiquidityPoint → List LiquidityPoint
up_to horizon [] = []
up_to horizon (p ∷ ps) = if leb p.block horizon then p ∷ up_to horizon ps else up_to horizon ps

-- The largest liquidity, or 0.
unfoldable pub peak_from : ℕ → List LiquidityPoint → ℕ
peak_from m [] = m
peak_from m (p ∷ ps) = peak_from (if ltb (p.removed + m) p.added then p.added - p.removed else m) ps

unfoldable pub has_removal : List LiquidityPoint → Bool
has_removal [] = false
has_removal (p ∷ ps) = ltb p.gain p.loss || has_removal ps

unfoldable pub is_v2 : PoolKind → Bool
is_v2 v2 = true
is_v2 _ = false

-- `ratio <= 0.2` of the last point against the peak, and a removal.
unfoldable pub impaired : PoolKind → LiquidityPoint → ℕ → List LiquidityPoint → Bool
unfolding is_v2 has_removal
impaired kind current peak points =
    leb (5 * current.added) (peak + 5 * current.removed) && (is_v2 kind || has_removal points)

unfoldable pub liq_verdict :
    PoolKind → List LiquidityPoint → List LiquidityPoint → Coverage → Resolution
unfolding peak_from impaired last_of
liq_verdict kind [] before coverage = unresolvable no_liquidity_events (some coverage)
liq_verdict kind (p ∷ points) [] coverage = unresolvable no_events_before_horizon (some coverage)
liq_verdict kind (p ∷ points) (q ∷ before) coverage =
    if peak_from 0 (p ∷ points) == 0
    then unresolvable no_positive_liquidity (some coverage)
    else resolved (impaired kind (last_of q before) (peak_from 0 (p ∷ points)) (p ∷ points))
        (some coverage)

unfoldable pub with_depth : ResolverContext → Series LiquidityPoint → Settled Resolution
unfolding liq_verdict up_to
with_depth ctx s =
    value (liq_verdict ctx.pool.pool_kind s.points (up_to ctx.horizon_block s.points) s.coverage)

unfoldable pub resolve_liq_impaired : ResolverContext → Settled Resolution
unfolding with_depth and_then
resolve_liq_impaired ctx =
    if ctx.lp_locked_by_construction
    then value not_applicable
    else and_then
        (build_liquidity_series ctx.client.request ctx.pool ctx.launch_block ctx.horizon_block
          ctx.max_range)
        (with_depth ctx)
