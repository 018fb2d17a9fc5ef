-- ===== src/Outcomes/Resolvers/TradingAlive.antt =====
-- apps/worker/src/outcomes/resolve-survival.ts: whether the pool still trades.
use tripwire_launch_auditor.Prelude.{
  ℕ, ◌-◌, Bool, true, false, none, some, List, [], ◌∷◌, ltb, if◌then◌else◌,
}
use tripwire_launch_auditor.Watcher.Retry.{Settled, value, failure}
use tripwire_launch_auditor.Outcomes.Series.Coverage.{Gap, log_cap_hit, Coverage}
use tripwire_launch_auditor.Outcomes.Series.Price.{PricePoint}
use tripwire_launch_auditor.Outcomes.Series.Build.{Series, build_price_series}
use tripwire_launch_auditor.Outcomes.Resolvers.{
  survival_thrown, survival_gaps, Resolution, unresolvable, resolved, ResolverContext,
}

abbrev pub alive_window_blocks : ℕ
alive_window_blocks = 216_000

-- Which of the gaps' texts `/network|busy|timeout|log cap/i` finds.
unfoldable pub names_failure : List Gap → Bool
names_failure [] = false
names_failure (log_cap_hit n ∷ gaps) = true
names_failure (_ ∷ gaps) = names_failure gaps

unfoldable pub survival_verdict : List PricePoint → Coverage → Resolution
unfolding names_failure
survival_verdict [] coverage =
    if names_failure coverage.gaps
    then unresolvable (survival_gaps coverage.gaps) (some coverage)
    else resolved false (some coverage)
survival_verdict (p ∷ points) coverage = resolved true (some coverage)

-- The first block of the window.
unfoldable pub alive_from : ℕ → ℕ
alive_from horizon = if ltb alive_window_blocks horizon then horizon - alive_window_blocks else 0

-- An exception of the scan is caught.
unfoldable pub survived : Settled (Series PricePoint) → Resolution
unfolding survival_verdict
survived (failure e) = unresolvable (survival_thrown e) none
survived (value s) = survival_verdict s.points s.coverage

unfoldable pub resolve_survival : ResolverContext → Settled Resolution
unfolding survived alive_from
resolve_survival ctx = value (
    survived (
      build_price_series ctx.client.request ctx.pool (alive_from ctx.horizon_block)
        ctx.horizon_block ctx.max_range))
