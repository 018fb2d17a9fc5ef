-- ===== src/Outcomes/Resolvers/Drawdown.antt =====
-- apps/worker/src/outcomes/resolve-drawdown.ts: whether the price fell to a fifth.
use tripwire_launch_auditor.Prelude.{
  ℕ, ◌+◌, ◌-◌, ◌*◌, ◌^◌, Bool, Option, none, some, List, [], ◌∷◌, ◌++◌, ltb, leb, ◌==◌,
  if◌then◌else◌,
}
use tripwire_launch_auditor.Watcher.Retry.{Settled, value}
use tripwire_launch_auditor.Outcomes.Series.Coverage.{tail_capped, Coverage, merge_coverage}
use tripwire_launch_auditor.Outcomes.Series.Price.{Price, price_zero, price_lt, PricePoint}
use tripwire_launch_auditor.Outcomes.Series.Build.{Series, build_price_series}
use tripwire_launch_auditor.Outcomes.Quote.{
  PoolKey, QuoteError, Reply, QuoteOutcome, quoted, failed, quote_exact_in_single, sell_direction,
}
use tripwire_launch_auditor.Outcomes.Quote
use tripwire_launch_auditor.Outcomes.Resolvers.{
  Resolution, unresolvable, resolved, ResolverContext, and_then, last_of, one_more_call,
  no_positive_price, no_quoter, quoter_failed,
}

-- The largest price, or 0.
unfoldable pub max_price : Price → List PricePoint → Price
max_price m [] = m
max_price m (p ∷ ps) = max_price (if price_lt m p.price then p.price else m) ps

unfoldable pub last_price : List PricePoint → Option Price
last_price [] = none
last_price (p ∷ ps) = some (PricePoint.price (last_of p ps))

abbrev pub horizon_tail_blocks : ℕ
horizon_tail_blocks = 50_000

-- `ratio <= 0.2`
unfoldable pub drawn_down : Price → Price → Bool
drawn_down horizon_price ref_max =
    leb (5 * (horizon_price.num * ref_max.den)) (ref_max.num * horizon_price.den)

-- The spot quote at the horizon, where no trade gives the price.
unfoldable pub spot_verdict : Price → Coverage → QuoteOutcome → Resolution
unfolding drawn_down
spot_verdict ref_max coverage (quoted out) =
    resolved (drawn_down (record { num = out; den = 10 ^ 15 }) ref_max) (some coverage)
spot_verdict ref_max coverage (failed Quote.revert) =
    resolved (drawn_down price_zero ref_max) (some coverage)
spot_verdict ref_max coverage (failed Quote.archive) =
    unresolvable (quoter_failed Quote.archive) (some coverage)
spot_verdict ref_max coverage (failed Quote.network) =
    unresolvable (quoter_failed Quote.network) (some coverage)

unfoldable pub quote_horizon :
    ResolverContext → Price → Coverage → Option PoolKey → Settled Resolution
unfolding spot_verdict one_more_call and_then
quote_horizon ctx ref_max coverage none = value (unresolvable no_quoter (some coverage))
quote_horizon ctx ref_max coverage (some key) =
    and_then
      (quote_exact_in_single ctx.client.eth_call key (sell_direction ctx.token ctx.quote) (10 ^ 15)
        ctx.horizon_block)
      (λ o. value (spot_verdict ref_max (one_more_call coverage) o))

unfoldable pub from_horizon_price :
    ResolverContext → Price → Coverage → Option Price → Settled Resolution
unfolding quote_horizon drawn_down
from_horizon_price ctx ref_max coverage none = quote_horizon ctx ref_max coverage ctx.pool_key
from_horizon_price ctx ref_max coverage (some p) =
    value (resolved (drawn_down p ref_max) (some coverage))

-- `postStart`
unfoldable pub post_start : ResolverContext → ℕ
post_start ctx =
    let tail_start =
      if ltb horizon_tail_blocks ctx.horizon_block
      then ctx.horizon_block - horizon_tail_blocks
      else 0 in
    if ltb tail_start (ctx.drawdown_ref_end + 1) then ctx.drawdown_ref_end + 1 else tail_start

-- The note that the scan starts later than the window's end.
unfoldable pub tail_note : ResolverContext → Coverage → Coverage
unfolding post_start
tail_note ctx c =
    if ltb (ctx.drawdown_ref_end + 1) (post_start ctx)
    then record c { notes = c.notes ++ tail_capped ∷ [] }
    else c

-- The verdict, by the trades after the window.
unfoldable pub with_post :
    ResolverContext → Price → Series PricePoint → Series PricePoint → Settled Resolution
unfolding tail_note from_horizon_price last_price
with_post ctx ref_max ref post =
    from_horizon_price ctx ref_max (merge_coverage (tail_note ctx ref.coverage) post.coverage)
      (last_price post.points)

-- By the trades of the window itself, where the horizon is its end.
unfoldable pub without_post : ResolverContext → Price → Series PricePoint → Settled Resolution
unfolding from_horizon_price last_price
without_post ctx ref_max ref = from_horizon_price ctx ref_max ref.coverage (last_price ref.points)

unfoldable pub after_reference : ResolverContext → Price → Series PricePoint → Settled Resolution
unfolding with_post without_post and_then
after_reference ctx ref_max ref =
    if leb (post_start ctx) ctx.horizon_block
    then and_then
        (build_price_series ctx.client.request ctx.pool (post_start ctx) ctx.horizon_block
          ctx.max_range)
        (with_post ctx ref_max ref)
    else without_post ctx ref_max ref

unfoldable pub with_reference : ResolverContext → Series PricePoint → Settled Resolution
unfolding after_reference max_price
with_reference ctx ref =
    let ref_max = max_price price_zero ref.points in
    if ref_max.num == 0
    then value (unresolvable no_positive_price (some ref.coverage))
    else after_reference ctx ref_max ref

unfoldable pub resolve_drawdown : ResolverContext → Settled Resolution
unfolding with_reference and_then
resolve_drawdown ctx =
    and_then
      (build_price_series ctx.client.request ctx.pool ctx.drawdown_ref_start ctx.drawdown_ref_end
        ctx.max_range)
      (with_reference ctx)
