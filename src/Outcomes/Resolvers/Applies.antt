-- ===== src/Outcomes/Resolvers/Applies.antt =====
-- A resolver says that an outcome does not apply only where the liquidity is locked.
use tripwire_launch_auditor.Prelude.{
  ℕ, zero, suc, ◌≡◌, ◌≢◌, Bool, true, false, Option, none, some, List, [], ◌∷◌, ◌==◌, leb,
  if◌then◌else◌, arith, sym, subst,
}
use tripwire_launch_auditor.Watcher.Retry.{Failure, Settled, value, failure}
use tripwire_launch_auditor.Outcomes.Series.Price.{PricePoint, Price, price_zero}
use tripwire_launch_auditor.Outcomes.Series.Liquidity.{LiquidityPoint}
use tripwire_launch_auditor.Outcomes.Series.Coverage.{Coverage, new_coverage}
use tripwire_launch_auditor.Outcomes.Series.Build.{
  Series, build_price_series, build_liquidity_series,
}
use tripwire_launch_auditor.Outcomes.Series.{PoolKind}
use tripwire_launch_auditor.Outcomes.Quote.{
  PoolKey, QuoteOutcome, quoted, failed, quote_exact_in_single, sell_direction,
}
use tripwire_launch_auditor.Outcomes.Quote
use tripwire_launch_auditor.Outcomes.Resolvers.{
  no_positive_price, one_more_call, and_then, Reason, Resolution, not_applicable, unresolvable,
  resolved, ResolverContext,
}
use tripwire_launch_auditor.Outcomes.Resolvers.TradingAlive.{
  alive_from, survival_verdict, survived, resolve_survival,
}
use tripwire_launch_auditor.Outcomes.Resolvers.SellImpaired.{
  sell_size, bulk_verdict, sell_verdict, sell_keyed, resolve_sell_impaired,
}
use tripwire_launch_auditor.Outcomes.Resolvers.Drawdown.{
  post_start, max_price, with_post, without_post, with_reference, spot_verdict, quote_horizon,
  from_horizon_price, after_reference, resolve_drawdown,
}
use tripwire_launch_auditor.Outcomes.Resolvers.Liq.{with_depth, liq_verdict, resolve_liq_impaired}

-- The resolver says something else, or fails.
pub record Measures (s : Settled Resolution) : Type 0 where
  pub measured : s ≢ value not_applicable

pub failure-Measures : (e : Failure) → Measures (failure e)
failure-Measures e = record { measured = λ h. cc }

pub unresolvable-Measures : (r : Reason) (c : Option Coverage) → Measures (value (unresolvable r c))
unresolvable-Measures r c = record { measured = λ h. cc }

pub resolved-Measures : (b : Bool) (c : Option Coverage) → Measures (value (resolved b c))
resolved-Measures b c = record { measured = λ h. cc }

if-Measures :
    (b : Bool) (x y : Settled Resolution) → Measures x → Measures y → Measures (if b then x else y)
if-Measures true x y h k = h
if-Measures false x y h k = k

and_then-Measures :
    {P : Type 0} (s : Settled P) (f : P → Settled Resolution)
    → ((p : P) → Measures (f p))
    → Measures (and_then s f)
unfolding and_then
and_then-Measures (value p) f h = h p
and_then-Measures (failure e) f h = failure-Measures e

liq_verdict-Measures :
    (kind : PoolKind) (ps qs : List LiquidityPoint) (c : Coverage)
    → Measures (value (liq_verdict kind ps qs c))
unfolding liq_verdict
liq_verdict-Measures kind [] qs c = unresolvable-Measures _ _
liq_verdict-Measures kind (p ∷ ps) [] c = unresolvable-Measures _ _
liq_verdict-Measures kind (p ∷ ps) (q ∷ qs) c = record { measured = λ h. ground arith }

pub resolve_liq_impaired-Measures :
    (ctx : ResolverContext)
    → ctx.lp_locked_by_construction ≡ false
    → Measures (resolve_liq_impaired ctx)
unfolding resolve_liq_impaired with_depth
resolve_liq_impaired-Measures ctx h =
    let e : resolve_liq_impaired ctx
        ≡ and_then
            (build_liquidity_series ctx.client.request ctx.pool ctx.launch_block ctx.horizon_block
              ctx.max_range)
            (with_depth ctx) =
      ground arith in
    subst Measures (sym e) (
      and_then-Measures _ (with_depth ctx)
        (λ s. liq_verdict-Measures ctx.pool.pool_kind s.points _ s.coverage))

spot_verdict-Measures :
    (p : Price) (c : Coverage) (o : QuoteOutcome) → Measures (value (spot_verdict p c o))
unfolding spot_verdict
spot_verdict-Measures p c (quoted n) = resolved-Measures _ _
spot_verdict-Measures p c (failed Quote.revert) = resolved-Measures _ _
spot_verdict-Measures p c (failed Quote.archive) = unresolvable-Measures _ _
spot_verdict-Measures p c (failed Quote.network) = unresolvable-Measures _ _

quote-Measures :
    (ctx : ResolverContext) (m : Price) (c : Coverage) (k : Option PoolKey)
    → Measures (quote_horizon ctx m c k)
unfolding quote_horizon
quote-Measures ctx m c none = unresolvable-Measures _ _
quote-Measures ctx m c (some key) = and_then-Measures _ _ (λ o. spot_verdict-Measures m _ o)

horizon-Measures :
    (ctx : ResolverContext) (m : Price) (c : Coverage) (p : Option Price)
    → Measures (from_horizon_price ctx m c p)
unfolding from_horizon_price
horizon-Measures ctx m c (some p) = resolved-Measures _ _
horizon-Measures ctx m c none = quote-Measures ctx m c ctx.pool_key

after-Measures :
    (ctx : ResolverContext) (m : Price) (s : Series PricePoint) → Measures (after_reference ctx m s)
unfolding after_reference with_post without_post
after-Measures ctx m s =
    if-Measures (leb (post_start ctx) ctx.horizon_block)
      (and_then
        (build_price_series ctx.client.request ctx.pool (post_start ctx) ctx.horizon_block
          ctx.max_range)
        (with_post ctx m s))
      (without_post ctx m s)
      (and_then-Measures _ (with_post ctx m s) (λ post. horizon-Measures ctx m _ _))
      (horizon-Measures ctx m _ _)

with_reference-Measures :
    (ctx : ResolverContext) (s : Series PricePoint) → Measures (with_reference ctx s)
unfolding with_reference
with_reference-Measures ctx s =
    let m = max_price price_zero s.points in
    if-Measures (m.num == 0) (value (unresolvable no_positive_price (some s.coverage)))
      (after_reference ctx m s) (unresolvable-Measures _ _) (after-Measures ctx m s)

pub resolve_drawdown-Measures : (ctx : ResolverContext) → Measures (resolve_drawdown ctx)
unfolding resolve_drawdown
resolve_drawdown-Measures ctx =
    and_then-Measures
      (build_price_series ctx.client.request ctx.pool ctx.drawdown_ref_start ctx.drawdown_ref_end
        ctx.max_range)
      (with_reference ctx) (with_reference-Measures ctx)

bulk-Measures :
    (n m : ℕ) (c : Coverage) (o : QuoteOutcome) → Measures (value (bulk_verdict n m c o))
unfolding bulk_verdict
bulk-Measures n m c (failed e) = unresolvable-Measures _ _
bulk-Measures n m c (quoted zero) = resolved-Measures _ _
bulk-Measures n m c (quoted (suc k)) = resolved-Measures _ _

sell-Measures :
    (ctx : ResolverContext) (key : PoolKey) (c : Coverage) (o : QuoteOutcome)
    → Measures (sell_verdict ctx key c o)
unfolding sell_verdict
sell-Measures ctx key c (failed e) = unresolvable-Measures _ _
sell-Measures ctx key c (quoted zero) = unresolvable-Measures _ _
sell-Measures ctx key c (quoted (suc n)) =
    if-Measures (sell_size ctx.quote_decimals (suc n) == 0) _ _ (unresolvable-Measures _ _) (
      and_then-Measures _ _
        (λ o. bulk-Measures (suc n) (sell_size ctx.quote_decimals (suc n)) (one_more_call c) o))

keyed-Measures :
    (ctx : ResolverContext) (c : Coverage) (k : Option PoolKey) → Measures (sell_keyed ctx c k)
unfolding sell_keyed
keyed-Measures ctx c none = unresolvable-Measures _ _
keyed-Measures ctx c (some key) = and_then-Measures _ _ (sell-Measures ctx key (one_more_call c))

pub resolve_sell_impaired-Measures :
    (ctx : ResolverContext)
    → ctx.lp_locked_by_construction ≡ false
    → Measures (resolve_sell_impaired ctx)
unfolding resolve_sell_impaired
resolve_sell_impaired-Measures ctx h =
    let c = new_coverage ctx.horizon_block ctx.horizon_block 0 in
    let e : resolve_sell_impaired ctx ≡ sell_keyed ctx c ctx.pool_key = ground arith in
    subst Measures (sym e) (keyed-Measures ctx c ctx.pool_key)

survival-Measures : (ps : List PricePoint) (c : Coverage) → Measures (value (survival_verdict ps c))
unfolding survival_verdict
survival-Measures [] c = record { measured = λ h. ground arith }
survival-Measures (p ∷ ps) c = resolved-Measures _ _

survived-Measures : (s : Settled (Series PricePoint)) → Measures (value (survived s))
unfolding survived
survived-Measures (failure e) = unresolvable-Measures _ _
survived-Measures (value s) = survival-Measures s.points s.coverage

pub resolve_survival-Measures : (ctx : ResolverContext) → Measures (resolve_survival ctx)
unfolding resolve_survival
resolve_survival-Measures ctx = survived-Measures (
    build_price_series ctx.client.request ctx.pool (alive_from ctx.horizon_block) ctx.horizon_block
      ctx.max_range)
