-- ===== src/Outcomes/Resolvers/SellImpaired.antt =====
-- apps/worker/src/outcomes/resolve-sell-impaired.ts: whether a sell loses 30 percent.
use tripwire_launch_auditor.Prelude.{
  ℕ, zero, suc, ◌*◌, ◌/◌, ◌^◌, Bool, true, Option, none, some, [], ◌∷◌, ◌++◌, leb, ◌==◌,
  if◌then◌else◌,
}
use tripwire_launch_auditor.Watcher.Retry.{Settled, value}
use tripwire_launch_auditor.Outcomes.Series.Coverage.{
  sell_not_wired, Note, sell_size_zero, Coverage, new_coverage, add_gap,
}
use tripwire_launch_auditor.Outcomes.Quote.{
  PoolKey, QuoteOutcome, quoted, failed, quote_exact_in_single, sell_direction,
}
use tripwire_launch_auditor.Outcomes.Resolvers.{
  Resolution, not_applicable, unresolvable, resolved, ResolverContext, one_more_call, and_then,
  sell_not_implemented, spot_zero, size_underflow, spot_failed, bulk_failed,
}

abbrev pub spot_in : ℕ
spot_in = 10 ^ 12

-- `tax >= 0.3`
unfoldable pub is_taxed : ℕ → ℕ → ℕ → Bool
is_taxed spot_out bulk_out size = leb (10 * (bulk_out * spot_in)) (7 * (spot_out * size))

unfoldable pub bulk_verdict : ℕ → ℕ → Coverage → QuoteOutcome → Resolution
unfolding is_taxed
bulk_verdict spot_out size coverage (failed e) = unresolvable (bulk_failed e) (some coverage)
bulk_verdict spot_out size coverage (quoted zero) = resolved true (some coverage)
bulk_verdict spot_out size coverage (quoted (suc n)) =
    resolved (is_taxed spot_out (suc n) size) (some coverage)

-- `sellSize`
unfoldable pub sell_size : ℕ → ℕ → ℕ
sell_size decimals spot_out = 100 * 10 ^ decimals * spot_in / spot_out

unfoldable pub add_note : Note → Coverage → Coverage
add_note n c = record c { notes = c.notes ++ n ∷ [] }

unfoldable pub sell_verdict :
    ResolverContext → PoolKey → Coverage → QuoteOutcome → Settled Resolution
unfolding bulk_verdict sell_size add_note one_more_call and_then
sell_verdict ctx key coverage (failed e) = value (unresolvable (spot_failed e) (some coverage))
sell_verdict ctx key coverage (quoted zero) = value (unresolvable spot_zero (some coverage))
sell_verdict ctx key coverage (quoted (suc n)) =
    let size = sell_size ctx.quote_decimals (suc n) in
    if size == 0
    then value (unresolvable size_underflow (some (add_note sell_size_zero coverage)))
    else and_then
        (quote_exact_in_single ctx.client.eth_call key (sell_direction ctx.token ctx.quote) size
          ctx.horizon_block)
        (λ o. value (bulk_verdict (suc n) size (one_more_call coverage) o))

unfoldable pub sell_keyed : ResolverContext → Coverage → Option PoolKey → Settled Resolution
unfolding sell_verdict and_then
sell_keyed ctx coverage none =
    value (unresolvable sell_not_implemented (some (add_gap sell_not_wired coverage)))
sell_keyed ctx coverage (some key) =
    and_then
      (quote_exact_in_single ctx.client.eth_call key (sell_direction ctx.token ctx.quote) spot_in
        ctx.horizon_block)
      (sell_verdict ctx key (one_more_call coverage))

unfoldable pub resolve_sell_impaired : ResolverContext → Settled Resolution
unfolding sell_keyed
resolve_sell_impaired ctx =
    if ctx.lp_locked_by_construction
    then value not_applicable
    else sell_keyed ctx (new_coverage ctx.horizon_block ctx.horizon_block 0) ctx.pool_key
