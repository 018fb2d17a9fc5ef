-- ===== src/Outcomes/Resolvers/Sell.antt =====
-- When a sell counts as impaired: only by two quotes that the pool gave.
use tripwire_launch_auditor.Prelude.{
  ◌≡◌, ◌↔◌, inl, inr, refl, Bool, true, false, Option, none, some, arith, Bool-cases, ap, sym,
  subst, ◌∙◌,
}
use tripwire_launch_auditor.Watcher.Retry.{Failure, value, failure}
use tripwire_launch_auditor.Outcomes.Series.Coverage.{Coverage, new_coverage}
use tripwire_launch_auditor.Outcomes.Quote.{PoolKey, outcome_of}
use tripwire_launch_auditor.Outcomes.Resolvers.{
  ResolverContext, not_applicable, resolved, one_more_call, and_then,
}
use tripwire_launch_auditor.Outcomes.Resolvers.SellImpaired.{
  spot_in, sell_verdict, sell_keyed, resolve_sell_impaired,
}
use tripwire_launch_auditor.Outcomes.Resolvers.SellQuotes.{
  answers, Measured, Unencodable, IsThrown, IsValue, outcome_of-quoted, amount-quoted, ask,
  ask-cases, first-resolved, first-IsThrown,
}

keyed-resolved :
    (ctx : ResolverContext) (key : PoolKey) (c : Coverage) (v : Bool)
    → IsValue v (sell_keyed ctx c (some key)) ↔ Measured ctx key v
unfolding sell_keyed ask and_then
keyed-resolved ctx key c v = elim (ask-cases ctx key spot_in) [
  | inl (r, q) ↦
      let same : sell_keyed ctx c (some key)
          ≡ sell_verdict ctx key (one_more_call c) (outcome_of (answers ctx key spot_in)) =
        ap (λ x. and_then x (sell_verdict ctx key (one_more_call c))) q in
      let (f, g) =
        first-resolved ctx key (one_more_call c) (outcome_of (answers ctx key spot_in)) v in
      (
        λ (d, h).
            let (spot, a, z, (bulk, y, k, b, m)) = f (d, sym same ∙ h) in
            (spot, bulk, r, outcome_of-quoted _ spot a, z, y, k, b, m),
        λ (spot, bulk, i, a, z, y, k, b, m).
            let (d, h) = g (spot, amount-quoted _ spot a, z, (bulk, y, k, b, m)) in (d, same ∙ h),
      )
  | inr (n, (e, q)) ↦
      let same : sell_keyed ctx c (some key) ≡ failure e =
        ap (λ x. and_then x (sell_verdict ctx key (one_more_call c))) q in
      (λ (d, h). cc, λ (spot, bulk, i, a, z, y, k, b, m). absurd (n i))
]

keyed-IsThrown :
    (ctx : ResolverContext) (key : PoolKey) (c : Coverage)
    → IsThrown (sell_keyed ctx c (some key)) ↔ Unencodable ctx key
unfolding sell_keyed ask and_then
keyed-IsThrown ctx key c = elim (ask-cases ctx key spot_in) [
  | inl (r, q) ↦
      let same : sell_keyed ctx c (some key)
          ≡ sell_verdict ctx key (one_more_call c) (outcome_of (answers ctx key spot_in)) =
        ap (λ x. and_then x (sell_verdict ctx key (one_more_call c))) q in
      let (f, g) =
        first-IsThrown ctx key (one_more_call c) (outcome_of (answers ctx key spot_in)) in
      (
        λ (e, h).
            let (spot, a, z, y, n) = f (e, sym same ∙ h) in
            inr (spot, r, outcome_of-quoted _ spot a, z, y, n),
        λ m. elim m [
          | inl n ↦ absurd (n r)
          | inr (spot, i, a, z, y, n) ↦
              let (e, h) = g (spot, amount-quoted _ spot a, z, y, n) in (e, same ∙ h)
        ],
      )
  | inr (n, (e, q)) ↦
      let same : sell_keyed ctx c (some key) ≡ failure e =
        ap (λ x. and_then x (sell_verdict ctx key (one_more_call c))) q in
      (λ h. inl n, λ m. (e, same))
]

-- The key is there, and has the property.
abbrev pub WithKey : ResolverContext → (PoolKey → Type 0) → Type 0
WithKey ctx P = (key : PoolKey) × (ctx.pool_key ≡ some key) × P key

sell_locked :
    (ctx : ResolverContext)
    → ctx.lp_locked_by_construction ≡ true
    → resolve_sell_impaired ctx ≡ value not_applicable
unfolding resolve_sell_impaired
sell_locked ctx h = ground arith

sell_open :
    (ctx : ResolverContext)
    → ctx.lp_locked_by_construction ≡ false
    → resolve_sell_impaired ctx
      ≡ sell_keyed ctx (new_coverage ctx.horizon_block ctx.horizon_block 0) ctx.pool_key
unfolding resolve_sell_impaired
sell_open ctx h = ground arith

any-resolved :
    (ctx : ResolverContext) (c : Coverage) (k : Option PoolKey) (v : Bool)
    → IsValue v (sell_keyed ctx c k) ↔ ((key : PoolKey) × (k ≡ some key) × Measured ctx key v)
unfolding sell_keyed
any-resolved ctx c none v = (λ (d, h). cc, λ (key, e, m). cc)
any-resolved ctx c (some key) v =
    let (f, g) = keyed-resolved ctx key c v in
    (
      λ h. (key, refl, f h),
      λ (k, e, m). let same : k ≡ key = cc in g (subst (λ x. Measured ctx x v) same m),
    )

any-IsThrown :
    (ctx : ResolverContext) (c : Coverage) (k : Option PoolKey)
    → IsThrown (sell_keyed ctx c k) ↔ ((key : PoolKey) × (k ≡ some key) × Unencodable ctx key)
unfolding sell_keyed
any-IsThrown ctx c none = (λ (d, h). cc, λ (key, e, m). cc)
any-IsThrown ctx c (some key) =
    let (f, g) = keyed-IsThrown ctx key c in
    (
      λ h. (key, refl, f h),
      λ (k, e, m). let same : k ≡ key = cc in g (subst (Unencodable ctx) same m),
    )

-- Where the liquidity is not locked and the pool has a key, the resolver gives an outcome exactly
-- where two calls were encoded and two quotes given: for 10^12 units of the token, with a quote that is
-- not 0, and for the amount that is worth 100 units of the quote asset by it, which is not 0 either;
-- the outcome is impaired exactly where the second quote, which may be 0, is 70 percent at most of the
-- first one's rate. It throws exactly where a call cannot be encoded, the first one, or the second
-- one after such a first quote. Elsewhere it gives no outcome and throws nothing.
pub resolve_sell_impaired-IsMeasured :
    (ctx : ResolverContext) (v : Bool)
    → (((c : Option Coverage) × (resolve_sell_impaired ctx ≡ value (resolved v c)))
        ↔ ((ctx.lp_locked_by_construction ≡ false) × WithKey ctx (λ key. Measured ctx key v)))
      × (((e : Failure) × (resolve_sell_impaired ctx ≡ failure e))
          ↔ ((ctx.lp_locked_by_construction ≡ false) × WithKey ctx (Unencodable ctx)))
resolve_sell_impaired-IsMeasured ctx v =
    let c = new_coverage ctx.horizon_block ctx.horizon_block 0 in
    let (f, g) = any-resolved ctx c ctx.pool_key v in
    let (h, k) = any-IsThrown ctx c ctx.pool_key in
    elim (Bool-cases ctx.lp_locked_by_construction) [
      | inl l ↦
          let e = sell_locked ctx l in ((λ (d, q). cc, λ (q, m). cc), (λ (d, q). cc, λ (q, m). cc))
      | inr l ↦
          let e = sell_open ctx l in
          (
            (λ (d, q). (l, f (d, sym e ∙ q)), λ (q, m). let (d, p) = g m in (d, e ∙ p)),
            (λ (d, q). (l, h (d, sym e ∙ q)), λ (q, m). let (d, p) = k m in (d, e ∙ p)),
          )
    ]
