-- ===== src/Outcomes/Resolvers/SellQuotes.antt =====
-- The two quotes of the resolver of sells: what the encoder takes, and what the verdicts on them are.
use tripwire_launch_auditor.Prelude.{
  ℕ, zero, suc, ◌*◌, ◌/◌, ◌^◌, ◌≤◌, ◌<◌, ◌≡◌, ◌↔◌, inl, inr, refl, Bool, true, false, Option, some,
  leb, ◌==◌, arith, Bool-cases, ap, sym, subst, ◌∙◌, ◌⊎◌,
}
use tripwire_launch_auditor.Watcher.Retry.{Failure, Settled, value, failure}
use tripwire_launch_auditor.Outcomes.Series.Coverage.{sell_size_zero, Coverage}
use tripwire_launch_auditor.Outcomes.Quote.{
  PoolKey, Reply, amount, thrown, QuoteOutcome, quoted, failed, outcome_of, quote_exact_in_single,
  encodes, out_of_range, sell_direction,
}
use tripwire_launch_auditor.Outcomes.Resolvers.{
  ResolverContext, Reason, Resolution, unresolvable, resolved, size_underflow, one_more_call,
  and_then,
}
use tripwire_launch_auditor.Outcomes.Resolvers.SellImpaired.{
  spot_in, is_taxed, add_note, bulk_verdict, sell_size, sell_verdict,
}

-- The quoter's answer for selling so much at the horizon.
abbrev pub answers : ResolverContext → PoolKey → ℕ → Reply
answers ctx key n = ctx.client.eth_call key (sell_direction ctx.token ctx.quote) n ctx.horizon_block

-- The encoder takes the call: a fee of 24 bits, a signed tick spacing of 24, an amount of 128.
abbrev pub InRange : PoolKey → ℕ → Type 0
InRange key n = (key.fee < 2 ^ 24) × (key.tick_spacing < 2 ^ 23) × (n < 2 ^ 128)

-- Both calls are encoded and both quotes were given, the first one for a small amount and the second
-- one for the amount that is worth 100 units of the quote asset by it, and the verdict compares them:
-- 30 percent at least are lost.
abbrev pub Measured : ResolverContext → PoolKey → Bool → Type 0
Measured ctx key v =
    (spot : ℕ) × (bulk : ℕ) × InRange key spot_in
    × (answers ctx key spot_in ≡ amount spot)
    × (0 < spot)
    × (0 < 100 * 10 ^ ctx.quote_decimals * spot_in / spot)
    × InRange key (100 * 10 ^ ctx.quote_decimals * spot_in / spot)
    × (answers ctx key (100 * 10 ^ ctx.quote_decimals * spot_in / spot) ≡ amount bulk)
    × ((v ≡ true)
        ↔ (10 * (bulk * spot_in) ≤ 7 * (spot * (100 * 10 ^ ctx.quote_decimals * spot_in / spot))))

-- One of the two calls cannot be encoded: the first one, or the second one after a first quote.
abbrev pub Unencodable : ResolverContext → PoolKey → Type 0
Unencodable ctx key =
    (InRange key spot_in → ⊥)
    ⊎ ((spot : ℕ) × InRange key spot_in
        × (answers ctx key spot_in ≡ amount spot)
        × (0 < spot)
        × (0 < 100 * 10 ^ ctx.quote_decimals * spot_in / spot)
        × (InRange key (100 * 10 ^ ctx.quote_decimals * spot_in / spot) → ⊥))

abbrev pub IsThrown : Settled Resolution → Type 0
IsThrown s = (e : Failure) × (s ≡ failure e)

abbrev pub IsValue : Bool → Settled Resolution → Type 0
IsValue v s = (c : Option Coverage) × (s ≡ value (resolved v c))

abbrev IsResolved : Bool → Resolution → Type 0
IsResolved v r = (c : Option Coverage) × (r ≡ resolved v c)

bulk_verdict-resolved :
    (spot size : ℕ) (c : Coverage) (o : QuoteOutcome) (v : Bool)
    → IsResolved v (bulk_verdict spot size c o)
    → (bulk : ℕ) × (o ≡ quoted bulk) × ((v ≡ true) ↔ (10 * (bulk * spot_in) ≤ 7 * (spot * size)))
unfolding bulk_verdict is_taxed
bulk_verdict-resolved spot size c (failed e) v (d, h) = cc
bulk_verdict-resolved spot size c (quoted zero) v (d, h) =
    let e : true ≡ v = cc in (0, refl, ground arith)
bulk_verdict-resolved spot size c (quoted (suc n)) v (d, h) =
    let e : leb (10 * (suc n * spot_in)) (7 * (spot * size)) ≡ v = cc in (suc n, refl, ground arith)

bulk_verdict-quoted :
    (spot size bulk : ℕ) (c : Coverage) (v : Bool)
    → ((v ≡ true) ↔ (10 * (bulk * spot_in) ≤ 7 * (spot * size)))
    → bulk_verdict spot size c (quoted bulk) ≡ resolved v (some c)
unfolding bulk_verdict is_taxed
bulk_verdict-quoted spot size zero c true h = refl
bulk_verdict-quoted spot size zero c false h = cc (h.1 (omega arith))
bulk_verdict-quoted spot size (suc n) c true h = ground (arith, h.0 refl)
bulk_verdict-quoted spot size (suc n) c false h =
    elim (Bool-cases (leb (10 * (suc n * spot_in)) (7 * (spot * size)))) [
      | inl e ↦ cc (h.1 (ground arith))
      | inr e ↦ ap (λ b. resolved b (some c)) e
    ]

pub outcome_of-quoted : (r : Reply) (n : ℕ) → outcome_of r ≡ quoted n → r ≡ amount n
unfolding outcome_of
outcome_of-quoted (amount m) n h = let e : m ≡ n = cc in ap amount e
outcome_of-quoted (thrown m) n h = cc

pub amount-quoted : (r : Reply) (n : ℕ) → r ≡ amount n → outcome_of r ≡ quoted n
unfolding outcome_of
amount-quoted r n e = ap outcome_of e

encodes_iff : (key : PoolKey) (n : ℕ) → (encodes key n ≡ true) ↔ InRange key n
unfolding encodes
encodes_iff key n = ground arith

module _ (ctx : ResolverContext) (key : PoolKey) where
  unfoldable pub ask : ℕ → Settled QuoteOutcome
  ask n =
      quote_exact_in_single ctx.client.eth_call key (sell_direction ctx.token ctx.quote) n
        ctx.horizon_block

  -- A call is encoded and sent, or throws.
  pub ask-cases :
      (n : ℕ)
      → (InRange key n × (ask n ≡ value (outcome_of (answers ctx key n))))
        ⊎ ((InRange key n → ⊥) × ((e : Failure) × (ask n ≡ failure e)))
  unfolding ask quote_exact_in_single
  ask-cases n =
      let (f, g) = encodes_iff key n in
      elim (Bool-cases (encodes key n)) [
        | inl e ↦ inl (f e, rw e refl)
        | inr e ↦ inr ((λ r. cc (g r)), (out_of_range key n, rw e refl))
      ]

  abbrev pub size_of : ℕ → ℕ
  size_of spot = 100 * 10 ^ ctx.quote_decimals * spot_in / spot

  -- The second quote, and the verdict on it.
  abbrev pub second : ℕ → Coverage → Settled Resolution
  second spot d = and_then (ask (size_of spot)) (λ o. value (bulk_verdict spot (size_of spot) d o))

  abbrev pub Sold : ℕ → Bool → Type 0
  Sold spot v =
      (bulk : ℕ) × (0 < size_of spot)
      × InRange key (size_of spot)
      × (answers ctx key (size_of spot) ≡ amount bulk)
      × ((v ≡ true) ↔ (10 * (bulk * spot_in) ≤ 7 * (spot * size_of spot)))

  second-resolved :
      (spot : ℕ) (d : Coverage) (v : Bool)
      → 0 < size_of spot
      → IsValue v (second spot d) ↔ Sold spot v
  unfolding and_then outcome_of
  second-resolved spot d v z = elim (ask-cases (size_of spot)) [
    | inl (r, q) ↦
        let same : second spot d
            ≡ value
                (bulk_verdict spot (size_of spot) d (outcome_of (answers ctx key (size_of spot)))) =
          ap (λ x. and_then x (λ o. value (bulk_verdict spot (size_of spot) d o))) q in
        (
          λ (c, h).
              let w : bulk_verdict spot (size_of spot) d
                    (outcome_of (answers ctx key (size_of spot)))
                  ≡ resolved v c =
                cc in
              let (bulk, a, b) = bulk_verdict-resolved spot (size_of spot) d _ v (c, w) in
              (bulk, z, r, outcome_of-quoted _ bulk a, b),
          λ (bulk, y, k, a, b).
              let t : outcome_of (answers ctx key (size_of spot)) ≡ quoted bulk = ap outcome_of a in
              (
                some d,
                same
                    ∙ ap (λ o. value (bulk_verdict spot (size_of spot) d o)) t
                    ∙ ap value (bulk_verdict-quoted spot (size_of spot) bulk d v b),
              ),
        )
    | inr (n, (e, q)) ↦
        let same : second spot d ≡ failure e =
          ap (λ x. and_then x (λ o. value (bulk_verdict spot (size_of spot) d o))) q in
        (λ (c, h). cc, λ (bulk, y, k, a, b). absurd (n k))
  ]

  second-IsThrown :
      (spot : ℕ) (d : Coverage) → IsThrown (second spot d) ↔ (InRange key (size_of spot) → ⊥)
  unfolding and_then
  second-IsThrown spot d = elim (ask-cases (size_of spot)) [
    | inl (r, q) ↦
        let same : second spot d
            ≡ value
                (bulk_verdict spot (size_of spot) d (outcome_of (answers ctx key (size_of spot)))) =
          ap (λ x. and_then x (λ o. value (bulk_verdict spot (size_of spot) d o))) q in
        (λ (e, h). cc, λ n. absurd (n r))
    | inr (n, (e, q)) ↦ (
      λ h. n,
      λ h. (e, ap (λ x. and_then x (λ o. value (bulk_verdict spot (size_of spot) d o))) q),
    )
  ]

  -- After the first quote.
  sized :
      (c : Coverage) (n : ℕ)
      → 0 < size_of (suc n)
      → (d : Coverage) × (sell_verdict ctx key c (quoted (suc n)) ≡ second (suc n) d)
  unfolding sell_verdict ask sell_size
  sized c n h = (one_more_call c, ground arith)

  unsized :
      (c : Coverage) (n : ℕ)
      → size_of (suc n) ≡ 0
      → (r : Reason) × (d : Coverage) × (sell_verdict ctx key c (quoted (suc n))
          ≡ value (unresolvable r (some d)))
  unfolding sell_verdict sell_size
  unsized c n h = (size_underflow, add_note sell_size_zero c, ground arith)

  pub first-resolved :
      (c : Coverage) (o : QuoteOutcome) (v : Bool)
      → IsValue v (sell_verdict ctx key c o)
        ↔ ((spot : ℕ) × (o ≡ quoted spot) × (0 < spot) × Sold spot v)
  unfolding sell_verdict
  first-resolved c (failed e) v = (λ (d, h). cc, λ (n, h, z, s). cc)
  first-resolved c (quoted zero) v =
      (λ (d, h). cc, λ (n, h, z, s). let q : 0 ≡ n = cc in absurd (omega (arith, q, z)))
  first-resolved c (quoted (suc n)) v = elim (Bool-cases (size_of (suc n) == 0)) [
    | inl e ↦
        let (r, d, q) = unsized c n (ground arith) in
        (
          λ (c', h). cc,
          λ (m, h, z, (bulk, y, i, a, b)).
              let same : size_of m ≡ size_of (suc n) = ap size_of cc in
              absurd (ground (arith, same, y, e)),
        )
    | inr e ↦
        let (d, q) = sized c n (ground arith) in
        let (f, g) = second-resolved (suc n) d v (ground arith) in
        (
          λ (c', h). (suc n, refl, omega arith, f (c', sym q ∙ h)),
          λ (m, h, z, s).
              let same : m ≡ suc n = cc in
              let (c', k) = g (subst (λ x. Sold x v) same s) in (c', q ∙ k),
        )
  ]

  pub first-IsThrown :
      (c : Coverage) (o : QuoteOutcome)
      → IsThrown (sell_verdict ctx key c o) ↔ (
          (spot : ℕ) × (o ≡ quoted spot)
          × (0 < spot)
          × (0 < size_of spot)
          × (InRange key (size_of spot) → ⊥))
  unfolding sell_verdict
  first-IsThrown c (failed e) = (λ (d, h). cc, λ (n, h, z, y, s). cc)
  first-IsThrown c (quoted zero) =
      (λ (d, h). cc, λ (n, h, z, y, s). let q : 0 ≡ n = cc in absurd (omega (arith, q, z)))
  first-IsThrown c (quoted (suc n)) = elim (Bool-cases (size_of (suc n) == 0)) [
    | inl e ↦
        let (r, d, q) = unsized c n (ground arith) in
        (
          λ (e', h). cc,
          λ (m, h, z, y, s).
              let same : size_of m ≡ size_of (suc n) = ap size_of cc in
              absurd (ground (arith, same, y, e)),
        )
    | inr e ↦
        let (d, q) = sized c n (ground arith) in
        let (f, g) = second-IsThrown (suc n) d in
        (
          λ (e', h). (suc n, refl, omega arith, ground arith, f (e', sym q ∙ h)),
          λ (m, h, z, y, s).
              let same : m ≡ suc n = cc in
              let (e', k) = g (subst (λ x. InRange key (size_of x) → ⊥) same s) in (e', q ∙ k),
        )
  ]
