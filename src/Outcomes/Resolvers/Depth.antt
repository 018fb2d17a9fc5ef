-- ===== src/Outcomes/Resolvers/Depth.antt =====
-- When the liquidity of a pool counts as impaired.
use tripwire_launch_auditor.Prelude.{
  sort_on, All-sort_on, ℕ, ◌+◌, ◌-◌, ◌*◌, ◌≤◌, ◌≡◌, ◌⊎◌, inl, inr, refl, Bool, false, ◌&&◌, ◌||◌,
  Option, some, List, [], ◌∷◌, All, leb, ltb, ◌==◌, if◌then◌else◌, arith, ap, ◌∙◌,
}
use tripwire_launch_auditor.Hex.{Hex}
use tripwire_launch_auditor.Watcher.Retry.{value}
use tripwire_launch_auditor.Outcomes.Series.{v4, v4_modify_liquidity, Log}
use tripwire_launch_auditor.Outcomes.Series.Coverage.{Coverage}
use tripwire_launch_auditor.Outcomes.Series.Liquidity.{
  LiquidityPoint, LiquidityDelta, accumulate, decode_v4_modify_liquidity,
}
use tripwire_launch_auditor.Outcomes.Series.Price.{filter_map}
use tripwire_launch_auditor.Outcomes.Series.Build.{chunked_logs}
use tripwire_launch_auditor.Outcomes.Series.Points.{block_of, modify-blocks, liquidity-v4}
use tripwire_launch_auditor.Outcomes.Resolvers.{
  ResolverContext, Resolution, unresolvable, resolved, no_liquidity_events, no_positive_liquidity,
  last_of,
}
use tripwire_launch_auditor.Outcomes.Resolvers.Liq.{
  peak_from, has_removal, up_to, impaired, liq_verdict, resolve_liq_impaired,
}

-- The depth at the point, which is negative where more was removed than added, is at most `n`.
abbrev pub DepthAtMost : ℕ → LiquidityPoint → Type 0
DepthAtMost n p = p.added ≤ p.removed + n

abbrev pub DeepOnce : ℕ → List LiquidityPoint → Type 0
DeepOnce n [] = ⊥
DeepOnce n (p ∷ ps) = (p.added ≡ p.removed + n) ⊎ DeepOnce n ps

-- `n` is the largest depth of the points, or 0 where none is positive.
abbrev pub IsPeak : ℕ → List LiquidityPoint → Type 0
IsPeak n ps = All (DepthAtMost n) ps × ((n ≡ 0) ⊎ DeepOnce n ps)

peak_from_step :
    (m : ℕ) (p : LiquidityPoint)
    → let n = if ltb (p.removed + m) p.added then p.added - p.removed else m in
      (m ≤ n) × (p.added ≤ p.removed + n) × ((n ≡ m) ⊎ (p.added ≡ p.removed + n))
peak_from_step m p = ground arith

peak_from_lem :
    (m : ℕ) (ps : List LiquidityPoint)
    → (m ≤ peak_from m ps)
      × All (DepthAtMost (peak_from m ps)) ps
      × ((peak_from m ps ≡ m) ⊎ DeepOnce (peak_from m ps) ps)
unfolding peak_from
peak_from_lem m [] = (omega arith, tt, inl refl)
peak_from_lem m (p ∷ ps) =
    let n = if ltb (p.removed + m) p.added then p.added - p.removed else m in
    let (a, b, c) = peak_from_step m p in
    let (f, g, h) = peak_from_lem n ps in
    (
      omega (arith, a, f),
      (omega (arith, b, f), g),
      elim h [
        | inl q ↦ elim c [ inl u ↦ inl (q ∙ u) | inr u ↦ inr (inl (omega (arith, q, u))) ]
        | inr q ↦ inr (inr q)
      ],
    )

pub peak_from-IsPeak : (ps : List LiquidityPoint) → IsPeak (peak_from 0 ps) ps
peak_from-IsPeak ps = let (a, b, c) = peak_from_lem 0 ps in (b, c)

pub gains : List LiquidityDelta → ℕ
gains [] = 0
gains (d ∷ ds) = d.gain + gains ds

pub losses : List LiquidityDelta → ℕ
losses [] = 0
losses (d ∷ ds) = d.loss + losses ds

last-accumulate :
    (x : LiquidityPoint) (ds : List LiquidityDelta)
    → let p = last_of x (accumulate x.added x.removed ds) in
      (p.added ≡ x.added + gains ds) × (p.removed ≡ x.removed + losses ds)
unfolding last_of accumulate gains losses
last-accumulate x [] = omega arith
last-accumulate x (d ∷ ds) =
    let y : LiquidityPoint = record {
      block = d.block;
      added = x.added + d.gain;
      removed = x.removed + d.loss;
      gain = d.gain;
      loss = d.loss;
    } in
    omega (arith, last-accumulate y ds)

-- Some event removed more than it added.
pub some_loss : List LiquidityDelta → Bool
some_loss [] = false
some_loss (d ∷ ds) = ltb d.gain d.loss || some_loss ds

has_removal-accumulate :
    (a r : ℕ) (ds : List LiquidityDelta) → has_removal (accumulate a r ds) ≡ some_loss ds
unfolding has_removal some_loss accumulate
has_removal-accumulate a r [] = refl
has_removal-accumulate a r (d ∷ ds) =
    ap (λ b. ltb d.gain d.loss || b) (has_removal-accumulate (a + d.gain) (r + d.loss) ds)

up_to-all : (h : ℕ) (ps : List LiquidityPoint) → All (λ p. p.block ≤ h) ps → up_to h ps ≡ ps
unfolding up_to
up_to-all h [] k = refl
up_to-all h (p ∷ ps) (k, ks) = ground (arith, up_to-all h ps ks)

accumulate-blocks :
    (h a r : ℕ) (ds : List LiquidityDelta)
    → All (λ d. d.block ≤ h) ds
    → All (λ p. p.block ≤ h) (accumulate a r ds)
unfolding accumulate
accumulate-blocks h a r [] k = tt
accumulate-blocks h a r (d ∷ ds) (k, ks) = (k, accumulate-blocks h (a + d.gain) (r + d.loss) ds ks)

abbrev pub deltas_of : List Log → List LiquidityDelta
deltas_of logs = sort_on LiquidityDelta.block (filter_map decode_v4_modify_liquidity logs)

-- The verdict on the changes of the depth, in the order of their blocks.
abbrev pub DepthSays : List LiquidityDelta → Resolution → Type 0
DepthSays [] r = (c : Option Coverage) × (r ≡ unresolvable no_liquidity_events c)
DepthSays (d ∷ ds) r =
    (peak : ℕ) × IsPeak peak (accumulate 0 0 (d ∷ ds))
    × ((c : Option Coverage) × (r ≡ (
          if peak == 0
          then unresolvable no_positive_liquidity c
          else resolved
              (leb (5 * gains (d ∷ ds)) (peak + 5 * losses (d ∷ ds)) && some_loss (d ∷ ds)) c)))

impaired-sums :
    (peak : ℕ) (d : LiquidityDelta) (ds : List LiquidityDelta) (x : LiquidityPoint)
    → x.added ≡ d.gain
    → x.removed ≡ d.loss
    → x.gain ≡ d.gain
    → x.loss ≡ d.loss
    → impaired v4
        (last_of x (accumulate x.added x.removed ds))
        peak
        (x ∷ accumulate x.added x.removed ds)
      ≡ (leb (5 * gains (d ∷ ds)) (peak + 5 * losses (d ∷ ds)) && some_loss (d ∷ ds))
unfolding impaired has_removal some_loss gains losses
impaired-sums peak d ds x e f g h =
    let (a, r) = last-accumulate x ds in
    let same : has_removal (accumulate x.added x.removed ds) ≡ some_loss ds =
      has_removal-accumulate x.added x.removed ds in
    ground (arith, a, r, same)

liq_verdict-Says :
    (h : ℕ) (ds : List LiquidityDelta) (c : Coverage)
    → All (λ d. d.block ≤ h) ds
    → DepthSays ds (liq_verdict v4 (accumulate 0 0 ds) (up_to h (accumulate 0 0 ds)) c)
unfolding liq_verdict accumulate
liq_verdict-Says h [] c k = (some c, refl)
liq_verdict-Says h (d ∷ ds) c k =
    let x : LiquidityPoint = record {
      block = d.block;
      added = 0 + d.gain;
      removed = 0 + d.loss;
      gain = d.gain;
      loss = d.loss;
    } in
    let ps = x ∷ accumulate (0 + d.gain) (0 + d.loss) ds in
    let same : up_to h ps ≡ ps = up_to-all h ps (accumulate-blocks h 0 0 (d ∷ ds) k) in
    let e = impaired-sums (peak_from 0 ps) d ds x (omega arith) (omega arith) refl refl in
    (
      peak_from 0 ps,
      peak_from-IsPeak ps,
      (
        some c,
        ap (λ qs. liq_verdict v4 ps qs c) same
            ∙ ap
                (λ b.
                  if peak_from 0 ps == 0
                  then unresolvable no_positive_liquidity (some c)
                  else resolved b (some c))
                e,
      ),
    )

-- For a v4 pool with an id whose liquidity is not locked, whose logs from the launch to the horizon the
-- node gave: without a change of the depth the outcome is unresolvable, and so it is where the depth
-- was never positive. Else the pool counts as impaired exactly where some event took depth away and
-- the sum of all changes is a fifth of the peak at most; the peak is the largest depth after any
-- event.
pub resolve_liq_impaired-Says :
    (ctx : ResolverContext) (id : Hex) (logs : List Log)
    → ctx.lp_locked_by_construction ≡ false
    → ctx.pool.pool_kind ≡ v4
    → ctx.pool.pool_id ≡ some id
    → ctx.launch_block ≤ ctx.horizon_block
    → All (λ l. block_of l ≤ ctx.horizon_block) logs
    → chunked_logs ctx.client.request
        (record { address = ctx.pool.pool_manager; event = v4_modify_liquidity; id = some id })
        ctx.launch_block
        ctx.horizon_block
        ctx.max_range
      ≡ value logs
    → (r : Resolution) × (resolve_liq_impaired ctx ≡ value r) × DepthSays (deltas_of logs) r
unfolding resolve_liq_impaired
resolve_liq_impaired-Says ctx id logs open_lp kind named order before given =
    let h = ctx.horizon_block in
    let ds = deltas_of logs in
    let (c, e) =
      liquidity-v4 ctx.client.request ctx.pool id ctx.launch_block h ctx.max_range logs kind named
        order given in
    (
      liq_verdict v4 (accumulate 0 0 ds) (up_to h (accumulate 0 0 ds)) c,
      ground (arith, e),
      liq_verdict-Says h ds c (
          All-sort_on (λ d. d.block ≤ h) LiquidityDelta.block
            (filter_map decode_v4_modify_liquidity logs) (modify-blocks h logs before)),
    )
