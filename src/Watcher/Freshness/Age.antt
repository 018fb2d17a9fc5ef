-- ===== src/Watcher/Freshness/Age.antt =====
-- What the search for the deployment finds.
use tripwire_launch_auditor.Prelude.{
  ℕ, zero, suc, ◌+◌, ◌-◌, ◌*◌, ◌/◌, ◌^◌, ◌≤◌, ◌<◌, ◌≡◌, refl, ap, subst, Bool, true, false, Option,
  none, some, ltb, if◌then◌else◌, arith, if_intro, option_intro, ◌∙◌, ◌≢◌,
}
use native.Mathlib.Nat.{pow-suc}
use tripwire_launch_auditor.Watcher.Freshness.{
  halve, aged, unknown, by_pool, by_start, compute_token_age_at_pool,
}

doubled : (d n : ℕ) → d * 2 ^ suc n ≡ 2 * (d * 2 ^ n)
doubled d n = omega (arith, ap (λ (x : ℕ). d * x) (pow-suc 2 n))

module _ (has_code : ℕ → Option Bool) where
  -- The block has code, and one less than `d` before it, or the one before it, has none.
  abbrev pub IsFirst : ℕ → Option ℕ → Type 0
  IsFirst d none = Unit
  IsFirst d (some b) =
      (has_code b ≡ some true) × ((c : ℕ) × (has_code c ≡ some false) × (c < b) × (b ≤ c + d))

  halve-IsFirst :
      (d left lo hi iters : ℕ)
      → 0 < d
      → hi - lo ≤ d * 2 ^ left
      → lo < hi
      → has_code lo ≡ some false
      → has_code hi ≡ some true
      → IsFirst d (halve has_code left lo hi iters).0
  unfolding halve
  halve-IsFirst d zero lo hi iters p s l n y = (y, (lo, n, l, omega (arith, s)))
  halve-IsFirst d (suc left) lo hi iters p s l n y =
      let mid : ℕ = lo + (hi - lo) / 2 in
      let up = halve has_code left mid hi (iters + 1) in
      let down = halve has_code left lo mid (iters + 1) in
      let twice : d * 2 ^ suc left ≡ 2 * (d * 2 ^ left) = doubled d left in
      if_intro (λ (x : Option ℕ × ℕ). IsFirst d x.0) (ltb 1 (hi - lo))
        (elim (has_code mid) [ none ↦ (none, iters + 1) | some code ↦ if code then down else up ])
        (some hi, iters)
        (λ e.
          option_intro (λ (x : Option ℕ × ℕ). IsFirst d x.0) (has_code mid) (none, iters + 1)
            (λ code. if code then down else up) (λ q. tt)
            (λ code q.
              if_intro (λ (x : Option ℕ × ℕ). IsFirst d x.0) code down up
                (λ f.
                  halve-IsFirst d left lo mid (iters + 1) p (ground (arith, twice)) (ground arith) n
                    (q ∙ ap some f))
                (λ f.
                  halve-IsFirst d left mid hi (iters + 1) p (ground (arith, twice)) (ground arith)
                    (q ∙ ap some f) y)))
        (λ e. (y, (lo, n, l, ground arith)))

aged_lem :
    (has_code : ℕ → Option Bool) (pool_block rate d b : ℕ) (r : Option ℕ × ℕ)
    → IsFirst has_code d r.0
    → (aged has_code pool_block rate r).deploy_block_approx ≡ some b
    → IsFirst has_code d (some b)
unfolding aged
aged_lem has_code pool_block rate d b (none, iters) h e = absurd (ground arith)
aged_lem has_code pool_block rate d b (some c, iters) h e =
    let same : c ≡ b = cc in subst (λ x. IsFirst has_code d (some x)) same h

by_start_lem :
    (has_code : ℕ → Option Bool) (pool_block rate lo left d b : ℕ) (o : Option Bool)
    → 0 < d
    → pool_block - lo ≤ d * 2 ^ left
    → has_code pool_block ≡ some true
    → lo ≤ pool_block
    → has_code lo ≡ o
    → (by_start has_code pool_block rate lo left o).deploy_block_approx ≡ some b
    → IsFirst has_code d (some b)
unfolding by_start by_pool unknown
by_start_lem has_code pool_block rate lo left d b none p w y l n e = absurd (ground arith)
by_start_lem has_code pool_block rate lo left d b (some true) p w y l n e = absurd (ground arith)
by_start_lem has_code pool_block rate lo left d b (some false) p w y l n e =
    let e' =
      subst (λ o. (by_pool has_code pool_block rate lo left o).deploy_block_approx ≡ some b) y e in
    let apart : lo ≢ pool_block = λ q.
      let bad : has_code pool_block ≡ some false = subst (λ x. has_code x ≡ some false) q n in cc in
    aged_lem has_code pool_block rate d b (halve has_code left lo pool_block 2)
      (halve-IsFirst has_code d left lo pool_block 2 p w (omega (arith, apart)) n y) e'

-- A deployment block that is reported with code at the pool's block has code, and some block before
-- it, at most `d` away, has none, where `d` times 2 to the halvings that are left of the iterations
-- reaches over the window. Nothing is assumed of the blocks between.
pub compute_token_age-IsFirst :
    (has_code : ℕ → Option Bool) (pool_block rate window_blocks max_iters d b : ℕ)
    → 0 < d
    → window_blocks ≤ d * 2 ^ (max_iters - 2)
    → has_code pool_block ≡ some true
    → (compute_token_age_at_pool has_code pool_block rate window_blocks
        max_iters).deploy_block_approx
      ≡ some b
    → (has_code b ≡ some true) × ((c : ℕ) × (has_code c ≡ some false) × (c < b) × (b ≤ c + d))
unfolding compute_token_age_at_pool
compute_token_age-IsFirst has_code pool_block rate window_blocks max_iters d b p w y e =
    by_start_lem has_code pool_block rate (pool_block - window_blocks) (max_iters - 2) d b
      (has_code (pool_block - window_blocks)) p (omega (arith, w)) y (omega arith) refl e
