-- ===== src/Outcomes/BlockTime/Search.antt =====
-- How far from the last block at or before the time the search may end.
use tripwire_launch_auditor.Prelude.{
  ℕ, zero, suc, ◌+◌, ◌-◌, ◌*◌, ◌/◌, ◌^◌, ◌≤◌, ◌<◌, ◌≡◌, refl, sym, ap, subst, Option, none, some,
  leb, ltb, if◌then◌else◌, if_intro, arith,
}
use native.Mathlib.Nat.{pow-suc}
use tripwire_launch_auditor.Outcomes.BlockTime.{
  Cache, BlockAtTimeOptions, cache_set, or_default, search, find_block, answer_from, block_at_time,
}

doubled : (d n : ℕ) → (d + 1) * 2 ^ suc n ≡ 2 * ((d + 1) * 2 ^ n)
doubled d n = omega (arith, ap (λ (x : ℕ). (d + 1) * x) (pow-suc 2 n))

module _ (timestamp : ℕ → ℕ) (target head : ℕ) where
  -- The block is at or before the time, and every block more than `d` after it is later.
  abbrev pub IsWithin : ℕ → ℕ → Type 0
  IsWithin d block =
      (timestamp block ≤ target) × ((c : ℕ) → block + d < c → c ≤ head → target < timestamp c)

  module _ (sorted : (a b : ℕ) → a ≤ b → timestamp a ≤ timestamp b) where
    search-IsWithin :
        (d iters lo end answer : ℕ)
        → end - lo < (d + 1) * 2 ^ iters
        → lo ≤ answer + 1
        → timestamp answer ≤ target
        → ((c : ℕ) → end ≤ c → c ≤ head → target < timestamp c)
        → IsWithin d (search timestamp target iters lo end answer)
    unfolding search
    search-IsWithin d zero lo end answer s l t late = (t, λ c h k. late c (omega (arith, s)) k)
    search-IsWithin d (suc iters) lo end answer s l t late =
        let mid : ℕ = lo + (end - 1 - lo) / 2 in
        let up : ℕ = search timestamp target iters (mid + 1) end mid in
        let down : ℕ = search timestamp target iters lo mid answer in
        let twice : (d + 1) * 2 ^ suc iters ≡ 2 * ((d + 1) * 2 ^ iters) = doubled d iters in
        if_intro (IsWithin d) (ltb lo end) (if leb (timestamp mid) target then up else down) answer
          (λ e.
            if_intro (IsWithin d) (leb (timestamp mid) target) up down
              (λ f.
                search-IsWithin d iters (mid + 1) end mid (ground (arith, twice)) (omega arith)
                  (ground arith) late)
              (λ f.
                search-IsWithin d iters lo mid answer (ground (arith, twice)) l t
                  (λ c h k. let m : timestamp mid ≤ timestamp c = sorted mid c h in ground arith)))
          (λ e. (t, λ c h k. late c (ground arith) k))

find_block-IsWithin :
    (timestamp : ℕ → ℕ) (target head d iters lo : ℕ)
    → ((a b : ℕ) → a ≤ b → timestamp a ≤ timestamp b)
    → lo ≤ head
    → timestamp lo < target
    → head + 1 - lo < (d + 1) * 2 ^ iters
    → IsWithin timestamp target head d (find_block timestamp target iters lo head)
unfolding find_block
find_block-IsWithin timestamp target head d iters lo sorted b l s =
    if_intro (IsWithin timestamp target head d) (leb (timestamp head) target) head
      (if leb target (timestamp lo) then lo else search timestamp target iters lo (head + 1) lo)
      (λ e. (ground arith, λ c h k. absurd (omega (arith, h, k))))
      (λ e.
        if_intro (IsWithin timestamp target head d) (leb target (timestamp lo)) lo
          (search timestamp target iters lo (head + 1) lo) (λ f. absurd (ground arith))
          (λ f.
            search-IsWithin timestamp target head sorted d iters lo (head + 1) lo s (omega arith)
              (omega arith) (λ c h k. absurd (omega (arith, h, k)))))

-- With timestamps that do not fall, a time after the lowest block's and a start at most at the head,
-- the block found, when none is cached, is at or before the time, and no block more than `d` after it
-- is, where the number of blocks searched is below `d + 1` times 2 to the iterations: with `d` 0 it
-- is the last block at or before the time.
pub block_at_time-IsWithin :
    (timestamp : ℕ → ℕ) (target head d : ℕ) (opts : BlockAtTimeOptions) (cache : Cache)
    → ((a b : ℕ) → a ≤ b → timestamp a ≤ timestamp b)
    → let lo = or_default opts.min_block 1 in
      cache (or_default opts.chain_id 4663) target ≡ none
      → lo ≤ head
      → timestamp lo < target
      → head + 1 - lo < (d + 1) * 2 ^ or_default opts.max_iters 18
      → IsWithin timestamp target head d (block_at_time timestamp head target opts cache).0
unfolding block_at_time answer_from
block_at_time-IsWithin timestamp target head d opts cache sorted n b l s =
    let lo : ℕ = or_default opts.min_block 1 in
    let iters : ℕ = or_default opts.max_iters 18 in
    let chain_id : ℕ = or_default opts.chain_id 4663 in
    subst
      (λ o.
        IsWithin timestamp target head d
          (answer_from o (find_block timestamp target iters lo head) chain_id target cache).0)
      (sym n) (find_block-IsWithin timestamp target head d iters lo sorted b l s)

remembered :
    (o : Option ℕ) (found chain_id second : ℕ) (cache : Cache)
    → cache chain_id second ≡ o
    → (answer_from o found chain_id second cache).1 chain_id second
      ≡ some (answer_from o found chain_id second cache).0
unfolding answer_from cache_set
remembered (some block) found chain_id second cache e = e
remembered none found chain_id second cache e = ground arith

-- A block that was found stays the answer for its chain and second, however far the head has moved
-- since, as nothing removes it from the cache.
pub block_at_time-cached :
    (timestamp later : ℕ → ℕ) (target head new_head : ℕ) (opts more : BlockAtTimeOptions)
    (cache : Cache)
    → or_default opts.chain_id 4663 ≡ or_default more.chain_id 4663
    → let (block, cache') = block_at_time timestamp head target opts cache in
      (block_at_time later new_head target more cache').0 ≡ block
unfolding block_at_time answer_from
block_at_time-cached timestamp later target head new_head opts more cache same =
    let lo : ℕ = or_default opts.min_block 1 in
    let iters : ℕ = or_default opts.max_iters 18 in
    let chain_id : ℕ = or_default opts.chain_id 4663 in
    let found : ℕ = find_block timestamp target iters lo head in
    let kept = remembered (cache chain_id target) found chain_id target cache refl in
    let (block, cache') = answer_from (cache chain_id target) found chain_id target cache in
    let again : ℕ =
      find_block later target (or_default more.max_iters 18) (or_default more.min_block 1)
        new_head in
    subst (λ c. (answer_from (cache' c target) again c target cache').0 ≡ block) same
      (subst (λ o. (answer_from o again chain_id target cache').0 ≡ block) (sym kept) refl)
