-- ===== src/Outcomes/BlockTime.antt =====
-- apps/worker/src/outcomes/block-time.ts: the block of a wall-clock time. `timestamp` stands for the
-- chain's `getBlock`, and the head of the chain is an argument. The search keeps the end of its
-- range exclusive, so that `mid - 1` does not meet the truncated subtraction.
pub mod Search
pub mod Examples
use tripwire_launch_auditor.Prelude.{
  ℕ, zero, suc, ◌+◌, ◌-◌, ◌/◌, Bool, true, false, ◌&&◌, Option, none, some, leb, ltb, ◌==◌,
  if◌then◌else◌,
}

-- `Map<string, bigint>` by chain id and second.
abbrev pub Cache : Type 0
Cache = ℕ → ℕ → Option ℕ

cache_set : Cache → ℕ → ℕ → ℕ → Cache
cache_set cache chain_id second block c s =
    if (c == chain_id) && (s == second) then some block else cache c s

pub or_default : Option ℕ → ℕ → ℕ
or_default none d = d
or_default (some n) d = n

pub record BlockAtTimeOptions : Type 0 where
  pub chain_id : Option ℕ
  pub max_iters : Option ℕ
  pub min_block : Option ℕ

module _ (timestamp : ℕ → ℕ) (target : ℕ) where
  -- The loop, on the iterations left: the range is from `lo` to before `end`.
  search : ℕ → ℕ → ℕ → ℕ → ℕ
  search zero lo end answer = answer
  search (suc iters) lo end answer =
      let mid = lo + (end - 1 - lo) / 2 in
      let up = search iters (mid + 1) end mid in
      let down = search iters lo mid answer in
      if ltb lo end then (if leb (timestamp mid) target then up else down) else answer

  -- Without the cache.
  find_block : ℕ → ℕ → ℕ → ℕ
  unfolding search
  find_block max_iters lo head =
      if leb (timestamp head) target
      then head
      else if leb target (timestamp lo)
      then lo
      else search max_iters lo (head + 1) lo

answer_from : Option ℕ → ℕ → ℕ → ℕ → Cache → ℕ × Cache
unfolding cache_set
answer_from (some block) found chain_id second cache = (block, cache)
answer_from none found chain_id second cache = (found, cache_set cache chain_id second found)

pub block_at_time : (ℕ → ℕ) → ℕ → ℕ → BlockAtTimeOptions → Cache → ℕ × Cache
unfolding find_block answer_from or_default
block_at_time timestamp head target opts cache =
    let chain_id = or_default opts.chain_id 4663 in
    let found =
      find_block timestamp target (or_default opts.max_iters 18) (or_default opts.min_block 1)
        head in
    answer_from (cache chain_id target) found chain_id target cache
