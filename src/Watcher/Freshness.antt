-- ===== src/Watcher/Freshness.antt =====
-- apps/worker/src/watcher/freshness.ts: whether and since when a token has code. `has_code` stands
-- for `eth_getCode` at a block, `none` where the call fails. The seconds of
-- a block are in hundredths, and `Math.round` is written out.
pub mod Age
pub mod Examples
use tripwire_launch_auditor.Prelude.{
  ℕ, zero, suc, ◌+◌, ◌-◌, ◌*◌, ◌/◌, Bool, true, false, not, Option, none, some, ltb, leb,
  if◌then◌else◌,
}

abbrev pub fresh_launch_window_blocks : ℕ
fresh_launch_window_blocks = 864_000

pub data FreshnessReason : Type 0 where
  fresh preexisting inconclusive : FreshnessReason

pub record FreshnessCheck : Type 0 where
  pub is_fresh_launch : Bool
  pub reason : FreshnessReason
  pub checked_at_block : ℕ

pub record TokenAgeResult : Type 0 where
  pub age_sec : Option ℕ
  pub deploy_block_approx : Option ℕ
  pub iters : ℕ

module _ (has_code : ℕ → Option Bool) where
  pub check_token_freshness : ℕ → ℕ → FreshnessCheck
  check_token_freshness pool_block window_blocks =
      let at_block = pool_block - window_blocks in
      elim (has_code at_block) [
        | none ↦ record {
          is_fresh_launch = true;
          reason = inconclusive;
          checked_at_block = at_block;
        }
        | some had ↦ record {
          is_fresh_launch = not had;
          reason = if had then preexisting else fresh;
          checked_at_block = at_block;
        }
      ]

  -- The loop, on the iterations left: the last `hi`, or `none` where a call failed; with it the
  -- iterations made.
  halve : ℕ → ℕ → ℕ → ℕ → Option ℕ × ℕ
  halve zero lo hi iters = (some hi, iters)
  halve (suc left) lo hi iters =
      let mid = lo + (hi - lo) / 2 in
      let up = halve left mid hi (iters + 1) in
      let down = halve left lo mid (iters + 1) in
      let next : Option ℕ × ℕ = elim (has_code mid) [
        | none ↦ (none, iters + 1)
        | some code ↦ if code then down else up
      ] in
      if ltb 1 (hi - lo) then next else (some hi, iters)

  aged : ℕ → ℕ → Option ℕ × ℕ → TokenAgeResult
  aged pool_block rate (none, iters) = record {
    age_sec = none;
    deploy_block_approx = none;
    iters = iters;
  }
  aged pool_block rate (some deploy, iters) = record {
    age_sec = some (((pool_block - deploy) * rate + 50) / 100);
    deploy_block_approx = some deploy;
    iters = iters;
  }

  unknown : ℕ → TokenAgeResult
  unknown iters = record { age_sec = none; deploy_block_approx = none; iters = iters }

  -- With no code at the window's start, by the code at the pool's block.
  by_pool : ℕ → ℕ → ℕ → ℕ → Option Bool → TokenAgeResult
  unfolding halve aged unknown
  by_pool pool_block rate lo left none = unknown 0
  by_pool pool_block rate lo left (some false) = record {
    age_sec = some 0;
    deploy_block_approx = some pool_block;
    iters = 2;
  }
  by_pool pool_block rate lo left (some true) = aged pool_block rate (halve left lo pool_block 2)

  -- By the code at the window's start.
  by_start : ℕ → ℕ → ℕ → ℕ → Option Bool → TokenAgeResult
  unfolding by_pool unknown
  by_start pool_block rate lo left none = unknown 0
  by_start pool_block rate lo left (some true) = unknown 1
  by_start pool_block rate lo left (some false) =
      by_pool pool_block rate lo left (has_code pool_block)

  pub compute_token_age_at_pool : ℕ → ℕ → ℕ → ℕ → TokenAgeResult
  unfolding by_start
  compute_token_age_at_pool pool_block rate window_blocks max_iters =
      let lo = pool_block - window_blocks in
      by_start pool_block rate lo (max_iters - 2) (has_code lo)
