-- ===== src/Outcomes/BlockTime/Examples.antt =====
-- A chain of ten blocks to a second.
use tripwire_launch_auditor.Prelude.{ℕ, ◌/◌, ◌≤◌, refl, none, arith}
use tripwire_launch_auditor.Outcomes.BlockTime.{
  BlockAtTimeOptions, Cache, or_default, block_at_time,
}
use tripwire_launch_auditor.Outcomes.BlockTime.Search.{IsWithin, block_at_time-IsWithin}

abbrev tenths : ℕ → ℕ
tenths b = b / 10

abbrev usual : BlockAtTimeOptions
usual = record { chain_id = none; max_iters = none; min_block = none }

abbrev nothing_cached : Cache
nothing_cached c s = none

tenths_sorted : (a b : ℕ) → a ≤ b → tenths a ≤ tenths b
tenths_sorted a b h = omega arith

-- 54 million blocks, of which 18 halvings leave 205 or fewer.
block_at_time-IsWithin_example :
    IsWithin tenths 3_000_000 54_000_000 205
      (block_at_time tenths 54_000_000 3_000_000 usual nothing_cached).0
unfolding or_default
block_at_time-IsWithin_example =
    block_at_time-IsWithin tenths 3_000_000 54_000_000 205 usual nothing_cached tenths_sorted refl
      (omega arith) (omega arith) (omega arith)
