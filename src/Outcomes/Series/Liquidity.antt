-- ===== src/Outcomes/Series/Liquidity.antt =====
-- The depth of a pool after each of its events, of apps/worker/src/outcomes/series.ts.
use tripwire_launch_auditor.Prelude.{
  ℕ, ◌+◌, Bool, Option, none, some, List, [], ◌∷◌, if◌then◌else◌, pos, negsuc,
}
use tripwire_launch_auditor.Outcomes.Series.{Log, modify_log, sync_log}

pub record LiquidityPoint : Type 0 where
  pub block : ℕ
  pub added : ℕ
  pub removed : ℕ
  pub gain : ℕ
  pub loss : ℕ

pub record LiquidityDelta : Type 0 where
  pub block : ℕ
  pub gain : ℕ
  pub loss : ℕ

unfoldable pub decode_v4_modify_liquidity : Log → Option LiquidityDelta
decode_v4_modify_liquidity (modify_log b (pos n)) = some (record { block = b; gain = n; loss = 0 })
decode_v4_modify_liquidity (modify_log b (negsuc n)) =
    some (record { block = b; gain = 0; loss = n + 1 })
decode_v4_modify_liquidity _ = none

-- A Sync, as its block and its quote-side reserve.
unfoldable pub quote_reserve : Bool → Log → Option (ℕ × ℕ)
quote_reserve c0 (sync_log b r0 r1) = some (b, if c0 then r1 else r0)
quote_reserve c0 _ = none

-- The running sum of the deltas, as what was added and what was removed.
unfoldable pub accumulate : ℕ → ℕ → List LiquidityDelta → List LiquidityPoint
accumulate added removed [] = []
accumulate added removed (d ∷ ds) =
    record {
      block = d.block;
      added = added + d.gain;
      removed = removed + d.loss;
      gain = d.gain;
      loss = d.loss;
    }
    ∷ accumulate (added + d.gain) (removed + d.loss) ds

unfoldable pub reserves : ℕ → List (ℕ × ℕ) → List LiquidityPoint
reserves prev [] = []
reserves prev ((b, r) ∷ rs) =
    record { block = b; added = r; removed = 0; gain = r; loss = prev } ∷ reserves r rs
