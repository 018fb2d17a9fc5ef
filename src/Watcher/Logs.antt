-- ===== src/Watcher/Logs.antt =====
-- packages/chain/src/logs.ts: `eth_getLogs` by windows. `request` stands for the RPC call.
pub mod Windows
pub mod Topics
pub mod Merged
pub mod Examples
use tripwire_launch_auditor.Prelude.{
  ℕ, zero, suc, ◌+◌, ◌-◌, Bool, true, false, Option, none, some, List, [], ◌∷◌, ◌++◌, ltb, leb,
  ◌==◌, ◌&&◌, if◌then◌else◌, length, take, drop,
}

-- The `for` loop's windows, on fuel for the blocks that are left.
unfoldable pub windows : ℕ → ℕ → ℕ → ℕ → List (ℕ × ℕ)
windows zero start to step = []
windows (suc fuel) start to step =
    let end = if ltb (start + step - 1) to then start + step - 1 else to in
    let rest = windows fuel (start + step) to step in
    if leb start to then (start, end) ∷ rest else []

module _ {ℓ} {Log : Type ℓ} (request : ℕ → ℕ → List Log) where
  all_logs : List (ℕ × ℕ) → List Log
  all_logs [] = []
  all_logs ((start, end) ∷ rest) = request start end ++ all_logs rest

  -- `none` is the thrown "maxRange must be >= 1".
  pub get_logs_chunked : ℕ → ℕ → ℕ → Option (List Log)
  unfolding windows all_logs
  get_logs_chunked from to max_range =
      if ltb max_range 1 then none else some (all_logs (windows (to + 1 - from) from to max_range))
