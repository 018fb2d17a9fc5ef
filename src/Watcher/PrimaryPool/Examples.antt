-- ===== src/Watcher/PrimaryPool/Examples.antt =====
-- Two pools with the native asset, one of them with a fee of more than a tenth.
use tripwire_launch_auditor.Prelude.{ℕ, ◌≡◌, refl, Bool, Option, none, some, List, [], ◌∷◌}
use tripwire_launch_auditor.Hex.{Hex, hex_eq}
use tripwire_launch_auditor.Watcher.Retry.{Settled, value}
use tripwire_launch_auditor.Watcher.PrimaryPool.{
  PoolCreation, PrimaryPoolPick, candidates_of, probed, clamp, pick_primary_v4_pool,
}
use tripwire_launch_auditor.Watcher.PrimaryPool.First.{IsPrimary, pick_primary_v4_pool-IsPrimary}

abbrev native : Hex
native = 48 ∷ []

abbrev pool : Hex → ℕ → Option PoolCreation
pool id fee = some (record {
  pool_id = some id;
  token0 = native;
  token1 = 97 ∷ [];
  fee = some fee;
  tick_spacing = some 60;
  hooks = none;
  block = 5;
})

abbrev logs : List (Option PoolCreation)
logs = pool (49 ∷ []) 200_000 ∷ pool (50 ∷ []) 3000 ∷ []

abbrev known : Hex → Bool
known h = hex_eq h native

abbrev creations : ℕ → ℕ → Settled (List (Option PoolCreation))
creations from to = value logs

abbrev swaps : Hex → ℕ → ℕ → Settled ℕ
swaps id from to = value 7

pick_primary_v4_pool-IsPrimary_example :
    (p : PrimaryPoolPick) × (pick_primary_v4_pool known creations swaps (some 80) none 5 100 5 50
      ≡ value p)
    × IsPrimary p.chosen (probed swaps 5 (clamp (some 80) 50) (candidates_of known logs []))
pick_primary_v4_pool-IsPrimary_example =
    pick_primary_v4_pool-IsPrimary known creations swaps (some 80) none 5 100 5 50 logs refl
