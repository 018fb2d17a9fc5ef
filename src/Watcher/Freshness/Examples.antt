-- ===== src/Watcher/Freshness/Examples.antt =====
-- A token deployed in block 950 and pooled in block 1000.
use tripwire_launch_auditor.Prelude.{
  ℕ, ◌+◌, ◌≤◌, ◌<◌, ◌≡◌, refl, Bool, true, false, Option, some, leb, arith,
}
use tripwire_launch_auditor.Watcher.Freshness.{
  halve, aged, by_pool, by_start, compute_token_age_at_pool,
}
use tripwire_launch_auditor.Watcher.Freshness.Age.{compute_token_age-IsFirst}

abbrev code_at : ℕ → Option Bool
code_at b = some (leb 950 b)

reported : (compute_token_age_at_pool code_at 1000 10 800 12).deploy_block_approx ≡ some 950
unfolding compute_token_age_at_pool by_start by_pool halve aged
reported = refl

compute_token_age-IsFirst_example :
    (code_at 950 ≡ some true) × ((c : ℕ) × (code_at c ≡ some false) × (c < 950) × (950 ≤ c + 1))
compute_token_age-IsFirst_example =
    compute_token_age-IsFirst code_at 1000 10 800 12 1 950 (omega arith) (omega arith) refl reported
