-- ===== src/Commit/Job/Examples.antt =====
-- The job at concrete stores.
use tripwire_launch_auditor.Prelude.{
  ◌≡◌, refl, ◌=ₛ◌, eq_iff, arith, Bool, true, none, some, List, All, [], ◌∷◌,
}
use tripwire_launch_auditor.Commit.Sample.{sample_pair, sample_pair-IsLower}
use tripwire_launch_auditor.Commit.Batch.{
  Report, UnconfirmedBatch, Store, find_pending, is_pending, contains_id,
}
use tripwire_launch_auditor.Commit.Job.{CommitEnv, Tick, is_ready, run_commit_batch}
use tripwire_launch_auditor.Commit.Batch.Table.{Unique}
use tripwire_launch_auditor.Commit.Job.Steps.{IsSafe, Follows}
use tripwire_launch_auditor.Commit.Job.Safety.{run_commit_batch-Follows}
use tripwire_launch_auditor.Api.Receipt.Recorded.{run_all, Passes, merkle_check-recorded}
use tripwire_launch_auditor.Commit.Job.Held.{Overwrites, run_commit_batch-Overwrites}

abbrev report_a : Report
report_a = record {
  id = "a";
  report_hash = 48 ∷ 120 ∷ 65 ∷ [];
  created_at = 1;
  validator_passed = true;
  commit_id = none;
  merkle_leaf_hash = none;
}

abbrev report_b : Report
report_b = record report_a { id = "b"; report_hash = 48 ∷ 120 ∷ 66 ∷ []; created_at = 2 }

abbrev batch_a : UnconfirmedBatch
batch_a = record {
  tx_hash = 1 ∷ [];
  batch = record { id = "a"; report_hash = 48 ∷ 120 ∷ 65 ∷ []; created_at = 1 } ∷ [];
  sent_at = 0;
}

abbrev held_store : Store
held_store = record {
  reports = report_a ∷ report_b ∷ [];
  commits = [];
  unconfirmed = some batch_a;
  sent = [];
}

abbrev env : CommitEnv
env = record {
  gas_wallet_private_key = some [];
  commit_registry_address = some [];
  commit_max_leaves = 8;
  commit_interval_sec = 60;
}

abbrev slow_tick : Tick
slow_tick = record {
  now = 100;
  receipt = none;
  tx_hash = some (2 ∷ []);
  sent_at = 100;
  waited = none;
}

abbrev mined_tick : Tick
mined_tick = record slow_tick {
  receipt = some (record { success = true; block_number = 7; logs = [] });
}

keys : Unique held_store.reports
keys = ((λ e. let bad : ("b" =ₛ "a") ≡ true = (eq_iff "b" "a").1 e in cc, tt), (tt, tt))

held_store-IsSafe : IsSafe sample_pair held_store
held_store-IsSafe =
    (keys, (λ c e. cc, (λ c e. cc, tt)), ((λ i. (refl, refl), (λ i. absurd (keys.0.0 i), tt)), tt))

run_commit_batch-Follows_example :
    Follows sample_pair held_store (run_commit_batch sample_pair env true mined_tick held_store).1
run_commit_batch-Follows_example =
    run_commit_batch-Follows sample_pair sample_pair-IsLower env true mined_tick held_store
      held_store-IsSafe

-- The held batch is recorded by the first run, and the other report by the second one.
abbrev two_runs : List (Bool × Tick)
two_runs = (true, mined_tick) ∷ (true, mined_tick) ∷ []

merkle_check-recorded_example :
    let t = run_all (λ x. []) sample_pair env two_runs held_store in
    All (Passes (λ x. []) sample_pair t.commits) t.reports
merkle_check-recorded_example =
    merkle_check-recorded (λ x. []) sample_pair sample_pair-IsLower env two_runs held_store
      held_store-IsSafe

run_commit_batch-Overwrites_example :
    Overwrites env slow_tick
      (2 ∷ [])
      batch_a
      held_store
      (run_commit_batch sample_pair env true slow_tick held_store)
unfolding is_ready find_pending is_pending contains_id
run_commit_batch-Overwrites_example =
    run_commit_batch-Overwrites sample_pair sample_pair-IsLower env [] [] (2 ∷ []) true slow_tick
      held_store batch_a refl refl (omega arith) keys refl refl (omega arith) refl refl refl
