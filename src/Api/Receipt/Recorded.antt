-- ===== src/Api/Receipt/Recorded.antt =====
-- The reader's Merkle check on what the commit job has recorded.
use tripwire_launch_auditor.Prelude.{
  ℕ, ◌≡◌, sym, ap, ◌∙◌, String, Bool, true, some, List, [], ◌∷◌, All, All-map, get_elem?,
}
use tripwire_launch_auditor.Hex.{Hex, to_lower_case}
use tripwire_launch_auditor.Commit.Merkle.{verify_proof}
use tripwire_launch_auditor.Commit.Merkle.Fold.{IsLower}
use tripwire_launch_auditor.Commit.Merkle.Verifies.{verify_proof-lower}
use tripwire_launch_auditor.Commit.Batch.{Report, CommitRow, Leaf, Store}
use tripwire_launch_auditor.Commit.Batch.Record.{Anchored}
use tripwire_launch_auditor.Commit.Job.{CommitEnv, Tick, run_commit_batch}
use tripwire_launch_auditor.Commit.Job.Steps.{IsSafe}
use tripwire_launch_auditor.Commit.Job.Safety.{run_commit_batch-Follows}
use tripwire_launch_auditor.Api.Receipt.{merkle, check, api_verify_proof, merkle_check}
use tripwire_launch_auditor.Api.Receipt.Agreement.{api_verify_proof-agrees}

module _ (keccak : String → Hex) (pair : Hex → Hex → Hex) where
  -- The store after some runs of the job, each forced or not, with the answers that it got.
  pub run_all : CommitEnv → List (Bool × Tick) → Store → Store
  run_all env [] s = s
  run_all env ((force, tick) ∷ rest) s = run_all env rest (run_commit_batch pair env force tick s).1

  -- The commit that the report names is a row with a leaf for its hash, whose proof and the row's root
  -- pass the reader's check.
  abbrev pub Passes : List CommitRow → Report → Type 0
  Passes rows r =
      (c : ℕ)
      → r.commit_id ≡ some c
      → (row : CommitRow) × (leaf : Leaf) × (i : ℕ) × (get_elem? rows c ≡ some row)
        × (get_elem? row.leaves i ≡ some leaf)
        × (leaf.report_hash ≡ to_lower_case r.report_hash)
        × (merkle_check keccak pair r.report_hash (some leaf.proof) (some row.merkle_root)
            ≡ check merkle true)

  check_passes :
      (h : Hex) (proof : List Hex) (root : Hex)
      → verify_proof pair h proof root ≡ true
      → merkle_check keccak pair h (some proof) (some root) ≡ check merkle true
  unfolding merkle_check api_verify_proof
  check_passes h proof root v = ap (check merkle) (api_verify_proof-agrees pair h proof root ∙ v)

  Anchored-Passes :
      (rows : List CommitRow) (r : Report)
      → ((c : ℕ) → r.commit_id ≡ some c → Anchored pair rows c r.report_hash)
      → Passes rows r
  Anchored-Passes rows r h c e =
      let (row, q, (i, leaf, g, l, v)) = h c e in
      let lowered : verify_proof pair (to_lower_case r.report_hash) leaf.proof row.merkle_root
          ≡ true =
        ap (λ x. verify_proof pair x leaf.proof row.merkle_root) (sym l) ∙ v in
      (
        row,
        leaf,
        i,
        q,
        g,
        l,
        check_passes r.report_hash leaf.proof row.merkle_root
            (sym (verify_proof-lower pair r.report_hash leaf.proof row.merkle_root) ∙ lowered),
      )

  module _ (digest : (a b : Hex) → IsLower (pair a b)) where
    run_all-IsSafe :
        (env : CommitEnv) (runs : List (Bool × Tick)) (s : Store)
        → IsSafe pair s
        → IsSafe pair (run_all env runs s)
    unfolding run_all
    run_all-IsSafe env [] s h = h
    run_all-IsSafe env ((force, tick) ∷ rest) s h =
        run_all-IsSafe env rest (run_commit_batch pair env force tick s).1
          (run_commit_batch-Follows pair digest env force tick s h).0

    -- After any runs of the commit job on a safe store, whatever the chain and the clock answer, every
    -- report with a commit passes the reader's Merkle check: the commit's row has a leaf for the
    -- report's hash, whose recorded proof leads to the recorded root. The pair hash gives
    -- lower-case digests.
    pub merkle_check-recorded :
        (env : CommitEnv) (runs : List (Bool × Tick)) (s : Store)
        → IsSafe pair s
        → let t = run_all env runs s in All (Passes t.commits) t.reports
    merkle_check-recorded env runs s h =
        let t = run_all env runs s in
        let (unique, links, held) = run_all-IsSafe env runs s h in
        All-map t.reports (Anchored-Passes t.commits) links
