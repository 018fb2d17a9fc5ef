-- ===== src/Commit/Artifacts/Examples.antt =====
-- A first run over two artifacts, one of which was posted before.
use tripwire_launch_auditor.Prelude.{
  ◌≡◌, ◌=ₛ◌, eq_iff, String, true, false, Option, none, some, List, [], ◌∷◌,
}
use tripwire_launch_auditor.Hex.{Hex}
use tripwire_launch_auditor.Commit.Job.{CommitEnv}
use tripwire_launch_auditor.Commit.Artifacts.{ArtifactRow, recommit_artifacts}
use tripwire_launch_auditor.Commit.Artifacts.Again.{Keys, recommit_artifacts-again}

abbrev two_hashes : List (String × Hex)
two_hashes = ("weights", 1 ∷ []) ∷ ("scorerCode", 2 ∷ []) ∷ []

abbrev first_rows : List ArtifactRow
first_rows =
    record {
      merkle_root = 1 ∷ [];
      leaves = none;
      weight_hash = some (1 ∷ []);
      feature_code_hash = none;
      outcome_rule_hash = none;
      scorer_hash = none;
      tx_hash = [];
    }
    ∷ []

abbrev accepts : String → Hex → Option Hex
accepts label hash = some hash

abbrev commit_env : CommitEnv
commit_env = record {
  gas_wallet_private_key = some [];
  commit_registry_address = some [];
  commit_max_leaves = 8;
  commit_interval_sec = 60;
}

two_hashes-Keys : Keys two_hashes
two_hashes-Keys = (
  (
    λ e. let bad : ("scorerCode" =ₛ "weights") ≡ true = (eq_iff "scorerCode" "weights").1 e in cc,
    tt,
  ),
  (tt, tt),
)

recommit_artifacts-again_example :
    let r = recommit_artifacts accepts commit_env false two_hashes first_rows in
    let t = recommit_artifacts accepts commit_env false two_hashes r.rows in
    (r.threw ≡ false) × (t.rows ≡ r.rows) × (t.committed ≡ []) × (t.threw ≡ false)
recommit_artifacts-again_example =
    recommit_artifacts-again accepts accepts commit_env false two_hashes first_rows two_hashes-Keys
      (λ e. cc, (λ e. cc, tt))
