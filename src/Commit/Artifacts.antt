-- ===== src/Commit/Artifacts.antt =====
-- apps/worker/src/commit/job.ts: the hashes of the frozen artifacts. `writes` stands for the chain:
-- the transaction that it accepts for a label's hash, or `none` for an error.
pub mod Again
pub mod Examples
use tripwire_launch_auditor.Prelude.{
  String, ◌=ₛ◌, Bool, true, false, not, ◌&&◌, Option, none, some, List, [], ◌∷◌, ◌++◌,
  if◌then◌else◌, ℕ, ◌+◌,
}
use tripwire_launch_auditor.Hex.{Hex, hex_eq, to_lower_case}
use tripwire_launch_auditor.Commit.Batch.{Reason}
use tripwire_launch_auditor.Commit.Job.{CommitEnv, require_commit_env, configured, refused}

-- `leaves` of an artifact row, where it has a label.
pub record Labelled : Type 0 where
  pub artifact_label : String
  pub hash : Option Hex

pub record ArtifactRow : Type 0 where
  pub merkle_root : Hex
  pub leaves : Option Labelled
  pub weight_hash : Option Hex
  pub feature_code_hash : Option Hex
  pub outcome_rule_hash : Option Hex
  pub scorer_hash : Option Hex
  pub tx_hash : Hex

-- `Map<string, string>`
abbrev pub Labels : Type 0
Labels = String → Option Hex

set : String → Hex → Labels → Labels
set label h last k = if k =ₛ label then some h else last k

set_some : String → Option Hex → Labels → Labels
unfolding set
set_some label none last = last
set_some label (some h) last = set label (to_lower_case h) last

or_root : Option Hex → Hex → Hex
or_root none root = root
or_root (some h) root = h

-- One pass of the loop over the rows.
note_row : ArtifactRow → Labels → Labels
unfolding set_some or_root set
note_row r last = elim r.leaves [
  | some lv ↦ set lv.artifact_label (to_lower_case (or_root lv.hash r.merkle_root)) last
  | none ↦ set_some "scorerCode" r.scorer_hash (
      set_some "outcomeRule" r.outcome_rule_hash
        (set_some "featureCode" r.feature_code_hash (set_some "weights" r.weight_hash last)))
]

last_of : List ArtifactRow → Labels → Labels
last_of [] last = last
last_of (r ∷ rs) last = last_of rs (note_row r last)

column : String → String → Hex → Option Hex
column wanted label hash = if label =ₛ wanted then some hash else none

-- The row of a commit, with `ARTIFACT_COLUMN`.
artifact_row : String → Hex → Hex → ArtifactRow
unfolding column
artifact_row label hash tx_hash = record {
  merkle_root = hash;
  leaves = some (record { artifact_label = label; hash = some hash });
  weight_hash = column "weights" label hash;
  feature_code_hash = column "featureCode" label hash;
  outcome_rule_hash = column "outcomeRule" label hash;
  scorer_hash = column "scorerCode" label hash;
  tx_hash = tx_hash;
}

pub record Recommit : Type 0 where
  pub rows : List ArtifactRow
  pub committed : List String
  pub skipped : List String
  pub threw : Bool

abbrev skip_label : String → Recommit → Recommit
skip_label label r = record r { skipped = r.skipped ++ label ∷ [] }

abbrev post_label : String → Hex → Hex → Recommit → Recommit
post_label label hash tx r = record r {
  rows = r.rows ++ artifact_row label hash tx ∷ [];
  committed = r.committed ++ label ∷ [];
}

is_last : Option Hex → Hex → Bool
is_last none hash = false
is_last (some h) hash = hex_eq h (to_lower_case hash)

module _ (writes : String → Hex → Option Hex) (force : Bool) (last : Labels) where
  -- The loop over the hashes; it stops at the first error.
  recommit_loop : List (String × Hex) → Recommit → Recommit
  unfolding is_last artifact_row
  recommit_loop [] r = r
  recommit_loop ((label, hash) ∷ rest) r =
      let skip = recommit_loop rest (skip_label label r) in
      let post : Recommit = elim (writes label hash) [
        | none ↦ record r { threw = true }
        | some tx ↦ recommit_loop rest (post_label label hash tx r)
      ] in
      if not force && is_last (last label) hash then skip else post

unset : Labels
unset label = none

started : List ArtifactRow → Recommit
started rows = record { rows = rows; committed = []; skipped = []; threw = false }

pub recommit_artifacts :
    (String → Hex → Option Hex)
    → CommitEnv
    → Bool
    → List (String × Hex)
    → List ArtifactRow
    → Recommit
unfolding recommit_loop last_of note_row unset started
recommit_artifacts writes env force hashes rows = elim (require_commit_env env) [
  | refused r ↦ started rows
  | configured pk registry ↦ recommit_loop writes force (last_of rows unset) hashes (started rows)
]

-- The one-time commit of the three first artifacts: nothing once any artifact row exists.
first_row : String → Hex → Hex → ArtifactRow
unfolding artifact_row
first_row label hash tx_hash = record (artifact_row label hash tx_hash) {
  leaves = none;
  scorer_hash = none;
}

first_loop :
    (String → Hex → Option Hex)
    → List (String × Hex)
    → List ArtifactRow
    → ℕ
    → Option ℕ × List ArtifactRow
unfolding first_row
first_loop writes [] rows n = (some n, rows)
first_loop writes ((label, hash) ∷ rest) rows n = elim (writes label hash) [
  | none ↦ (none, rows)
  | some tx ↦ first_loop writes rest (rows ++ first_row label hash tx ∷ []) (n + 1)
]

first_or_none :
    (String → Hex → Option Hex) → Hex → Hex → Hex → List ArtifactRow → Option ℕ × List ArtifactRow
unfolding first_loop
first_or_none writes w f o [] =
    first_loop writes (("weights", w) ∷ ("featureCode", f) ∷ ("outcomeRule", o) ∷ []) [] 0
first_or_none writes w f o (r ∷ rows) = (some 0, r ∷ rows)

pub ensure_artifacts_committed :
    (String → Hex → Option Hex)
    → CommitEnv
    → Hex
    → Hex
    → Hex
    → List ArtifactRow
    → Option ℕ × List ArtifactRow
unfolding first_or_none
ensure_artifacts_committed writes env w f o rows = elim (require_commit_env env) [
  | refused r ↦ (some 0, rows)
  | configured pk registry ↦ first_or_none writes w f o rows
]
