-- ===== src/Commit/Job.antt =====
-- apps/worker/src/commit/job.ts: the job that batches report hashes, posts the root and records the
-- batch. The chain and the clock answer with the fields of a `Tick`, one record for each call; the
-- two tables and the module's `unconfirmed` variable are the `Store`. Ages are compared in
-- milliseconds, without the division by 1000.
pub mod Steps
pub mod Safety
pub mod Held
pub mod Examples
use tripwire_launch_auditor.Prelude.{
  ℕ, ◌+◌, ◌*◌, String, ◌=ₛ◌, Bool, true, false, not, ◌&&◌, ◌||◌, Option, none, some, List, [], ◌∷◌,
  ◌++◌, map, length, leb, ltb, take, if◌then◌else◌,
}
use tripwire_launch_auditor.Hex.{Hex, hex_eq, to_lower_case}
use tripwire_launch_auditor.Commit.Merkle.{MerkleTree, build_merkle_tree}
use tripwire_launch_auditor.Commit.Batch.{
  CommitResult, PendingReport, Reason, Receipt, Store, UnconfirmedBatch, find_pending, key_not_set,
  not_committed, nothing_pending, record_batch, registry_not_set, reverted, thrown, waiting,
}

pub record CommitEnv : Type 0 where
  pub gas_wallet_private_key : Option Hex
  pub commit_registry_address : Option Hex
  pub commit_max_leaves : ℕ
  pub commit_interval_sec : ℕ

pub record Tick : Type 0 where
  pub now : ℕ
  -- `getTransactionReceipt` of the held batch; `none` is null or an error
  pub receipt : Option Receipt
  -- `writeContract`; `none` is an error
  pub tx_hash : Option Hex
  pub sent_at : ℕ
  -- `waitReceipt`; `none` is the deadline
  pub waited : Option Receipt

pub data CommitConfig : Type 0 where
  configured : Hex → Hex → CommitConfig
  refused : Reason → CommitConfig

unfoldable pub require_commit_env : CommitEnv → CommitConfig
require_commit_env env = elim env.gas_wallet_private_key [
  | none ↦ refused key_not_set
  | some pk ↦ elim env.commit_registry_address [
    | none ↦ refused registry_not_set
    | some registry ↦ configured pk registry
  ]
]

abbrev pub unconfirmed_max_age_ms : ℕ
unconfirmed_max_age_ms = 30 * 60_000

pub data UnconfirmedAction : Type 0 where
  finalize wait drop_reverted drop_expired : UnconfirmedAction

pub unconfirmed_action : ℕ → Option Receipt → ℕ → ℕ → UnconfirmedAction
unconfirmed_action sent_at (some r) now max_age_ms = if r.success then finalize else drop_reverted
unconfirmed_action sent_at none now max_age_ms =
    if leb (sent_at + max_age_ms) now then drop_expired else wait

pub is_ready : CommitEnv → Bool → ℕ → List PendingReport → Bool
is_ready env force now [] = false
is_ready env force now (oldest ∷ rest) =
    force
    || leb env.commit_max_leaves (length (oldest ∷ rest))
    || leb (oldest.created_at + env.commit_interval_sec * 1000) now

module _ (pair : Hex → Hex → Hex) where
  -- After `writeContract`: the wait for the receipt.
  confirm : Hex → List PendingReport → MerkleTree → Hex → Tick → Store → CommitResult × Store
  unfolding record_batch
  confirm registry batch tree tx_hash tick s = elim tick.waited [
    | none ↦ (
      thrown,
      record s {
        unconfirmed = some (record { tx_hash = tx_hash; batch = batch; sent_at = tick.sent_at });
      },
    )
    | some r ↦
        if r.success
        then record_batch registry batch tree tx_hash r tick.now s
        else (not_committed reverted, s)
  ]

  pub send : Hex → List PendingReport → Tick → Store → CommitResult × Store
  unfolding confirm
  send registry batch tick s = elim (build_merkle_tree pair (map (λ p. p.report_hash) batch)) [
    | none ↦ (thrown, s)
    | some tree ↦ elim tick.tx_hash [
      | none ↦ (thrown, s)
      | some h ↦
          confirm registry batch tree h tick
            (record s { sent = (tree.root, tree.leaf_count) ∷ s.sent })
    ]
  ]

  commit_pending : CommitEnv → Hex → Bool → List PendingReport → Tick → Store → CommitResult × Store
  unfolding is_ready send
  commit_pending env registry force held tick s =
      let pending = find_pending held s.reports in
      if leb (length pending) 0
      then (not_committed nothing_pending, s)
      else if is_ready env force tick.now pending
      then send registry (take env.commit_max_leaves pending) tick s
      else (not_committed waiting, s)

  finalize_batch : Hex → UnconfirmedBatch → Option Receipt → Tick → Store → CommitResult × Store
  unfolding record_batch
  finalize_batch registry u none tick s = (thrown, s)
  finalize_batch registry u (some r) tick s =
      elim (build_merkle_tree pair (map (λ p. p.report_hash) u.batch)) [
        | none ↦ (thrown, s)
        | some tree ↦ record_batch registry u.batch tree u.tx_hash r tick.now s
      ]

  -- What becomes of the held batch, and then of the reports that are pending without it.
  act :
      CommitEnv
      → Hex
      → Bool
      → Tick
      → Store
      → UnconfirmedBatch
      → UnconfirmedAction
      → CommitResult × Store
  unfolding commit_pending finalize_batch
  act env registry force tick s u wait = commit_pending env registry force u.batch tick s
  act env registry force tick s u finalize =
      finalize_batch registry u tick.receipt tick (record s { unconfirmed = none })
  act env registry force tick s u drop_reverted =
      commit_pending env registry force [] tick (record s { unconfirmed = none })
  act env registry force tick s u drop_expired =
      commit_pending env registry force [] tick (record s { unconfirmed = none })

  resolve : CommitEnv → Hex → Bool → Tick → Store → Option UnconfirmedBatch → CommitResult × Store
  unfolding act
  resolve env registry force tick s none = commit_pending env registry force [] tick s
  resolve env registry force tick s (some u) =
      act env registry force tick s u
        (unconfirmed_action u.sent_at tick.receipt tick.now unconfirmed_max_age_ms)

  configure : Bool → Tick → Store → CommitEnv → CommitConfig → CommitResult × Store
  unfolding resolve
  configure force tick s env (refused r) = (not_committed r, s)
  configure force tick s env (configured pk registry) =
      resolve env registry force tick s s.unconfirmed

  pub run_commit_batch : CommitEnv → Bool → Tick → Store → CommitResult × Store
  unfolding configure require_commit_env
  run_commit_batch env force tick s = configure force tick s env (require_commit_env env)
