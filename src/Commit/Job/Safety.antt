-- ===== src/Commit/Job/Safety.antt =====
-- What every run of the job keeps.
use tripwire_launch_auditor.Prelude.{
  ◌≡◌, refl, sym, subst, Bool, Option, none, some, List, [], ◌∷◌, All, map, length, take, leb,
  if◌then◌else◌, if_intro, option_intro,
}
use tripwire_launch_auditor.Hex.{Hex}
use tripwire_launch_auditor.Commit.Merkle.{build_merkle_tree}
use tripwire_launch_auditor.Commit.Merkle.Fold.{IsLower}
use tripwire_launch_auditor.Commit.Batch.{
  PendingReport, UnconfirmedBatch, Receipt, Store, CommitResult, not_committed, thrown,
  nothing_pending, waiting, record_batch, find_pending, contains_id,
}
use tripwire_launch_auditor.Commit.Job.{
  CommitEnv, Tick, wait, finalize, drop_reverted, drop_expired, UnconfirmedAction, CommitConfig,
  configured, refused, unconfirmed_action, unconfirmed_max_age_ms, require_commit_env, is_ready,
  send, commit_pending, finalize_batch, act, resolve, configure, run_commit_batch,
}
use tripwire_launch_auditor.Commit.Batch.Table.{IsPendingIn, Keeps-refl, Apart}
use tripwire_launch_auditor.Commit.Batch.Query.{batch-IsPendingIn}
use tripwire_launch_auditor.Commit.Job.Steps.{
  held_of, IsSafe, Follows, record_batch-Follows, send-Follows,
}

module _ (pair : Hex → Hex → Hex) (digest : (a b : Hex) → IsLower (pair a b)) where
  commit_pending-Follows :
      (env : CommitEnv) (registry : Hex) (force : Bool) (tick : Tick) (s : Store)
      → IsSafe pair s
      → Follows pair s (commit_pending pair env registry force (held_of s.unconfirmed) tick s).1
  unfolding commit_pending
  commit_pending-Follows env registry force tick s v =
      let pending = find_pending (held_of s.unconfirmed) s.reports in
      let (b, a) = batch-IsPendingIn env.commit_max_leaves (held_of s.unconfirmed) s.reports v.0 in
      if_intro (λ (x : CommitResult × Store). Follows pair s x.1) (leb (length pending) 0)
        (not_committed nothing_pending, s)
        (if is_ready env force tick.now pending
          then send pair registry (take env.commit_max_leaves pending) tick s
          else (not_committed waiting, s))
        (λ q. (v, Keeps-refl s.reports))
        (λ q.
          if_intro (λ (x : CommitResult × Store). Follows pair s x.1)
            (is_ready env force tick.now pending)
            (send pair registry (take env.commit_max_leaves pending) tick s)
            (not_committed waiting, s)
            (λ y.
              send-Follows pair digest registry (take env.commit_max_leaves pending) tick s b a v)
            (λ y. (v, Keeps-refl s.reports)))

  all-Apart : (ps : List PendingReport) → Apart [] ps
  unfolding contains_id
  all-Apart [] = tt
  all-Apart (p ∷ ps) = (refl, all-Apart ps)

  finalize_batch-Follows :
      (registry : Hex) (u : UnconfirmedBatch) (r : Option Receipt) (tick : Tick) (s : Store)
      → s.unconfirmed ≡ none
      → All (IsPendingIn s.reports) u.batch
      → IsSafe pair s
      → Follows pair s (finalize_batch pair registry u r tick s).1
  unfolding finalize_batch
  finalize_batch-Follows registry u none tick s n b v = (v, Keeps-refl s.reports)
  finalize_batch-Follows registry u (some r) tick s n b v =
      option_intro (λ (x : CommitResult × Store). Follows pair s x.1)
        (build_merkle_tree pair (map (λ p. p.report_hash) u.batch)) (thrown, s)
        (λ t. record_batch registry u.batch t u.tx_hash r tick.now s)
        (λ q. (v, Keeps-refl s.reports))
        (λ t e.
          record_batch-Follows pair digest registry u.batch t u.tx_hash r tick.now s e b
            (subst (λ o. Apart (held_of o) u.batch) (sym n) (all-Apart u.batch)) v)

  released-Follows :
      (env : CommitEnv) (registry : Hex) (force : Bool) (tick : Tick) (s : Store)
      → IsSafe pair s
      → Follows pair s
          (commit_pending pair env registry force [] tick (record s { unconfirmed = none })).1
  released-Follows env registry force tick s (unique, links, held) =
      commit_pending-Follows env registry force tick (record s { unconfirmed = none })
        (unique, links, tt)

  kept-Follows :
      (env : CommitEnv) (registry : Hex) (force : Bool) (tick : Tick) (s : Store)
      (o : Option UnconfirmedBatch)
      → s.unconfirmed ≡ o
      → IsSafe pair s
      → Follows pair s (commit_pending pair env registry force (held_of o) tick s).1
  kept-Follows env registry force tick s o e v =
      subst (λ h. Follows pair s (commit_pending pair env registry force (held_of h) tick s).1) e
        (commit_pending-Follows env registry force tick s v)

  act-Follows :
      (env : CommitEnv) (registry : Hex) (force : Bool) (tick : Tick) (s : Store)
      (u : UnconfirmedBatch) (a : UnconfirmedAction)
      → s.unconfirmed ≡ some u
      → IsSafe pair s
      → Follows pair s (act pair env registry force tick s u a).1
  unfolding act
  act-Follows env registry force tick s u wait e v =
      kept-Follows env registry force tick s (some u) e v
  act-Follows env registry force tick s u finalize e (unique, links, held) =
      finalize_batch-Follows registry u tick.receipt tick (record s { unconfirmed = none }) refl
        (subst (λ o. All (IsPendingIn s.reports) (held_of o)) e held) (unique, links, tt)
  act-Follows env registry force tick s u drop_reverted e v =
      released-Follows env registry force tick s v
  act-Follows env registry force tick s u drop_expired e v =
      released-Follows env registry force tick s v

  resolve-Follows :
      (env : CommitEnv) (registry : Hex) (force : Bool) (tick : Tick) (s : Store)
      (o : Option UnconfirmedBatch)
      → s.unconfirmed ≡ o
      → IsSafe pair s
      → Follows pair s (resolve pair env registry force tick s o).1
  unfolding resolve
  resolve-Follows env registry force tick s none e v =
      kept-Follows env registry force tick s none e v
  resolve-Follows env registry force tick s (some u) e v =
      act-Follows env registry force tick s u
        (unconfirmed_action u.sent_at tick.receipt tick.now unconfirmed_max_age_ms) e v

  configure-Follows :
      (force : Bool) (tick : Tick) (s : Store) (env : CommitEnv) (c : CommitConfig)
      → IsSafe pair s
      → Follows pair s (configure pair force tick s env c).1
  unfolding configure
  configure-Follows force tick s env (refused r) v = (v, Keeps-refl s.reports)
  configure-Follows force tick s env (configured pk registry) v =
      resolve-Follows env registry force tick s s.unconfirmed refl v

  -- A run of the job, whatever the chain and the clock answer, keeps the store safe: report ids stay
  -- keys, each commit that a report has is a row with a leaf whose proof verifies against the row's
  -- root, and the reports of the held batch have no commit. No commit that a report had is changed.
  -- The pair hash gives lower-case digests.
  pub run_commit_batch-Follows :
      (env : CommitEnv) (force : Bool) (tick : Tick) (s : Store)
      → IsSafe pair s
      → Follows pair s (run_commit_batch pair env force tick s).1
  unfolding run_commit_batch
  run_commit_batch-Follows env force tick s v =
      configure-Follows force tick s env (require_commit_env env) v
