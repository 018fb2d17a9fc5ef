-- ===== src/Commit/Job/Held.antt =====
-- A second batch without a receipt while a first one is held.
use tripwire_launch_auditor.Prelude.{
  ℕ, zero, suc, ◌+◌, ◌<◌, ◌∙◌, ◌≡◌, refl, sym, subst, inl, inr, String, ◌=ₛ◌, eq_iff, Bool, true,
  false, none, some, List, [], ◌∷◌, All, map, length, take, arith, Bool-cases,
}
use tripwire_launch_auditor.Hex.{Hex}
use tripwire_launch_auditor.Commit.Merkle.Fold.{IsLower}
use tripwire_launch_auditor.Commit.Merkle.Verifies.{build_merkle_tree-verifies}
use tripwire_launch_auditor.Commit.Batch.{
  Report, PendingReport, UnconfirmedBatch, Store, CommitResult, thrown, find_pending, is_pending,
  contains_id,
}
use tripwire_launch_auditor.Commit.Job.{
  CommitEnv, Tick, unconfirmed_action, require_commit_env, is_ready, confirm, send, commit_pending,
  act, resolve, configure, run_commit_batch,
}
use tripwire_launch_auditor.Commit.Batch.Table.{Unique, Apart}
use tripwire_launch_auditor.Commit.Batch.Query.{batch-IsPendingIn}

-- The reports of the first batch that the query would find if nothing were held, it finds.
abbrev pub Requeues : List PendingReport → List PendingReport → List Report → Type 0
Requeues first second =
    All (λ r. contains_id r.id first ≡ true → is_pending [] r ≡ true → is_pending second r ≡ true)

Apart-contains :
    (i : String) (first second : List PendingReport)
    → Apart first second
    → contains_id i first ≡ true
    → contains_id i second ≡ false
unfolding contains_id
Apart-contains i first [] a h = refl
Apart-contains i first (p ∷ second) a h = elim (Bool-cases (p.id =ₛ i)) [
  | inl e ↦
      let q : contains_id i first ≡ false =
        subst (λ j. contains_id j first ≡ false) ((eq_iff p.id i).0 e) a.0 in
      cc
  | inr e ↦ rw e (Apart-contains i first second a.1 h)
]

requeued :
    (first second : List PendingReport) (rs : List Report)
    → Apart first second
    → Requeues first second rs
unfolding is_pending contains_id
requeued first second [] a = tt
requeued first second (r ∷ rs) a =
    (λ h q. still r (Apart-contains r.id first second a h) q, requeued first second rs a)
  where
    still :
        (r : Report)
        → contains_id r.id second ≡ false
        → is_pending [] r ≡ true
        → is_pending second r ≡ true
    still r n q = ground (arith, n, q)

-- The run ends with an error, the batch that it sent is the held one, no report and no commit has
-- changed, and the first batch's reports are found again while the new one is held.
abbrev pub Overwrites :
    CommitEnv → Tick → Hex → UnconfirmedBatch → Store → CommitResult × Store → Type 0
Overwrites env tick tx_hash u s r =
    let batch = take env.commit_max_leaves (find_pending u.batch s.reports) in
    (r.0 ≡ thrown)
    × (r.1.unconfirmed ≡ some (record { tx_hash = tx_hash; batch = batch; sent_at = tick.sent_at }))
    × (r.1.reports ≡ s.reports)
    × (r.1.commits ≡ s.commits)
    × Requeues u.batch batch r.1.reports

ready-length :
    (env : CommitEnv) (force : Bool) (now : ℕ) (pending : List PendingReport)
    → is_ready env force now pending ≡ true
    → 0 < length pending
unfolding is_ready
ready-length env force now [] h = absurd (ground (arith, h))
ready-length env force now (p ∷ pending) h = omega arith

length-batch :
    (n : ℕ) (batch : List PendingReport)
    → 0 < n
    → 0 < length batch
    → 0 < length (map (λ (p : PendingReport). p.report_hash) (take n batch))
length-batch zero batch h k = absurd (omega (arith, h))
length-batch (suc n) [] h k = absurd (omega (arith, k))
length-batch (suc n) (p ∷ batch) h k = omega arith

module _ (pair : Hex → Hex → Hex) (digest : (a b : Hex) → IsLower (pair a b)) where
  -- What a call that the chain accepted leaves, where its receipt misses the deadline.
  send-held :
      (registry : Hex) (batch : List PendingReport) (tick : Tick) (s : Store) (h : Hex)
      → 0 < length (map (λ (p : PendingReport). p.report_hash) batch)
      → tick.tx_hash ≡ some h
      → tick.waited ≡ none
      → (sent : List (Hex × ℕ)) × (send pair registry batch tick s ≡ (
        thrown,
        record s {
          sent = sent;
          unconfirmed = some (record { tx_hash = h; batch = batch; sent_at = tick.sent_at });
        },
      ))
  unfolding send confirm
  send-held registry batch tick s h some_leaf x n =
      let (t, e, a) =
        build_merkle_tree-verifies pair digest (map (λ p. p.report_hash) batch) some_leaf in
      ((t.root, t.leaf_count) ∷ s.sent, ground (arith, e, x, n))

  run-sends :
      (env : CommitEnv) (registry pk : Hex) (force : Bool) (tick : Tick) (s : Store)
      (u : UnconfirmedBatch)
      → env.gas_wallet_private_key ≡ some pk
      → env.commit_registry_address ≡ some registry
      → s.unconfirmed ≡ some u
      → tick.receipt ≡ none
      → tick.now < u.sent_at + 1_800_000
      → is_ready env force tick.now (find_pending u.batch s.reports) ≡ true
      → run_commit_batch pair env force tick s
        ≡ send pair registry (take env.commit_max_leaves (find_pending u.batch s.reports)) tick s
  unfolding run_commit_batch require_commit_env configure resolve act commit_pending
      unconfirmed_action
  run-sends env registry pk force tick s u p g e r a y =
      let full = ready-length env force tick.now (find_pending u.batch s.reports) y in
      ground (arith, p, g, e, r, a, y, full)

  -- One batch waits for its receipt, and is younger than its deadline, when a run finds other reports
  -- to commit, and its own wait for a receipt misses the deadline too: the batch of that run takes the
  -- place of the first as the held one, and the next query finds the first one's reports again
  -- while their transaction is open. The job is configured, the batch size is not 0, and the pair
  -- hash gives lower-case digests.
  pub run_commit_batch-Overwrites :
      (env : CommitEnv) (registry pk tx_hash : Hex) (force : Bool) (tick : Tick) (s : Store)
      (u : UnconfirmedBatch)
      → env.gas_wallet_private_key ≡ some pk
      → env.commit_registry_address ≡ some registry
      → 0 < env.commit_max_leaves
      → Unique s.reports
      → s.unconfirmed ≡ some u
      → tick.receipt ≡ none
      → tick.now < u.sent_at + 1_800_000
      → is_ready env force tick.now (find_pending u.batch s.reports) ≡ true
      → tick.tx_hash ≡ some tx_hash
      → tick.waited ≡ none
      → Overwrites env tick tx_hash u s (run_commit_batch pair env force tick s)
  run_commit_batch-Overwrites env registry pk tx_hash force tick s u p g m v e r a y x n =
      let pending = find_pending u.batch s.reports in
      let batch = take env.commit_max_leaves pending in
      let full =
        length-batch env.commit_max_leaves pending m (ready-length env force tick.now pending y) in
      let (sent, q) = send-held registry batch tick s tx_hash full x n in
      let apart = (batch-IsPendingIn env.commit_max_leaves u.batch s.reports v).1 in
      subst (Overwrites env tick tx_hash u s)
        (sym (run-sends env registry pk force tick s u p g e r a y ∙ q))
        (refl, refl, refl, refl, requeued u.batch batch s.reports apart)
