-- ===== src/Commit/Job/Steps.antt =====
-- What the steps of one run keep, up to the wait for a receipt.
use tripwire_launch_auditor.Prelude.{
  ℕ, ◌≡◌, subst, Option, none, some, List, [], ◌∷◌, All, map, length, arith, if◌then◌else◌,
  if_intro, option_intro,
}
use tripwire_launch_auditor.Hex.{Hex}
use tripwire_launch_auditor.Commit.Merkle.{MerkleTree, build_merkle_tree}
use tripwire_launch_auditor.Commit.Merkle.Fold.{IsLower}
use tripwire_launch_auditor.Commit.Merkle.Verifies.{Accepted, build_merkle_tree-verifies}
use tripwire_launch_auditor.Commit.Batch.{
  PendingReport, UnconfirmedBatch, Receipt, Store, CommitResult, not_committed, thrown, reverted,
  record_batch, update_all,
}
use tripwire_launch_auditor.Commit.Job.{Tick, confirm, send}
use tripwire_launch_auditor.Commit.Batch.Table.{
  Unique, IsPendingIn, Keeps, Keeps-refl, Keeps-Unique, Apart, all_open, update_all-Keeps,
  update_all-held,
}
use tripwire_launch_auditor.Commit.Batch.Record.{Links, record-Links}

abbrev pub held_of : Option UnconfirmedBatch → List PendingReport
held_of none = []
held_of (some u) = u.batch

module _ (pair : Hex → Hex → Hex) where
  -- Report ids are keys, every recorded commit of a report proves it, and the reports of the held
  -- batch are still without one.
  abbrev pub IsSafe : Store → Type 0
  IsSafe s =
      Unique s.reports
      × Links pair s.commits s.reports
      × All (IsPendingIn s.reports) (held_of s.unconfirmed)

  -- The state after is safe, and has every report of before with the commit that it had.
  abbrev pub Follows : Store → Store → Type 0
  Follows s t = IsSafe t × Keeps s.reports t.reports

module _ (pair : Hex → Hex → Hex) (digest : (a b : Hex) → IsLower (pair a b)) where
  build-Accepted :
      (leaves : List Hex) (t : MerkleTree)
      → build_merkle_tree pair leaves ≡ some t
      → All (Accepted pair t) leaves
  build-Accepted [] t e = tt
  build-Accepted (l ∷ ls) t e =
      let (t', q, a) = build_merkle_tree-verifies pair digest (l ∷ ls) (omega arith) in
      let same : t' ≡ t = cc in subst (λ x. All (Accepted pair x) (l ∷ ls)) same a

  pub record_batch-Follows :
      (registry : Hex) (batch : List PendingReport) (t : MerkleTree) (tx_hash : Hex) (r : Receipt)
      (now : ℕ) (s : Store)
      → build_merkle_tree pair (map (λ p. p.report_hash) batch) ≡ some t
      → All (IsPendingIn s.reports) batch
      → Apart (held_of s.unconfirmed) batch
      → IsSafe pair s
      → Follows pair s (record_batch registry batch t tx_hash r now s).1
  unfolding record_batch
  record_batch-Follows registry batch t tx_hash r now s e b a (unique, links, held) =
      let open_ = all_open (length s.commits) s.reports batch b in
      let keeps = update_all-Keeps batch (length s.commits) s.reports open_ in
      (
        (
          Keeps-Unique s.reports (update_all batch (length s.commits) s.reports) keeps unique,
          record-Links pair s batch t tx_hash r now
              (build-Accepted (map (λ p. p.report_hash) batch) t e) open_ links,
          update_all-held batch (held_of s.unconfirmed) (length s.commits) s.reports a held,
        ),
        keeps,
      )

  confirm-Follows :
      (registry : Hex) (batch : List PendingReport) (t : MerkleTree) (tx_hash : Hex) (tick : Tick)
      (s : Store)
      → build_merkle_tree pair (map (λ p. p.report_hash) batch) ≡ some t
      → All (IsPendingIn s.reports) batch
      → Apart (held_of s.unconfirmed) batch
      → IsSafe pair s
      → Follows pair s (confirm pair registry batch t tx_hash tick s).1
  unfolding confirm
  confirm-Follows registry batch t tx_hash tick s e b a v =
      option_intro (λ (x : CommitResult × Store). Follows pair s x.1) tick.waited
        (
          thrown,
          record s {
            unconfirmed =
                some (record { tx_hash = tx_hash; batch = batch; sent_at = tick.sent_at });
          },
        )
        (λ r.
          if r.success
          then record_batch registry batch t tx_hash r tick.now s
          else (not_committed reverted, s))
        (λ q. ((v.0, v.1, b), Keeps-refl s.reports))
        (λ r q.
          if_intro (λ (x : CommitResult × Store). Follows pair s x.1) r.success
            (record_batch registry batch t tx_hash r tick.now s) (not_committed reverted, s)
            (λ y. record_batch-Follows registry batch t tx_hash r tick.now s e b a v)
            (λ y. (v, Keeps-refl s.reports)))

  pub send-Follows :
      (registry : Hex) (batch : List PendingReport) (tick : Tick) (s : Store)
      → All (IsPendingIn s.reports) batch
      → Apart (held_of s.unconfirmed) batch
      → IsSafe pair s
      → Follows pair s (send pair registry batch tick s).1
  unfolding send
  send-Follows registry batch tick s b a v =
      option_intro (λ (x : CommitResult × Store). Follows pair s x.1)
        (build_merkle_tree pair (map (λ p. p.report_hash) batch)) (thrown, s)
        (λ t. elim tick.tx_hash [
          | none ↦ (thrown, s)
          | some h ↦
              confirm pair registry batch t h tick
                (record s { sent = (t.root, t.leaf_count) ∷ s.sent })
        ])
        (λ q. (v, Keeps-refl s.reports))
        (λ t e.
          option_intro (λ (x : CommitResult × Store). Follows pair s x.1) tick.tx_hash (thrown, s)
            (λ h.
              confirm pair registry batch t h tick
                (record s { sent = (t.root, t.leaf_count) ∷ s.sent }))
            (λ q. (v, Keeps-refl s.reports))
            (λ h q.
              confirm-Follows registry batch t h tick
                (record s { sent = (t.root, t.leaf_count) ∷ s.sent }) e b a v))
