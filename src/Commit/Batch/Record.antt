-- ===== src/Commit/Batch/Record.antt =====
-- What `recordBatch` writes: a row whose leaves verify, to which the batch's reports point.
use tripwire_launch_auditor.Prelude.{
  ℕ, zero, suc, ◌≡◌, refl, sym, subst, ◌∙◌, inl, inr, ◌=ₛ◌, eq_iff, true, some, List, [], ◌∷◌, ◌++◌,
  All, map, length, get_elem?, Bool-cases,
}
use tripwire_launch_auditor.Hex.{Hex, to_lower_case}
use tripwire_launch_auditor.Commit.Merkle.{MerkleTree, verify_proof}
use tripwire_launch_auditor.Commit.Merkle.Verifies.{Accepted, verify_proof-lower}
use tripwire_launch_auditor.Commit.Batch.{
  Report, PendingReport, CommitRow, Leaf, Receipt, Store, update, update_all, row_of, leaf_of,
  or_empty,
}
use tripwire_launch_auditor.Commit.Batch.Table.{IsOpenIn, update-IsOpenIn_all}

module _ (pair : Hex → Hex → Hex) where
  -- The row has a leaf for the report hash, with a proof that the verifier accepts.
  abbrev pub Proves : CommitRow → Hex → Type 0
  Proves row h =
      (i : ℕ) × (l : Leaf) × (get_elem? row.leaves i ≡ some l)
      × (l.report_hash ≡ to_lower_case h)
      × (verify_proof pair l.report_hash l.proof row.merkle_root ≡ true)

  -- Row `c` of the table proves the report hash.
  abbrev pub Anchored : List CommitRow → ℕ → Hex → Type 0
  Anchored rows c h = (row : CommitRow) × (get_elem? rows c ≡ some row) × Proves row h

  -- Every report with a commit is anchored by that commit.
  abbrev pub Links : List CommitRow → List Report → Type 0
  Links rows = All (λ r. (c : ℕ) → r.commit_id ≡ some c → Anchored rows c r.report_hash)

  leaf_of-verifies :
      (t : MerkleTree) (p : PendingReport)
      → Accepted pair t p.report_hash
      → verify_proof pair (leaf_of t p).report_hash (leaf_of t p).proof t.root ≡ true
  unfolding leaf_of or_empty
  leaf_of-verifies t p (proof, e, v) = rw e (verify_proof-lower pair p.report_hash proof t.root ∙ v)

  -- Every leaf of the list that is built stands in it, behind the ones before.
  leaves-get :
      (t : MerkleTree) (ps : List PendingReport)
      → All (Accepted pair t) (map (λ p. p.report_hash) ps)
      → All
          (λ p.
            (i : ℕ) × (l : Leaf) × (get_elem? (map (leaf_of t) ps) i ≡ some l)
            × (l.report_hash ≡ to_lower_case p.report_hash)
            × (verify_proof pair l.report_hash l.proof t.root ≡ true))
          ps
  unfolding leaf_of
  leaves-get t [] h = tt
  leaves-get t (p ∷ ps) h =
      ((0, leaf_of t p, refl, refl, leaf_of-verifies t p h.0), later ps (leaves-get t ps h.1))
    where
      later :
          (qs : List PendingReport)
          → All
              (λ p.
                (i : ℕ) × (l : Leaf) × (get_elem? (map (leaf_of t) ps) i ≡ some l)
                × (l.report_hash ≡ to_lower_case p.report_hash)
                × (verify_proof pair l.report_hash l.proof t.root ≡ true))
              qs
          → All
              (λ q.
                (i : ℕ) × (l : Leaf) × (get_elem? (map (leaf_of t) (p ∷ ps)) i ≡ some l)
                × (l.report_hash ≡ to_lower_case q.report_hash)
                × (verify_proof pair l.report_hash l.proof t.root ≡ true))
              qs
      later [] k = tt
      later (q ∷ qs) ((i, l, e, f, v), k) = ((suc i, l, e, f, v), later qs k)

  get_last :
      (rows : List CommitRow) (row : CommitRow)
      → get_elem? (rows ++ row ∷ []) (length rows) ≡ some row
  get_last [] row = refl
  get_last (r ∷ rows) row = get_last rows row

  get_earlier :
      (rows more : List CommitRow) (c : ℕ) (row : CommitRow)
      → get_elem? rows c ≡ some row
      → get_elem? (rows ++ more) c ≡ some row
  get_earlier [] more c row e = cc
  get_earlier (r ∷ rows) more zero row e = e
  get_earlier (r ∷ rows) more (suc c) row e = get_earlier rows more c row e

  Links-more :
      (rows more : List CommitRow) (rs : List Report) → Links rows rs → Links (rows ++ more) rs
  Links-more rows more [] h = tt
  Links-more rows more (r ∷ rs) h = (
    λ c e. let (row, g, p) = h.0 c e in (row, get_earlier rows more c row g, p),
    Links-more rows more rs h.1,
  )

  update-Links :
      (p : PendingReport) (c : ℕ) (rows : List CommitRow) (rs : List Report)
      → Anchored rows c p.report_hash
      → IsOpenIn c rs p
      → Links rows rs
      → Links rows (update p c rs)
  unfolding update
  update-Links p c rows [] a o h = tt
  update-Links p c rows (r ∷ rs) a o h = elim (Bool-cases (r.id =ₛ p.id)) [
    | inl e ↦ rw e (
      λ d q.
          let same : c ≡ d = cc in
          let hash : p.report_hash ≡ r.report_hash = sym (o.0 ((eq_iff r.id p.id).0 e)).1 in
          subst (λ n. Anchored rows n r.report_hash) same (subst (Anchored rows c) hash a),
      update-Links p c rows rs a o.1 h.1,
    )
    | inr e ↦ rw e (h.0, update-Links p c rows rs a o.1 h.1)
  ]

  update_all-Links :
      (ps : List PendingReport) (c : ℕ) (rows : List CommitRow) (rs : List Report)
      → All (λ p. Anchored rows c p.report_hash) ps
      → All (IsOpenIn c rs) ps
      → Links rows rs
      → Links rows (update_all ps c rs)
  unfolding update_all
  update_all-Links [] c rows rs a o h = h
  update_all-Links (p ∷ ps) c rows rs a o h =
      update_all-Links ps c rows (update p c rs) a.1 (update-IsOpenIn_all p ps c rs o.1)
        (update-Links p c rows rs a.0 o.0 h)

  all-Anchored :
      (s : Store) (row : CommitRow) (ps : List PendingReport)
      → All (λ p. Proves row p.report_hash) ps
      → All (λ p. Anchored (s.commits ++ row ∷ []) (length s.commits) p.report_hash) ps
  all-Anchored s row [] h = tt
  all-Anchored s row (p ∷ ps) h = ((row, get_last s.commits row, h.0), all-Anchored s row ps h.1)

  -- After both writes every report with a commit is anchored, the batch's among them.
  pub record-Links :
      (s : Store) (batch : List PendingReport) (t : MerkleTree) (tx_hash : Hex) (r : Receipt)
      (now : ℕ)
      → All (Accepted pair t) (map (λ p. p.report_hash) batch)
      → All (IsOpenIn (length s.commits) s.reports) batch
      → Links s.commits s.reports
      → Links
          (s.commits ++ row_of s batch t tx_hash r now ∷ [])
          (update_all batch (length s.commits) s.reports)
  unfolding row_of
  record-Links s batch t tx_hash r now a o h =
      let row : CommitRow = row_of s batch t tx_hash r now in
      update_all-Links batch (length s.commits) (s.commits ++ row ∷ []) s.reports
        (all-Anchored s row batch (leaves-get t batch a)) o
        (Links-more s.commits (row ∷ []) s.reports h)
