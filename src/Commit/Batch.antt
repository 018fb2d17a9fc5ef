-- ===== src/Commit/Batch.antt =====
-- apps/worker/src/commit/job.ts: the tables of reports and commits, the query for the reports that are
-- pending, and the recording of a batch. Text keys of rows that the job creates are numbers. Reads and
-- writes of the database succeed.
pub mod Table
pub mod Query
pub mod Record
use tripwire_launch_auditor.Prelude.{
  ℕ, ◌+◌, ◌*◌, String, ◌=ₛ◌, Bool, true, false, not, ◌&&◌, ◌||◌, Option, none, some, List, [], ◌∷◌,
  ◌++◌, map, length, leb, ltb, take, if◌then◌else◌,
}
use tripwire_launch_auditor.Hex.{Hex, hex_eq, to_lower_case}
use tripwire_launch_auditor.Commit.Merkle.{MerkleTree, build_merkle_tree}

pub record Report : Type 0 where
  pub id : String
  pub report_hash : Hex
  pub created_at : ℕ
  pub validator_passed : Bool
  pub commit_id : Option ℕ
  pub merkle_leaf_hash : Option Hex

pub record PendingReport : Type 0 where
  pub id : String
  pub report_hash : Hex
  pub created_at : ℕ

pub record Leaf : Type 0 where
  pub report_hash : Hex
  -- `none` is `indexOf`'s -1
  pub index : Option ℕ
  pub proof : List Hex

pub record CommitRow : Type 0 where
  pub id : ℕ
  pub merkle_root : Hex
  pub leaf_count : ℕ
  pub leaves : List Leaf
  pub tx_hash : Hex
  pub block_number : ℕ
  pub committed_at : ℕ

pub record UnconfirmedBatch : Type 0 where
  pub tx_hash : Hex
  pub batch : List PendingReport
  pub sent_at : ℕ

-- `batch_id` is set where `decodeEventLog` reads the log as a `BatchCommitted` event.
pub record Log : Type 0 where
  pub address : Hex
  pub batch_id : Option ℕ

pub record Receipt : Type 0 where
  pub success : Bool
  pub block_number : ℕ
  pub logs : List Log

pub record Store : Type 0 where
  pub reports : List Report
  pub commits : List CommitRow
  pub unconfirmed : Option UnconfirmedBatch
  -- the calls of `commitBatch` that the chain accepted: root and leaf count
  pub sent : List (Hex × ℕ)

pub data Reason : Type 0 where
  key_not_set registry_not_set nothing_pending waiting reverted : Reason

pub data CommitResult : Type 0 where
  committed : Option ℕ → Hex → ℕ → Hex → CommitResult
  not_committed : Reason → CommitResult
  thrown : CommitResult

-- The loop over the receipt's logs: the last event of the registry counts.
batch_id_of : Hex → List Log → Option ℕ → Option ℕ
batch_id_of registry [] found = found
batch_id_of registry (log ∷ logs) found =
    let next : Option ℕ = elim log.batch_id [ none ↦ found | some n ↦ some n ] in
    batch_id_of registry logs
      (if hex_eq (to_lower_case log.address) (to_lower_case registry) then next else found)

index_of : Hex → List Hex → Option ℕ
index_of h [] = none
index_of h (x ∷ xs) =
    if hex_eq x h then some 0 else (elim (index_of h xs) [ none ↦ none | some i ↦ some (i + 1) ])

or_empty : Option (List Hex) → List Hex
or_empty none = []
or_empty (some p) = p

pub leaf_of : MerkleTree → PendingReport → Leaf
unfolding index_of or_empty
leaf_of tree r =
    let h = to_lower_case r.report_hash in
    record { report_hash = h; index = index_of h tree.leaves; proof = or_empty (tree.proofs h) }

-- `prisma.report.update` of one report.
pub update : PendingReport → ℕ → List Report → List Report
update p commit_id [] = []
update p commit_id (r ∷ rs) =
    (if r.id =ₛ p.id
      then record r {
        commit_id = some commit_id;
        merkle_leaf_hash = some (to_lower_case p.report_hash);
      }
      else r)
    ∷ update p commit_id rs

pub update_all : List PendingReport → ℕ → List Report → List Report
update_all [] commit_id rs = rs
update_all (p ∷ ps) commit_id rs = update_all ps commit_id (update p commit_id rs)

pub row_of : Store → List PendingReport → MerkleTree → Hex → Receipt → ℕ → CommitRow
unfolding leaf_of
row_of s batch tree tx_hash receipt now = record {
  id = length s.commits;
  merkle_root = tree.root;
  leaf_count = tree.leaf_count;
  leaves = map (leaf_of tree) batch;
  tx_hash = tx_hash;
  block_number = receipt.block_number;
  committed_at = now;
}

-- Both writes. The rows' ids count up from 0.
unfoldable pub record_batch :
    Hex → List PendingReport → MerkleTree → Hex → Receipt → ℕ → Store → CommitResult × Store
unfolding batch_id_of row_of
record_batch registry batch tree tx_hash receipt now s = (
  committed (batch_id_of registry receipt.logs none) tree.root tree.leaf_count tx_hash,
  record s {
    reports = update_all batch (length s.commits) s.reports;
    commits = s.commits ++ row_of s batch tree tx_hash receipt now ∷ [];
  },
)

unfoldable pub contains_id : String → List PendingReport → Bool
contains_id i [] = false
contains_id i (p ∷ ps) = if p.id =ₛ i then true else contains_id i ps

-- `orderBy: { createdAt: 'asc' }`
unfoldable insert_by_age : PendingReport → List PendingReport → List PendingReport
insert_by_age p [] = p ∷ []
insert_by_age p (q ∷ qs) =
    if leb p.created_at q.created_at then p ∷ q ∷ qs else q ∷ insert_by_age p qs

unfoldable pub is_pending : List PendingReport → Report → Bool
unfolding contains_id
is_pending held r =
    r.validator_passed && (elim r.commit_id [ none ↦ not (contains_id r.id held) | some c ↦ false ])

-- The query for the reports to commit, without those of a held batch.
unfoldable pub find_pending : List PendingReport → List Report → List PendingReport
unfolding is_pending insert_by_age
find_pending held [] = []
find_pending held (r ∷ rs) =
    let rest = find_pending held rs in
    if is_pending held r
    then insert_by_age
        (record { id = r.id; report_hash = r.report_hash; created_at = r.created_at }) rest
    else rest
