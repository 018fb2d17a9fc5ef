-- ===== src/Commit.antt =====
-- apps/worker/src/commit: batching report hashes under a Merkle root.
pub mod Merkle
pub mod Sample
pub mod Batch
pub mod Job
pub mod Artifacts
