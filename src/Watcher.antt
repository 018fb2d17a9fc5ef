-- ===== src/Watcher.antt =====
-- apps/worker/src/watcher and packages/chain: reading the chain.
pub mod Freshness
pub mod Logs
pub mod Retry
pub mod Cluster
pub mod PrimaryPool
pub mod Poller
