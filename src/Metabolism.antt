-- ===== src/Metabolism.antt =====
-- apps/worker/src/metabolism and the packages/db modules that it shares with the API: the agent's
-- key and its money.
pub mod State
pub mod Lifecycle
pub mod Reconcile
pub mod Budget
pub mod Ledger
pub mod Epoch
