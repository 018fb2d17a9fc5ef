-- ===== src/RpcBudget.antt =====
-- packages/rpc-budget/src: one budget of RPC requests, shared by priority.
pub mod Priority
pub mod PriorityQueue
pub mod TokenBucket
pub mod Scheduler
pub mod ResponseCache
pub mod Examples
