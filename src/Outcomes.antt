-- ===== src/Outcomes.antt =====
-- apps/worker/src/outcomes: resolving what became of a launch.
pub mod BlockTime
pub mod Insider
pub mod Series
pub mod Digits
pub mod Quote
pub mod Resolvers
pub mod Rows
pub mod Sweep
pub mod Resolve
