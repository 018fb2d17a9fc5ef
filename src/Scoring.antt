-- ===== src/Scoring.antt =====
-- packages/scoring/src: the scoring package, one module for each source file.
pub mod Outcome
pub mod Eligibility
pub mod Metrics
