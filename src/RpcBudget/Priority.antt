-- ===== src/RpcBudget/Priority.antt =====
-- packages/rpc-budget/src/priorities.ts: the tiers; a lower number drains first.
use tripwire_launch_auditor.Prelude.{ℕ}

abbrev pub watcher : ℕ
watcher = 0

abbrev pub commit : ℕ
commit = 1

abbrev pub outcomes : ℕ
outcomes = 2

abbrev pub deepdive : ℕ
deepdive = 3

abbrev pub backfill : ℕ
backfill = 4
