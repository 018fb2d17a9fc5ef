-- ===== src/Watcher/Poller/Progress.antt =====
-- A stalled poller moves on.
use tripwire_launch_auditor.Watcher.Poller.{Poller}
