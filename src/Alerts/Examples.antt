-- ===== src/Alerts/Examples.antt =====
-- Three ticks over which the commit lag comes and goes.
use tripwire_launch_auditor.Prelude.{◌≡◌, false, none, some, List, [], ◌∷◌}
use tripwire_launch_auditor.Alerts.{LastBad, commit_lag}
use tripwire_launch_auditor.Alerts.Edges.{
  Reading, messages_about, run_ticks, edges, values, run_ticks-edges,
}

abbrev commit_long_ago : Reading
commit_long_ago = record {
  now = 1_000_000;
  lifecycle = none;
  phantom = false;
  commit_at = some 0;
  watcher_at = none;
}

abbrev three_ticks : List Reading
three_ticks =
    commit_long_ago ∷ record commit_long_ago { commit_at = some 900_000 } ∷ commit_long_ago ∷ []

abbrev all_good : LastBad
all_good k = false

run_ticks-edges_example :
    messages_about commit_lag (run_ticks 600 300 three_ticks all_good)
    ≡ edges commit_lag false (values 600 300 commit_lag three_ticks)
run_ticks-edges_example = run_ticks-edges 600 300 three_ticks commit_lag all_good
