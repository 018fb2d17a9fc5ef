-- ===== src/Alerts.antt =====
-- apps/worker/src/alerts.ts: the alerts of one tick, and the messages at their edges. The readers'
-- answers are arguments; a message is its key and its kind. Ages are compared in milliseconds.
pub mod Edges
pub mod Examples
use tripwire_launch_auditor.Prelude.{
  ℕ, ◌+◌, ◌*◌, String, ◌=ₛ◌, Bool, true, false, not, ◌&&◌, ◌||◌, Option, none, some, List, [], ◌∷◌,
  ◌++◌, ltb, if◌then◌else◌,
}

pub data AlertKey : Type 0 where
  starved ids_trip commit_lag watcher_stalled : AlertKey

pub record AlertCheck : Type 0 where
  pub key : AlertKey
  pub bad : Bool

pub record Lifecycle : Type 0 where
  pub new_state : String
  pub ids_mismatch : Bool

is_older : ℕ → Option ℕ → ℕ → Bool
is_older now none limit_sec = false
is_older now (some at_time) limit_sec = ltb (at_time + limit_sec * 1000) now

is_starved : Option Lifecycle → Bool
is_starved none = false
is_starved (some l) = l.new_state =ₛ "STARVED"

has_mismatch : Option Lifecycle → Bool
has_mismatch none = false
has_mismatch (some l) = l.ids_mismatch

pub evaluate_alerts : ℕ → ℕ → ℕ → Option Lifecycle → Bool → Option ℕ → Option ℕ → List AlertCheck
unfolding is_older is_starved has_mismatch
evaluate_alerts now commit_lag_sec watcher_stalled_sec lifecycle phantom commit_at watcher_at =
    record { key = starved; bad = is_starved lifecycle }
    ∷ record { key = ids_trip; bad = has_mismatch lifecycle || phantom }
    ∷ record { key = commit_lag; bad = is_older now commit_at commit_lag_sec }
    ∷ record { key = watcher_stalled; bad = is_older now watcher_at watcher_stalled_sec }
    ∷ []

pub same_key : AlertKey → AlertKey → Bool
same_key starved starved = true
same_key ids_trip ids_trip = true
same_key commit_lag commit_lag = true
same_key watcher_stalled watcher_stalled = true
same_key a b = false

-- `lastBad`, with false for a key that is not set.
abbrev pub LastBad : Type 0
LastBad = AlertKey → Bool

pub data Message : Type 0 where
  alarms recovers : AlertKey → Message

set_last : AlertKey → Bool → LastBad → LastBad
unfolding same_key
set_last key bad last k = if same_key k key then bad else last k

pub edge : AlertKey → Bool → Bool → List Message
edge key true false = alarms key ∷ []
edge key false true = recovers key ∷ []
edge key true true = []
edge key false false = []

pub apply_alert_transitions : List AlertCheck → LastBad → List Message × LastBad
unfolding edge set_last
apply_alert_transitions [] last = ([], last)
apply_alert_transitions (c ∷ cs) last =
    let (messages, last') = apply_alert_transitions cs (set_last c.key c.bad last) in
    (edge c.key c.bad (last c.key) ++ messages, last')
