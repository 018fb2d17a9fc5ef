-- ===== src/Metabolism/State.antt =====
-- apps/worker/src/metabolism/state.ts: the lifecycle of the agent's key.
pub mod Runs
use tripwire_launch_auditor.Prelude.{
  ℕ, Bool, true, false, String, ◌=ₛ◌, Option, none, some, List, [], ◌∷◌, if◌then◌else◌, ◌==◌, ◌&&◌,
  ◌++◌,
}

pub data LifecycleState : Type 0 where
  no_key active draining rotating revoking starved : LifecycleState

pub data LifecycleEvent : Type 0 where
  key_claimed status_ok low_balance hygiene_due drained rotated ids_mismatch phantom_spend revoked
        no_credits credits_returned :
      LifecycleEvent

pub record Transition : Type 0 where
  pub state : LifecycleState
  pub reason : String

abbrev r : LifecycleState → String → Option Transition
r s why = some (record { state = s; reason = why })

-- The switch on the current state, for the events that are handled in it.
switch : LifecycleState → LifecycleEvent → Option Transition
switch no_key key_claimed = r active "claimed a fresh key"
switch no_key no_credits = r starved "no credits to claim a key"
switch no_key e = none
switch active low_balance = r draining "key remaining is low"
switch active drained = r rotating "key drained below reserve"
switch active hygiene_due = r rotating "scheduled key rotation (hygiene)"
switch active no_credits = r starved "balance below the hard reserve — nothing to serve"
switch active status_ok = r active "status ok"
switch active e = none
switch draining drained = r rotating "key drained below reserve"
switch draining hygiene_due = r rotating "scheduled key rotation (hygiene)"
switch draining no_credits = r starved "drained and no credits to rotate into"
switch draining status_ok = r active "balance recovered above the low mark"
switch draining e = none
switch rotating rotated = r active "rotated to a fresh key"
switch rotating key_claimed = r active "rotated to a fresh key"
switch rotating no_credits = r starved "nothing to rotate into"
switch rotating e = none
switch starved credits_returned = r rotating "credits accrued — rotating back in"
switch starved key_claimed = r active "claimed a key after starvation"
switch starved e = none
switch revoking e = none

on_signal : LifecycleState → String → Option Transition
on_signal no_key why = none
on_signal s why = r revoking why

on_revoked : LifecycleState → Option Transition
on_revoked revoking = r no_key "key revoked at provider"
on_revoked s = none

pub next_state : LifecycleState → LifecycleEvent → Option Transition
unfolding switch on_signal on_revoked
next_state s phantom_spend = on_signal s "phantom spend: provider charged with zero local requests"
next_state s ids_mismatch = on_signal s "ids: local ledger vs provider status mismatch"
next_state s revoked = on_revoked s
next_state s e = switch s e

-- An event that does not apply leaves the state.
apply : LifecycleState → Option Transition → LifecycleState
apply s none = s
apply s (some t) = t.state

pub run : LifecycleState → List LifecycleEvent → LifecycleState
unfolding next_state apply
run s [] = s
run s (e ∷ es) = run (apply s (next_state s e)) es
