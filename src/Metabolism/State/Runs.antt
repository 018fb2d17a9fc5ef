-- ===== src/Metabolism/State/Runs.antt =====
-- Sequences of events.
use tripwire_launch_auditor.Prelude.{
  ◌≡◌, ◌≢◌, refl, ap, ◌∙◌, ◌++◌, ◌⊎◌, some, List, [], ◌∷◌, All, arith,
}
use tripwire_launch_auditor.Metabolism.State.{
  LifecycleState, LifecycleEvent, Transition, no_key, active, draining, rotating, revoking, starved,
  key_claimed, status_ok, low_balance, hygiene_due, drained, rotated, ids_mismatch, phantom_spend,
  revoked, no_credits, credits_returned, next_state, run, apply, switch, on_signal, on_revoked,
}

run_revoking : (es : List LifecycleEvent) → All (λ e. e ≢ revoked) es → run revoking es ≡ revoking
unfolding run apply next_state on_signal on_revoked switch
run_revoking [] h = refl
run_revoking (key_claimed ∷ es) h = run_revoking es h.1
run_revoking (status_ok ∷ es) h = run_revoking es h.1
run_revoking (low_balance ∷ es) h = run_revoking es h.1
run_revoking (hygiene_due ∷ es) h = run_revoking es h.1
run_revoking (drained ∷ es) h = run_revoking es h.1
run_revoking (rotated ∷ es) h = run_revoking es h.1
run_revoking (ids_mismatch ∷ es) h = run_revoking es h.1
run_revoking (phantom_spend ∷ es) h = run_revoking es h.1
run_revoking (revoked ∷ es) h = absurd (h.0 refl)
run_revoking (no_credits ∷ es) h = run_revoking es h.1
run_revoking (credits_returned ∷ es) h = run_revoking es h.1

-- After phantom spend in a state other than NO_KEY, and as long as no revocation is confirmed, the
-- key stays in REVOKING, whatever else happens.
pub run-phantom_spend :
    (s : LifecycleState) (es : List LifecycleEvent)
    → s ≢ no_key
    → All (λ e. e ≢ revoked) es
    → run s (phantom_spend ∷ es) ≡ revoking
unfolding run apply next_state on_signal
run-phantom_spend no_key es h a = absurd (h refl)
run-phantom_spend active es h a = run_revoking es a
run-phantom_spend draining es h a = run_revoking es a
run-phantom_spend rotating es h a = run_revoking es a
run-phantom_spend revoking es h a = run_revoking es a
run-phantom_spend starved es h a = run_revoking es a

run-append :
    (s : LifecycleState) (xs ys : List LifecycleEvent) → run s (xs ++ ys) ≡ run (run s xs) ys
unfolding run
run-append s [] ys = refl
run-append s (x ∷ xs) ys = run-append (apply s (next_state s x)) xs ys

to_active : (s : LifecycleState) → (es : List LifecycleEvent) × (run s es ≡ active)
unfolding run apply next_state on_revoked switch
to_active no_key = (key_claimed ∷ [], refl)
to_active active = ([], refl)
to_active draining = (status_ok ∷ [], refl)
to_active rotating = (rotated ∷ [], refl)
to_active revoking = (revoked ∷ key_claimed ∷ [], refl)
to_active starved = (key_claimed ∷ [], refl)

from_active : (s : LifecycleState) → (es : List LifecycleEvent) × (run active es ≡ s)
unfolding run apply next_state on_revoked on_signal switch
from_active no_key = (phantom_spend ∷ revoked ∷ [], refl)
from_active active = ([], refl)
from_active draining = (low_balance ∷ [], refl)
from_active rotating = (drained ∷ [], refl)
from_active revoking = (phantom_spend ∷ [], refl)
from_active starved = (no_credits ∷ [], refl)

-- No state is a trap: some events lead from every state to every other.
pub run-reaches : (s t : LifecycleState) → (es : List LifecycleEvent) × (run s es ≡ t)
run-reaches s t =
    let (xs, p) = to_active s in
    let (ys, q) = from_active t in (xs ++ ys, run-append s xs ys ∙ ap (λ x. run x ys) p ∙ q)

-- ACTIVE is entered only with a claimed key, with a finished rotation, or from DRAINING when the
-- balance has recovered.
pub next_state-active :
    (s : LifecycleState) (e : LifecycleEvent) (t : Transition)
    → next_state s e ≡ some t
    → t.state ≡ active
    → s ≢ active
    → (e ≡ key_claimed) ⊎ ((e ≡ rotated) × (s ≡ rotating)) ⊎ ((e ≡ status_ok) × (s ≡ draining))
unfolding next_state on_revoked on_signal switch
next_state-active s e t h a d = ground arith
