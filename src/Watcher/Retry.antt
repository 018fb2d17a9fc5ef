-- ===== src/Watcher/Retry.antt =====
-- apps/worker/src/watcher/retry.ts: retrying a call of the RPC. What the expressions for names and
-- messages say of an error is its first two fields; the third is what the pattern RETRYABLE of
-- apps/worker/src/outcomes/loop.ts says of its message.
pub mod Attempts
pub mod Examples
use tripwire_launch_auditor.Prelude.{
  ℕ, zero, suc, ◌+◌, ◌-◌, ◌*◌, Bool, true, false, not, ◌||◌, Option, none, some, ltb, ◌==◌,
  if◌then◌else◌,
}

pub record Failure : Type 0 where
  pub transient_name : Bool
  pub transient_message : Bool
  pub retryable : Bool

-- What a promise settles to.
pub data Settled {ℓ} (A : Type ℓ) : Type ℓ where
  value : A → Settled A
  failure : Failure → Settled A

unfoldable pub is_transient_rpc_error : Failure → Bool
is_transient_rpc_error e = if e.transient_name then true else e.transient_message

pub record Retried {ℓ} (A : Type ℓ) : Type ℓ where
  pub outcome : Settled A
  pub attempts : ℕ
  pub waited : ℕ

-- `throw lastErr` before any attempt.
abbrev pub undefined_error : Failure
undefined_error = record { transient_name = false; transient_message = false; retryable = false }

module _ {ℓ} {A : Type ℓ} (fn : ℕ → Settled A) (tries delay : ℕ) where
  -- The loop, on the attempts left.
  unfoldable pub attempt_from : ℕ → ℕ → ℕ → Retried A
  attempt_from zero attempt waited = record {
    outcome = failure undefined_error;
    attempts = attempt;
    waited = waited;
  }
  attempt_from (suc left) attempt waited = elim (fn attempt) [
    | value a ↦ record { outcome = value a; attempts = attempt + 1; waited = waited }
    | failure e ↦
        let last = attempt == tries - 1 in
        let again = attempt_from left (attempt + 1) (waited + delay * (attempt + 1)) in
        if not (is_transient_rpc_error e) || last
        then record { outcome = failure e; attempts = attempt + 1; waited = waited }
        else again
  ]

  unfoldable pub with_retry : Retried A
  unfolding attempt_from
  with_retry = attempt_from tries 0 0

-- `withDeadline`: when the promise settles, if it does, and what it settles to.
pub data Raced {ℓ} (A : Type ℓ) : Type ℓ where
  settled : Settled A → Raced A
  deadline_error : Raced A

pub with_deadline {ℓ} : {A : Type ℓ} → Option ℕ → Settled A → ℕ → Raced A
with_deadline none outcome ms = deadline_error
with_deadline (some time) outcome ms = if ltb time ms then settled outcome else deadline_error
