-- ===== src/Watcher/Retry/Attempts.antt =====
-- Which attempt of a retried call counts.
use tripwire_launch_auditor.Prelude.{
  ℕ, zero, suc, ◌+◌, ◌-◌, ◌*◌, ◌≤◌, ◌<◌, ◌≡◌, ◌⊎◌, inl, inr, refl, true, false, arith, Bool-cases,
  ap, ◌∙◌, subst, dec_lt,
}
use tripwire_launch_auditor.Watcher.Retry.{
  Failure, Settled, value, failure, is_transient_rpc_error, Retried, attempt_from, with_retry,
}

-- The attempt failed, and the error is transient.
abbrev pub FailsForNow {ℓ} : {A : Type ℓ} → Settled A → Type 0
FailsForNow (value a) = ⊥
FailsForNow (failure e) = is_transient_rpc_error e ≡ true

-- The attempt gave a value, or an error that is not transient.
abbrev pub Counts {ℓ} : {A : Type ℓ} → Settled A → Type 0
Counts (value a) = Unit {0}
Counts (failure e) = is_transient_rpc_error e ≡ false

pub Settled-cases {ℓ} :
    {A : Type ℓ} (o : Settled A) → ((a : A) × (o ≡ value a)) ⊎ ((e : Failure) × (o ≡ failure e))
Settled-cases (value a) = inl (a, refl)
Settled-cases (failure e) = inr (e, refl)

waits_step : (d k : ℕ) → d * ((k + 1) * (k + 1 + 1)) ≡ d * (k * (k + 1)) + 2 * (d * (k + 1))
waits_step d k = grind arith

module _ {ℓ} {A : Type ℓ} (fn : ℕ → Settled A) (tries delay : ℕ) where
  -- The loop ends with attempt `k`: the ones before it failed for now, it counts or is the last, and
  -- the waits between are the delay times 1, 2, and so on.
  abbrev pub SettlesAt : ℕ → ℕ → ℕ → Retried A → Type ℓ
  SettlesAt first waited k r =
      (r.outcome ≡ fn k)
      × (r.attempts ≡ k + 1)
      × (2 * r.waited + delay * (first * (first + 1)) ≡ 2 * waited + delay * (k * (k + 1)))
      × ((i : ℕ) → first ≤ i → i < k → FailsForNow (fn i))
      × (Counts (fn k) ⊎ (k + 1 ≡ tries))

  -- The loop ends at once.
  ends_here :
      (first waited : ℕ)
      → first < tries
      → (Counts (fn first) ⊎ (first + 1 ≡ tries))
      → (r : Retried A) → r.outcome ≡ fn first
      → r.attempts ≡ first + 1
      → r.waited ≡ waited
      → (k : ℕ) × (first ≤ k) × (k < tries) × SettlesAt first waited k r
  ends_here first waited h c r o a w =
      (first, omega arith, h, (o, a, omega arith, (λ i p q. absurd (omega arith)), c))

  -- The loop goes on from the next attempt.
  goes_on :
      (first waited : ℕ)
      → FailsForNow (fn first)
      → (r : Retried A)
      → ((k : ℕ) × (first + 1 ≤ k)
          × (k < tries)
          × SettlesAt (first + 1) (waited + delay * (first + 1)) k r)
      → (k : ℕ) × (first ≤ k) × (k < tries) × SettlesAt first waited k r
  goes_on first waited f r (k, lo, hi, (o, a, w, before, c)) = (
    k,
    omega arith,
    hi,
    (
      o,
      a,
      omega (arith, waits_step delay first),
      (λ i p q. elim (dec_lt first i) [
        | yes more ↦ before i (omega arith) q
        | no here ↦ let e : first ≡ i = omega arith in subst (λ j. FailsForNow (fn j)) e f
      ]),
      c,
    ),
  )

  last_attempt :
      (left first waited : ℕ)
      → Counts (fn first) ⊎ (first + 1 ≡ tries)
      → attempt_from fn tries delay (suc left) first waited
        ≡ record { outcome = fn first; attempts = first + 1; waited = waited }
  unfolding attempt_from
  last_attempt left first waited c = elim (Settled-cases (fn first)) [
    | inl (a, e) ↦ ground arith
    | inr (f, e) ↦ elim c [
      | inl never ↦ ground (arith, subst Counts e never)
      | inr last ↦ ground arith
    ]
  ]

  next_attempt :
      (left first waited : ℕ)
      → FailsForNow (fn first)
      → first + 1 < tries
      → attempt_from fn tries delay (suc left) first waited
        ≡ attempt_from fn tries delay left (first + 1) (waited + delay * (first + 1))
  unfolding attempt_from
  next_attempt left first waited c h = elim (Settled-cases (fn first)) [
    | inl (a, e) ↦ absurd (subst FailsForNow e c)
    | inr (f, e) ↦ ground (arith, subst FailsForNow e c)
  ]

  Counts-or : (o : Settled A) → Counts o ⊎ FailsForNow o
  Counts-or (value a) = inl tt
  Counts-or (failure e) = elim (Bool-cases (is_transient_rpc_error e)) [
    | inl t ↦ inr t
    | inr f ↦ inl f
  ]

  attempt_from-Settles :
      (left first waited : ℕ)
      → first + left + 1 ≡ tries
      → (k : ℕ) × (first ≤ k)
        × (k < tries)
        × SettlesAt first waited k (attempt_from fn tries delay (suc left) first waited)
  attempt_from-Settles zero first waited h =
      let c : Counts (fn first) ⊎ (first + 1 ≡ tries) = inr (omega arith) in
      rw (last_attempt zero first waited c)
        (ends_here first waited (omega arith) c _ refl refl refl)
  attempt_from-Settles (suc left) first waited h = elim (Counts-or (fn first)) [
    | inl c ↦
        rw (last_attempt (suc left) first waited (inl c))
          (ends_here first waited (omega arith) (inl c) _ refl refl refl)
    | inr f ↦ rw (next_attempt (suc left) first waited f (omega arith)) (
        goes_on first waited f _
          (attempt_from-Settles left (first + 1) (waited + delay * (first + 1)) (omega arith)))
  ]

  -- A call that is retried makes at most `tries` attempts, if `tries` is not 0, and settles as the
  -- first that gives a value or an error that is not transient, or else as the last; the attempts
  -- before it all failed with transient errors, and the waits between them were the delay times 1,
  -- 2, and so on.
  pub with_retry-Settles :
      0 < tries
      → let r = with_retry fn tries delay in
        (r.attempts ≤ tries)
        × ((k : ℕ) × (k < tries)
            × (r.outcome ≡ fn k)
            × (r.attempts ≡ k + 1)
            × (2 * r.waited ≡ delay * (k * (k + 1)))
            × ((i : ℕ) → i < k → FailsForNow (fn i))
            × (Counts (fn k) ⊎ (k + 1 ≡ tries)))
  unfolding with_retry
  with_retry-Settles h =
      let e : tries ≡ suc (tries - 1) = omega arith in
      let (k, lo, hi, (o, a, w, before, c)) = attempt_from-Settles (tries - 1) 0 0 (omega arith) in
      let same = ap (λ (n : ℕ). attempt_from fn tries delay n 0 0) e in
      (
        omega (arith, a, ap Retried.attempts same),
        (
          k,
          hi,
          ap Retried.outcome same ∙ o,
          omega (arith, a, ap Retried.attempts same),
          omega (arith, w, ap Retried.waited same),
          (λ i q. before i (omega arith) q),
          c,
        ),
      )
