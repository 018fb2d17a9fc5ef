-- ===== src/Outcomes/Digits.antt =====
-- Whether the decimal digits of a number have 429 among them, which the expressions for transient errors
-- find in a text that names the number.
use tripwire_launch_auditor.Prelude.{
  ℕ, zero, suc, ◌/◌, ◌%◌, ◌≤◌, ◌≡◌, refl, Bool, true, false, ◌||◌, ◌==◌, arith, Bool-cases, ap, inl,
  inr,
}

-- On fuel; a number has fewer digits than it counts.
unfoldable pub has_429 : ℕ → ℕ → Bool
has_429 zero n = false
has_429 (suc fuel) n = elim (n == 0) [
  | true ↦ false
  | false ↦ (n % 1000 == 429) || has_429 fuel (n / 10)
]

pub says_429 : ℕ → Bool
unfolding has_429
says_429 n = has_429 n n

-- More fuel than the number changes nothing.
has_429_enough : (fuel n : ℕ) → n ≤ fuel → has_429 (suc fuel) n ≡ has_429 fuel n
unfolding has_429
has_429_enough zero n h = let e : n ≡ 0 = omega (arith, h) in rw e refl
has_429_enough (suc fuel) n h = elim (Bool-cases (n == 0)) [
  | inl e ↦ rw (e, has_429) refl
  | inr e ↦
      let ih = has_429_enough fuel (n / 10) (ground (arith, h, e)) in
      rw (e, has_429) (ap (λ b. (n % 1000 == 429) || b) ih)
]
