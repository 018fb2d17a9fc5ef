-- ===== src/RpcBudget/TokenBucket/Rate.antt =====
-- The rate that the bucket enforces, and the waits that it announces.
use tripwire_launch_auditor.Prelude.{
  ℕ, ◌+◌, ◌-◌, ◌*◌, ◌≤◌, ◌<◌, ◌≡◌, refl, ap, subst, Bool, true, false, List, [], ◌∷◌, arith,
}
use native.Mathlib.Nat.{mul-le-mul_right}
use tripwire_launch_auditor.RpcBudget.TokenBucket.{
  TokenBucket, unit, refill, take_tokens, try_take, ms_until_available, wait_of, ceil_div,
}

-- The bucket never holds more than its capacity.
abbrev pub IsWithin : TokenBucket → Type 0
IsWithin b = b.tokens ≤ b.capacity * unit

-- The units that a call of `tryTake(n)` hands out.
abbrev pub granted : Bool → ℕ → ℕ
granted true n = n * unit
granted false n = 0

ceil_div_lem : (a b : ℕ) → 0 < b → (a ≤ ceil_div a b * b) × (ceil_div a b * b ≤ a + (b - 1))
unfolding ceil_div
ceil_div_lem a b h = omega arith

-- A schedule of calls `tryTake(n)`, each with the clock's reading; the units handed out in all.
pub run_takes : TokenBucket → List (ℕ × ℕ) → ℕ × TokenBucket
run_takes b [] = (0, b)
run_takes b ((t, n) ∷ calls) =
    let (done, b') = try_take b t n in
    let (total, b'') = run_takes b' calls in (granted done n + total, b'')

later : (a v c : ℕ) → (a + v - a) * c ≡ v * c
later a v c = let e : a + v - a ≡ v = omega arith in ap (λ (x : ℕ). x * c) e

refill_now :
    (b : TokenBucket) (t : ℕ)
    → b.last ≤ t
    → ((refill b t).last ≡ t) × ((refill b t).capacity ≡ b.capacity) × ((refill b t).rpm ≡ b.rpm)
unfolding refill
refill_now b t l = ground arith

wait_enough :
    (b : TokenBucket) (n : ℕ)
    → 0 < b.rpm
    → n ≤ b.capacity
    → (try_take b (b.last + wait_of b n) n).0 ≡ true
unfolding try_take take_tokens refill wait_of
wait_enough b n r c = ground (
  arith,
  ceil_div_lem (n * unit - b.tokens) b.rpm r,
  later b.last (ceil_div (n * unit - b.tokens) b.rpm) b.rpm,
)

before : (v w c : ℕ) → v < w → v * c + c ≤ w * c
before v w c h = let e : (v + 1) * c ≤ w * c = mul-le-mul_right c (omega arith) in omega arith

wait_least :
    (b : TokenBucket) (n v : ℕ)
    → 0 < b.rpm
    → v < wait_of b n
    → (try_take b (b.last + v) n).0 ≡ false
unfolding try_take take_tokens refill wait_of
wait_least b n v r h = ground (
  arith,
  ceil_div_lem (n * unit - b.tokens) b.rpm r,
  later b.last v b.rpm,
  before v (ceil_div (n * unit - b.tokens) b.rpm) b.rpm,
)

ms_parts :
    (b : TokenBucket) (t n : ℕ) → ms_until_available b t n ≡ (wait_of (refill b t) n, refill b t)
unfolding ms_until_available
ms_parts b t n = refl

-- The announced wait is exact: a request for no more than the capacity is granted when it has
-- passed, and at no earlier millisecond, if nothing else takes tokens meanwhile.
pub ms_until_available_exact :
    (b : TokenBucket) (t n : ℕ)
    → 0 < b.rpm
    → n ≤ b.capacity
    → b.last ≤ t
    → let (w, b') = ms_until_available b t n in
      ((try_take b' (t + w) n).0 ≡ true) × ((v : ℕ) → v < w → (try_take b' (t + v) n).0 ≡ false)
ms_until_available_exact b t n r c l =
    let b' : TokenBucket = refill b t in
    let (at, cap, rate) = refill_now b t l in
    rw (ms_parts b t n) (
      subst (λ s. (try_take b' (s + wait_of b' n) n).0 ≡ true) at
          (wait_enough b' n (rw rate r) (rw cap c)),
      λ v h. subst (λ s. (try_take b' (s + v) n).0 ≡ false) at (wait_least b' n v (rw rate r) h),
    )
