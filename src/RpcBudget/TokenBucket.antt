-- ===== src/RpcBudget/TokenBucket.antt =====
-- packages/rpc-budget/src/token-bucket.ts. The scheduler sets `refillPerSec` to rpm / 60, so in
-- units of 1/60000 of a token every elapsed millisecond adds `rpm` units, and all values are whole
-- numbers. The clock is an argument. The tolerance of 1e-9 tokens is less than a unit and decides
-- no test on whole units.
pub mod Rate
use tripwire_launch_auditor.Prelude.{
  ℕ, ◌+◌, ◌-◌, ◌*◌, ◌/◌, Bool, true, false, Option, none, some, ltb, leb, min, ◌==◌, if◌then◌else◌,
}

abbrev pub unit : ℕ
unit = 60_000

pub record TokenBucket : Type 0 where
  pub capacity : ℕ
  pub rpm : ℕ
  -- in units
  pub tokens : ℕ
  pub last : ℕ

-- The constructor; `none` is one of its two errors.
unfoldable pub new_token_bucket : ℕ → ℕ → ℕ → Option TokenBucket
new_token_bucket capacity rpm now =
    if capacity == 0
    then none
    else if rpm == 0
    then none
    else some (record { capacity = capacity; rpm = rpm; tokens = capacity * unit; last = now })

unfoldable pub refill : TokenBucket → ℕ → TokenBucket
refill b t =
    if leb t b.last
    then b
    else record b { tokens = min (b.capacity * unit) (b.tokens + (t - b.last) * b.rpm); last = t }

take_tokens : TokenBucket → ℕ → Bool × TokenBucket
take_tokens b n =
    if leb (n * unit) b.tokens
    then (true, record b { tokens = b.tokens - n * unit })
    else (false, b)

unfoldable pub try_take : TokenBucket → ℕ → ℕ → Bool × TokenBucket
unfolding refill take_tokens
try_take b now n = take_tokens (refill b now) n

ceil_div : ℕ → ℕ → ℕ
ceil_div a b = (a + (b - 1)) / b

wait_of : TokenBucket → ℕ → ℕ
unfolding ceil_div
wait_of b n = if leb (n * unit) b.tokens then 0 else ceil_div (n * unit - b.tokens) b.rpm

unfoldable pub ms_until_available : TokenBucket → ℕ → ℕ → ℕ × TokenBucket
unfolding refill wait_of
ms_until_available b now n = let b' = refill b now in (wait_of b' n, b')

pub available : TokenBucket → ℕ → ℕ × TokenBucket
unfolding refill
available b now = let b' = refill b now in (b'.tokens, b')
