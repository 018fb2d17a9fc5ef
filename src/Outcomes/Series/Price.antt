-- ===== src/Outcomes/Series/Price.antt =====
-- The prices of packages/chain/src/uniswap-events.ts, and the price that a log gives.
use tripwire_launch_auditor.Prelude.{
  ℕ, ◌*◌, ◌/◌, ◌^◌, Bool, true, false, ◌||◌, Option, none, some, List, [], ◌∷◌, ltb, ◌==◌,
  if◌then◌else◌,
}
use tripwire_launch_auditor.Outcomes.Series.{
  PoolKind, Log, v4_swap_log, v3_swap_log, sync_log, v2, v3, v4,
}

-- A price `num / den`.
pub record Price : Type 0 where
  pub num : ℕ
  pub den : ℕ

abbrev pub price_zero : Price
price_zero = record { num = 0; den = 1 }

-- `a < b`
unfoldable pub price_lt : Price → Price → Bool
price_lt a b = ltb (a.num * b.den) (b.num * a.den)

-- The integer that is divided by 1e18.
unfoldable pub scaled_price : ℕ → ℕ
scaled_price sqrt_price = sqrt_price * sqrt_price * 10 ^ 18 / (2 ^ 96 * 2 ^ 96)

unfoldable pub token_price_in_quote : ℕ → Bool → Price
token_price_in_quote sqrt_price true = record { num = scaled_price sqrt_price; den = 10 ^ 18 }
token_price_in_quote sqrt_price false =
    if ltb 0 (scaled_price sqrt_price)
    then record { num = 10 ^ 18; den = scaled_price sqrt_price }
    else price_zero

pub record PricePoint : Type 0 where
  pub block : ℕ
  pub price : Price

-- `v.map(decode).filter(...)`, by one log.
unfoldable pub price_point : PoolKind → Bool → Log → Option PricePoint
unfolding token_price_in_quote
price_point v4 c0 (v4_swap_log b s) =
    if s == 0 then none else some (record { block = b; price = token_price_in_quote s c0 })
price_point v3 c0 (v3_swap_log b s) =
    if s == 0 then none else some (record { block = b; price = token_price_in_quote s c0 })
price_point v2 c0 (sync_log b r0 r1) =
    if (r0 == 0) || (r1 == 0)
    then none
    else some (record {
      block = b;
      price = if c0 then record { num = r1; den = r0 } else record { num = r0; den = r1 };
    })
price_point _ c0 _ = none

unfoldable pub filter_map {ℓ κ} : {A : Type ℓ} {B : Type κ} → (A → Option B) → List A → List B
filter_map f [] = []
filter_map f (x ∷ xs) = elim (f x) [ none ↦ filter_map f xs | some y ↦ y ∷ filter_map f xs ]
