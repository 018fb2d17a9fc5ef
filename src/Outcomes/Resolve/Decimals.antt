-- ===== src/Outcomes/Resolve/Decimals.antt =====
-- The decimals of the quote asset, by the first call of the process.
use tripwire_launch_auditor.Prelude.{ℕ, ◌≡◌, refl, false, Option, none, some, arith}
use tripwire_launch_auditor.Hex.{Hex, hex_eq, hex_eq_iff, to_lower_case}
use tripwire_launch_auditor.Outcomes.Resolve.{zero_address}
use tripwire_launch_auditor.Outcomes.Resolve.QuoteDecimals.{
  DecimalsCache, cached_decimals, quote_decimals,
}

-- What every later call gives, whatever the contract answers then, is what the first call's answer was,
-- and 18 for good where the first call failed.
pub quote_decimals-first :
    (first later : Hex → Option ℕ) (cache : DecimalsCache) (quote : Hex)
    → hex_eq quote zero_address ≡ false
    → cache (to_lower_case quote) ≡ none
    → let after = (quote_decimals first cache quote).1 in
      ((n : ℕ) → first quote ≡ some n → (quote_decimals later after quote).0 ≡ n)
      × (first quote ≡ none → (quote_decimals later after quote).0 ≡ 18)
unfolding quote_decimals cached_decimals
quote_decimals-first first later cache quote h k =
    let t = to_lower_case quote in
    (
      (λ n e. ground (arith, (hex_eq_iff t t).1 refl)),
      (λ e. ground (arith, (hex_eq_iff t t).1 refl)),
    )
