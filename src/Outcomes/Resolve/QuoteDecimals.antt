-- ===== src/Outcomes/Resolve/QuoteDecimals.antt =====
-- apps/worker/src/outcomes/resolve.ts: `quoteDecimals` with its cache.
use tripwire_launch_auditor.Prelude.{ℕ, Option, none, some, if◌then◌else◌}
use tripwire_launch_auditor.Hex.{Hex, hex_eq, to_lower_case}
use tripwire_launch_auditor.Outcomes.Resolve.{zero_address}

-- `decimalsCache`, by the lowered address.
abbrev pub DecimalsCache : Type 0
DecimalsCache = Hex → Option ℕ

unfoldable pub set_decimals : DecimalsCache → Hex → ℕ → DecimalsCache
set_decimals cache key n k = if hex_eq key k then some n else cache k

-- The answer, or 18 where the call failed.
unfoldable pub or_18 : Option ℕ → ℕ
or_18 none = 18
or_18 (some n) = n

unfoldable pub cached_decimals : Option ℕ → Option ℕ → DecimalsCache → Hex → ℕ × DecimalsCache
unfolding set_decimals or_18
cached_decimals (some n) answer cache key = (n, cache)
cached_decimals none answer cache key = (or_18 answer, set_decimals cache key (or_18 answer))

unfoldable pub quote_decimals : (Hex → Option ℕ) → DecimalsCache → Hex → ℕ × DecimalsCache
unfolding cached_decimals
quote_decimals read_decimals cache quote =
    if hex_eq quote zero_address
    then (18, cache)
    else cached_decimals (cache (to_lower_case quote)) (read_decimals quote) cache
        (to_lower_case quote)
