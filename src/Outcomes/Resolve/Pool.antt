-- ===== src/Outcomes/Resolve/Pool.antt =====
-- apps/worker/src/outcomes/resolve.ts: the pool and its key.
use tripwire_launch_auditor.Prelude.{ℕ, Bool, true, false, Option, none, some, if◌then◌else◌}
use tripwire_launch_auditor.Hex.{Hex, hex_eq, to_lower_case}
use tripwire_launch_auditor.Outcomes.Series.{PoolKind, v4, PoolRef}
use tripwire_launch_auditor.Outcomes.Quote.{PoolKey, hex_lt}
use tripwire_launch_auditor.Outcomes.Resolve.{zero_address, Launch}

unfoldable pub or_hex : Option Hex → Hex → Hex
or_hex none d = d
or_hex (some h) d = h

unfoldable pub or_v4 : Option PoolKind → PoolKind
or_v4 none = v4
or_v4 (some k) = k

unfoldable pub lowered : Option Hex → Option Hex
lowered none = none
lowered (some h) = some (to_lower_case h)

abbrev pub quote_of : Launch → Hex
quote_of launch = to_lower_case (or_hex launch.quote_address zero_address)

-- The token sorts first: native currency always does.
unfoldable pub token_first : Hex → Hex → Bool
token_first token quote = if hex_eq quote zero_address then false else hex_lt token quote

unfoldable pub pool_of : Hex → Launch → PoolRef
unfolding or_v4 lowered token_first
pool_of manager launch = record {
  pool_kind = or_v4 launch.pool_kind;
  pool_manager = manager;
  pool_address = lowered launch.pool_address;
  pool_id = launch.pool_id;
  token_is_currency0 = token_first (to_lower_case launch.token_address) (quote_of launch);
}

unfoldable pub v4_key : Hex → Hex → Option ℕ → Option ℕ → Option Hex → Option PoolKey
unfolding token_first
v4_key token quote (some fee) (some spacing) hooks = some (record {
  currency0 = if token_first token quote then token else quote;
  currency1 = if token_first token quote then quote else token;
  fee = fee;
  tick_spacing = spacing;
  hooks = or_hex hooks zero_address;
})
v4_key token quote _ _ hooks = none

unfoldable pub is_v4 : PoolKind → Bool
is_v4 v4 = true
is_v4 _ = false

unfoldable pub pool_key_of : Launch → Option PoolKey
unfolding v4_key is_v4 or_v4
pool_key_of launch =
    if is_v4 (or_v4 launch.pool_kind)
    then v4_key (to_lower_case launch.token_address) (quote_of launch) launch.pool_fee
        launch.pool_tick_spacing launch.pool_hooks
    else none
