-- ===== src/Outcomes/Quote.antt =====
-- apps/worker/src/outcomes/quote.ts: the quoter of Uniswap v4. `eth_call` stands for the node and the
-- ABI coder: the amount it gives, or what the three
-- expressions find in the error's message. The addresses of a key are well formed.
use tripwire_launch_auditor.Prelude.{ℕ, ◌^◌, Bool, false, not, ◌&&◌, ◌||◌, ltb, if◌then◌else◌}
use tripwire_launch_auditor.Watcher.Retry.{Failure, Settled, value, failure}
use tripwire_launch_auditor.Outcomes.Digits.{says_429}
use tripwire_launch_auditor.Hex.{Hex, hex_le, to_lower_case}

pub record PoolKey : Type 0 where
  pub currency0 : Hex
  pub currency1 : Hex
  pub fee : ℕ
  pub tick_spacing : ℕ
  pub hooks : Hex

pub data QuoteError : Type 0 where
  revert archive network : QuoteError

pub record Message : Type 0 where
  pub names_archive : Bool
  pub names_network : Bool
  pub names_revert : Bool

pub data Reply : Type 0 where
  amount : ℕ → Reply
  thrown : Message → Reply

pub data QuoteOutcome : Type 0 where
  quoted : ℕ → QuoteOutcome
  failed : QuoteError → QuoteOutcome

pub classify_quote_error : Message → QuoteError
classify_quote_error m =
    if m.names_archive
    then archive
    else if m.names_network
    then network
    else if m.names_revert
    then revert
    else network

unfoldable pub outcome_of : Reply → QuoteOutcome
outcome_of (amount out) = quoted out
outcome_of (thrown m) = failed (classify_quote_error m)

-- The encoder takes a fee of 24 bits, a signed tick spacing of 24 and an amount of 128.
unfoldable pub encodes : PoolKey → ℕ → Bool
encodes key amount_in =
    ltb key.fee (2 ^ 24) && ltb key.tick_spacing (2 ^ 23) && ltb amount_in (2 ^ 128)

-- The error of the encoder, whose message names the number that is out of range.
pub out_of_range : PoolKey → ℕ → Failure
out_of_range key amount_in = record {
  transient_name = false;
  transient_message = false;
  retryable = says_429 key.fee || says_429 key.tick_spacing || says_429 amount_in;
}

-- The call is encoded before the `try`, so that an error of the encoder is thrown.
unfoldable pub quote_exact_in_single :
    (PoolKey → Bool → ℕ → ℕ → Reply) → PoolKey → Bool → ℕ → ℕ → Settled QuoteOutcome
unfolding out_of_range
quote_exact_in_single eth_call key zero_for_one amount_in block =
    if encodes key amount_in
    then value (outcome_of (eth_call key zero_for_one amount_in block))
    else failure (out_of_range key amount_in)

-- `a < b`
unfoldable pub hex_lt : Hex → Hex → Bool
hex_lt a b = not (hex_le b a)

-- `zeroForOne`
unfoldable pub sell_direction : Hex → Hex → Bool
sell_direction token quote = hex_lt (to_lower_case token) (to_lower_case quote)
