-- ===== src/Scoring/Outcome.antt =====
-- packages/scoring/src/types.ts: the scored cells and where they apply. A key
-- `${label}@${horizon}` is the pair of its parts; `startsWith(label)` is a test of the label.
use tripwire_launch_auditor.Prelude.{Bool, true, false, not, ◌&&◌, List, [], ◌∷◌, if◌then◌else◌}

pub data Horizon : Type 0 where
  h1 h6 h24 h72 d7 : Horizon

pub data OutcomeLabel : Type 0 where
  insider_exit sell_impaired liq_impaired drawdown_80 trading_alive : OutcomeLabel

pub record OutcomeKey : Type 0 where
  pub label : OutcomeLabel
  pub horizon : Horizon

abbrev pub outcome_key : OutcomeLabel → Horizon → OutcomeKey
outcome_key l h = record { label = l; horizon = h }

abbrev pub all_outcome_keys : List OutcomeKey
all_outcome_keys =
    outcome_key insider_exit h6
    ∷ outcome_key insider_exit h24
    ∷ outcome_key insider_exit h72
    ∷ outcome_key sell_impaired h1
    ∷ outcome_key sell_impaired h24
    ∷ outcome_key liq_impaired h24
    ∷ outcome_key liq_impaired d7
    ∷ outcome_key drawdown_80 h24
    ∷ outcome_key drawdown_80 d7
    ∷ outcome_key trading_alive h24
    ∷ outcome_key trading_alive d7
    ∷ []

starts_with_sell : OutcomeLabel → Bool
starts_with_sell sell_impaired = true
starts_with_sell _ = false

starts_with_liq : OutcomeLabel → Bool
starts_with_liq liq_impaired = true
starts_with_liq _ = false

unfoldable pub outcome_applies : OutcomeKey → Bool → Bool
unfolding starts_with_sell starts_with_liq
outcome_applies key lp_locked =
    if not lp_locked
    then true
    else not (starts_with_sell key.label) && not (starts_with_liq key.label)

is_trading_alive : OutcomeLabel → Bool
is_trading_alive trading_alive = true
is_trading_alive _ = false

unfoldable pub outcome_is_positive : OutcomeKey → Bool
unfolding is_trading_alive
outcome_is_positive key = is_trading_alive key.label
