-- ===== src/Outcomes/Sweep/Deferral.antt =====
-- apps/worker/src/outcomes/loop.ts: `deferOrGiveUp`, and which reasons are tried again.
use tripwire_launch_auditor.Prelude.{
  ℕ, ◌+◌, Bool, true, false, ◌||◌, List, [], ◌∷◌, Option, none, some, leb, if◌then◌else◌,
}
use tripwire_launch_auditor.Outcomes.Digits.{says_429}
use tripwire_launch_auditor.Outcomes.Series.Coverage.{Gap, log_cap_hit}
use tripwire_launch_auditor.Outcomes.Quote.{QuoteError}
use tripwire_launch_auditor.Outcomes.Quote
use tripwire_launch_auditor.Outcomes.Resolvers.{
  Reason, quoter_failed, spot_failed, bulk_failed, survival_thrown, survival_gaps,
}

pub data Action : Type 0 where
  defer give_up : Action

unfoldable pub defer_or_give_up : Option ℕ → ℕ → ℕ → Action × ℕ
defer_or_give_up none now give_up_after_ms =
    (if leb (now + give_up_after_ms) now then give_up else defer, now)
defer_or_give_up (some first) now give_up_after_ms =
    (if leb (first + give_up_after_ms) now then give_up else defer, first)

-- What `RETRYABLE` finds in a reason.
unfoldable pub names_network : QuoteError → Bool
names_network Quote.network = true
names_network _ = false

-- The text of a series that was cut short names the number of its logs.
unfoldable pub names_429 : List Gap → Bool
names_429 [] = false
names_429 (log_cap_hit n ∷ gaps) = says_429 n || names_429 gaps
names_429 (_ ∷ gaps) = names_429 gaps

unfoldable pub is_retryable : Reason → Bool
unfolding names_network names_429
is_retryable (quoter_failed e) = names_network e
is_retryable (spot_failed e) = names_network e
is_retryable (bulk_failed e) = names_network e
is_retryable (survival_thrown f) = f.retryable
is_retryable (survival_gaps gaps) = names_429 gaps
is_retryable _ = false
