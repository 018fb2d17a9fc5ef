-- ===== src/Metabolism/Ledger/Store.antt =====
-- The queries of apps/worker/src/metabolism/spend-ledger.ts: totals, windows and reconciliation.
use tripwire_launch_auditor.Prelude.{
  ℕ, ◌+◌, ◌*◌, Bool, true, false, ◌&&◌, Option, none, some, List, [], ◌∷◌, ltb, leb, ◌=ₛ◌, String,
  if◌then◌else◌,
}
use tripwire_launch_auditor.Metabolism.Reconcile.{round_div}
use tripwire_launch_auditor.Metabolism.Ledger.{SpendRow, SpendFilter, provider_reconciled_estimate}

unfoldable pub same_text : Option String → String → Bool
same_text none s = false
same_text (some t) s = t =ₛ s

unfoldable pub find_by_generation_id : String → List SpendRow → Option ℕ
unfolding same_text
find_by_generation_id g [] = none
find_by_generation_id g (r ∷ rs) =
    if same_text r.generation_id g then some r.id else find_by_generation_id g rs

unfoldable pub matches : SpendFilter → SpendRow → Bool
unfolding same_text
matches f r =
    elim f.since [ none ↦ true | some t ↦ leb t r.at ]
    && elim f.key_hash_prefix [ none ↦ true | some p ↦ same_text r.key_hash_prefix p ]

unfoldable pub total_spend_usd : SpendFilter → List SpendRow → ℕ
unfolding matches
total_spend_usd f [] = 0
total_spend_usd f (r ∷ rs) = (if matches f r then r.cost_usd else 0) + total_spend_usd f rs

unfoldable pub is_null : Option ℕ → Bool
is_null none = true
is_null (some n) = false

-- The condition of a window: after `since`, up to `until`, and without an epoch.
unfoldable pub in_window : Option ℕ → ℕ → SpendRow → Bool
unfolding is_null
in_window since until r =
    is_null r.epoch_id && elim since [ none ↦ true | some t ↦ ltb t r.at ] && leb r.at until

unfoldable pub or_zero : Option ℕ → ℕ
or_zero none = 0
or_zero (some n) = n

-- The sum of the estimates, and the count.
unfoldable pub window_estimate : Option ℕ → ℕ → List SpendRow → ℕ × ℕ
window_estimate since until [] = (0, 0)
window_estimate since until (r ∷ rs) =
    let (sum, count) = window_estimate since until rs in
    if in_window since until r
    then (or_zero r.estimated_cost_usd + sum, count + 1)
    else (sum, count)

-- The update of one row of the window.
unfoldable pub reconcile_row : ℕ → Option ℕ → SpendRow → SpendRow
reconcile_row epoch_id none r = record r { epoch_id = some epoch_id }
reconcile_row epoch_id (some factor) r = elim r.estimated_cost_usd [
  | none ↦ record r { epoch_id = some epoch_id }
  | some estimate ↦
      let reconciled = round_div (estimate * factor) 1_000_000 in
      record r {
        epoch_id = some epoch_id;
        reconciled_cost_usd = some reconciled;
        cost_usd = reconciled;
        cost_basis = provider_reconciled_estimate;
      }
]

unfoldable pub apply_reconciliation :
    Option ℕ → ℕ → ℕ → Option ℕ → List SpendRow → List SpendRow × ℕ
unfolding reconcile_row
apply_reconciliation since until epoch_id factor [] = ([], 0)
apply_reconciliation since until epoch_id factor (r ∷ rs) =
    let (after, n) = apply_reconciliation since until epoch_id factor rs in
    if in_window since until r
    then (reconcile_row epoch_id factor r ∷ after, n + 1)
    else (r ∷ after, n)
