-- ===== src/Metabolism/Ledger/Examples.antt =====
-- Two runs of a window, and a run that is recorded twice.
use tripwire_launch_auditor.Prelude.{
  ℕ, ◌+◌, ◌≡◌, refl, true, false, none, some, List, [], ◌∷◌, length, get_elem?, pos,
}
use tripwire_launch_auditor.Metabolism.Ledger.{unavailable, SpendRow, finite, SpendEntry}
use tripwire_launch_auditor.Metabolism.Ledger.Store.{
  total_spend_usd, find_by_generation_id, in_window, window_estimate, apply_reconciliation,
}
use tripwire_launch_auditor.Metabolism.Ledger.Record.{record_spend}
use tripwire_launch_auditor.Metabolism.Ledger.Window.{apply_reconciliation-once}
use tripwire_launch_auditor.Metabolism.Ledger.Recording.{everything, record_spend-once}

abbrev row : ℕ → ℕ → SpendRow
row id estimate = record {
  id = id;
  at = 10 + id;
  cost_usd = estimate;
  model = "sakana/fugu-max";
  key_hash_prefix = none;
  report_id = none;
  generation_id = none;
  prompt_tokens = none;
  completion_tokens = none;
  estimated_cost_usd = some estimate;
  pricing_version = none;
  cost_basis = unavailable;
  reconciled_cost_usd = none;
  epoch_id = none;
}

abbrev rows : List SpendRow
rows = row 0 500 ∷ row 1 700 ∷ []

apply_reconciliation-once_example :
    let (rest, n) = apply_reconciliation none 10 3 (some 1_100_000) rows in
    (n ≡ (window_estimate none 10 rows).1)
    × (length rest ≡ 2)
    × (window_estimate none 10 rest ≡ (0, 0))
    × ((i : ℕ) (r : SpendRow)
        → get_elem? rows i ≡ some r
        → in_window none 10 r ≡ false
        → get_elem? rest i ≡ some r)
apply_reconciliation-once_example = apply_reconciliation-once none 10 3 (some 1_100_000) rows

abbrev entry : SpendEntry
entry = record {
  cost_usd = finite (pos 500);
  model = "sakana/fugu-max";
  key_hash_prefix = none;
  report_id = none;
  generation_id = some "gen-1";
  prompt_tokens = none;
  completion_tokens = none;
  estimated_cost_usd = none;
  pricing_version = none;
  cost_basis = none;
}

record_spend-once_example :
    (id : ℕ) × (after : List SpendRow) × (record_spend 30 entry rows
      ≡ some (record { id = id; deduped = false }, after))
    × (total_spend_usd everything after ≡ total_spend_usd everything rows + 500)
    × (record_spend 40 entry after ≡ some (record { id = id; deduped = true }, after))
unfolding find_by_generation_id
record_spend-once_example = record_spend-once 30 40 500 entry "gen-1" rows refl refl refl refl refl
