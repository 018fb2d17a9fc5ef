-- ===== src/Metabolism/Ledger/Recording.antt =====
-- What recording a run adds to the ledger.
use tripwire_launch_auditor.Prelude.{
  ℕ, ◌+◌, ◌≡◌, true, false, none, some, List, [], ◌∷◌, ◌++◌, length, ◌=ₛ◌, String, pos, arith,
  eq_iff, ap, ◌∙◌,
}
use tripwire_launch_auditor.Metabolism.Ledger.{SpendRow, finite, SpendEntry, SpendFilter}
use tripwire_launch_auditor.Metabolism.Ledger.Store.{
  same_text, find_by_generation_id, matches, total_spend_usd,
}
use tripwire_launch_auditor.Metabolism.Ledger.Record.{
  row_of, insert_spend, existing, store_spend, record_spend,
}

find-append :
    (g : String) (rows : List SpendRow) (r : SpendRow)
    → find_by_generation_id g rows ≡ none
    → r.generation_id ≡ some g
    → find_by_generation_id g (rows ++ r ∷ []) ≡ some r.id
unfolding find_by_generation_id same_text
find-append g [] r h k = ground (arith, eq_iff g g)
find-append g (x ∷ xs) r h k = ground (arith, find-append g xs r)

total-append :
    (f : SpendFilter) (rows : List SpendRow) (r : SpendRow)
    → total_spend_usd f (rows ++ r ∷ []) ≡ total_spend_usd f rows + total_spend_usd f (r ∷ [])
unfolding total_spend_usd
total-append f [] r = omega arith
total-append f (x ∷ xs) r = ground (arith, total-append f xs r)

abbrev pub everything : SpendFilter
everything = record { since = none; key_hash_prefix = none }

total-one : (r : SpendRow) → total_spend_usd everything (r ∷ []) ≡ r.cost_usd
unfolding total_spend_usd matches
total-one r = omega arith

store_new :
    (now cost : ℕ) (e : SpendEntry) (g : String) (rows : List SpendRow)
    → e.generation_id ≡ some g
    → (g =ₛ "") ≡ false
    → find_by_generation_id g rows ≡ none
    → store_spend now cost e rows ≡ insert_spend now cost e rows
unfolding store_spend existing
store_new now cost e g rows h k f = ground arith

store_known :
    (now cost i : ℕ) (e : SpendEntry) (g : String) (rows : List SpendRow)
    → e.generation_id ≡ some g
    → (g =ₛ "") ≡ false
    → find_by_generation_id g rows ≡ some i
    → store_spend now cost e rows ≡ (record { id = i; deduped = true }, rows)
unfolding store_spend existing
store_known now cost i e g rows h k f = ground arith

record_passes :
    (now cost : ℕ) (e : SpendEntry) (rows : List SpendRow)
    → e.cost_usd ≡ finite (pos cost)
    → (e.model =ₛ "") ≡ false
    → record_spend now e rows ≡ some (store_spend now cost e rows)
unfolding record_spend
record_passes now cost e rows h k = ground arith

-- An entry with a generation id that the ledger does not hold, with a model and a cost that is not
-- negative, is recorded once: it raises the total by its cost, and recording it again, at whatever
-- time, gives the same id, says that it is a duplicate, and leaves the ledger as it is.
pub record_spend-once :
    (now later cost : ℕ) (e : SpendEntry) (g : String) (rows : List SpendRow)
    → e.generation_id ≡ some g
    → (g =ₛ "") ≡ false
    → (e.model =ₛ "") ≡ false
    → e.cost_usd ≡ finite (pos cost)
    → find_by_generation_id g rows ≡ none
    → (id : ℕ) × (after : List SpendRow) × (record_spend now e rows
        ≡ some (record { id = id; deduped = false }, after))
      × (total_spend_usd everything after ≡ total_spend_usd everything rows + cost)
      × (record_spend later e after ≡ some (record { id = id; deduped = true }, after))
unfolding insert_spend
record_spend-once now later cost e g rows h k m c f =
    let row = row_of (length rows) now cost e in
    let after = rows ++ row ∷ [] in
    let known : find_by_generation_id g after ≡ some (length rows) = find-append g rows row f h in
    (
      length rows,
      after,
      record_passes now cost e rows c m ∙ ap some (store_new now cost e g rows h k f),
      total-append everything rows row
          ∙ ap (λ n. total_spend_usd everything rows + n) (total-one row),
      record_passes later cost e after c m
          ∙ ap some (store_known later cost (length rows) e g after h k known),
    )
