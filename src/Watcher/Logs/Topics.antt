-- ===== src/Watcher/Logs/Topics.antt =====
-- packages/chain/src/logs.ts: `getLogsByTopicValues`, one query for each batch of the values. `request`
-- stands for the call of getLogsChunked with a batch, which may throw. A log without an index is never
-- taken for one that was seen, since its key holds the number of logs so far; a log without a block
-- number has the block 0.
use tripwire_launch_auditor.Prelude.{
  ℕ, zero, suc, Bool, false, ◌&&◌, ◌||◌, Option, none, some, List, [], ◌∷◌, ◌++◌, length, take,
  drop, ltb, leb, ◌==◌, if◌then◌else◌,
}
use tripwire_launch_auditor.Hex.{Hex}

pub record TopicLog : Type 0 where
  pub block_number : ℕ
  pub log_index : Option ℕ
  pub transaction_hash : Hex

-- The `for` loop's batches, on the number of values.
unfoldable pub batches_of : ℕ → ℕ → List Hex → List (List Hex)
batches_of zero cap values = []
batches_of (suc fuel) cap [] = []
batches_of (suc fuel) cap (v ∷ values) =
    take cap (v ∷ values) ∷ batches_of fuel cap (drop cap (v ∷ values))

unfoldable pub is_at : ℕ → ℕ → TopicLog → Bool
is_at b i l = (l.block_number == b) && elim l.log_index [ none ↦ false | some j ↦ j == i ]

unfoldable pub any_at : ℕ → ℕ → List TopicLog → Bool
any_at b i [] = false
any_at b i (l ∷ ls) = is_at b i l || any_at b i ls

-- The key of the log was seen.
unfoldable pub was_seen : TopicLog → List TopicLog → Bool
was_seen l out = elim l.log_index [ none ↦ false | some i ↦ any_at l.block_number i out ]

unfoldable pub merge_logs : List TopicLog → List TopicLog → List TopicLog
merge_logs [] out = out
merge_logs (l ∷ ls) out = merge_logs ls (if was_seen l out then out else out ++ l ∷ [])

index_or_zero : Option ℕ → ℕ
index_or_zero none = 0
index_or_zero (some i) = i

-- The comparator of the sort is not positive.
unfoldable pub logs_before : TopicLog → TopicLog → Bool
unfolding index_or_zero
logs_before a b =
    if a.block_number == b.block_number
    then leb (index_or_zero a.log_index) (index_or_zero b.log_index)
    else ltb a.block_number b.block_number

unfoldable pub insert_log : TopicLog → List TopicLog → List TopicLog
insert_log l [] = l ∷ []
insert_log l (m ∷ ms) = if logs_before l m then l ∷ m ∷ ms else m ∷ insert_log l ms

unfoldable pub sort_logs : List TopicLog → List TopicLog
unfolding insert_log
sort_logs [] = []
sort_logs (l ∷ ls) = insert_log l (sort_logs ls)

module _ (request : List Hex → Option (List TopicLog)) where
  -- What all batches give, or none where a call throws.
  unfoldable pub read_batches : List (List Hex) → List TopicLog → Option (List TopicLog)
  read_batches [] out = some out
  read_batches (batch ∷ batches) out = elim (request batch) [
    | none ↦ none
    | some logs ↦ read_batches batches (merge_logs logs out)
  ]

  unfoldable pub get_logs_by_topic_values : Option ℕ → List Hex → Option (List TopicLog)
  unfolding read_batches sort_logs batches_of
  get_logs_by_topic_values max_topic_values values =
      let cap : ℕ = elim max_topic_values [ none ↦ 4 | some n ↦ n ] in
      elim (read_batches (batches_of (length values) cap values) []) [
        | none ↦ none
        | some out ↦ some (sort_logs out)
      ]
