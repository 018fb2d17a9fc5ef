-- ===== src/Watcher/Logs/Examples.antt =====
-- A chain with one log in each block, and a query in two batches.
use tripwire_launch_auditor.Prelude.{
  ℕ, zero, suc, ◌+◌, ◌-◌, ◌≡◌, refl, ap, subst, Option, some, length, All, ◌≤◌, count_if,
  if◌then◌else◌, List, [], ◌∷◌, ◌++◌, arith,
}
use tripwire_launch_auditor.Watcher.Logs.{get_logs_chunked}
use tripwire_launch_auditor.Watcher.Logs.Windows.{Joins, get_logs_chunked-whole}
use tripwire_launch_auditor.Hex.{Hex}
use tripwire_launch_auditor.Watcher.Logs.Topics.{
  TopicLog, batches_of, is_at, any_at, was_seen, merge_logs, insert_log, sort_logs, read_batches,
  get_logs_by_topic_values,
}
use tripwire_launch_auditor.Watcher.Logs.Merged.{flat, given_at, get_logs_by_topic_values-once}

count_from : ℕ → ℕ → List ℕ
count_from start zero = []
count_from start (suc n) = start ∷ count_from (start + 1) n

abbrev blocks : ℕ → ℕ → List ℕ
blocks a b = count_from a (b + 1 - a)

count_from-append : (a m n : ℕ) → count_from a m ++ count_from (a + m) n ≡ count_from a (m + n)
unfolding count_from
count_from-append a zero n =
    let p : a + 0 ≡ a = omega arith in let q : 0 + n ≡ n = omega arith in rw (p, q) refl
count_from-append a (suc m) n =
    let p : a + suc m ≡ a + 1 + m = omega arith in
    let q : suc m + n ≡ suc (m + n) = omega arith in
    rw (p, q) (ap (◌∷◌ a) (count_from-append (a + 1) m n))

blocks-join : Joins blocks
blocks-join a b c h k =
    let m : ℕ = b + 1 - a in
    let n : ℕ = c + 1 - (b + 1) in
    let e : a + m ≡ b + 1 = omega arith in
    let f : m + n ≡ c + 1 - a = omega arith in
    subst (λ x. count_from a m ++ count_from (b + 1) n ≡ count_from a x) f
      (subst (λ x. count_from a m ++ count_from x n ≡ count_from a (m + n)) e
        (count_from-append a m n))

get_logs_chunked-whole_example : get_logs_chunked blocks 10 35 10 ≡ some (blocks 10 35)
get_logs_chunked-whole_example =
    get_logs_chunked-whole blocks 10 35 10 blocks-join (omega arith) (omega arith)

-- Three values in two batches, whose answers have one log in common.
abbrev shared_log : TopicLog
shared_log = record { block_number = 7; log_index = some 0; transaction_hash = 49 ∷ [] }

abbrev three_values : List Hex
three_values = (97 ∷ []) ∷ (98 ∷ []) ∷ (99 ∷ []) ∷ []

abbrev answer : List Hex → Option (List TopicLog)
answer batch = some (shared_log ∷ [])

get_logs_by_topic_values-once_example :
    let batches = batches_of 3 2 three_values in
    (flat batches ≡ three_values)
    × All (λ x. length x ≤ 2) batches
    × (count_if (is_at 7 0) (shared_log ∷ []) ≡ (if given_at 7 0 answer batches then 1 else 0))
unfolding get_logs_by_topic_values read_batches batches_of merge_logs was_seen any_at is_at
    sort_logs insert_log
get_logs_by_topic_values-once_example =
    get_logs_by_topic_values-once answer 1 three_values (shared_log ∷ []) 7 0 refl
