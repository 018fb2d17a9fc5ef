-- ===== src/RpcBudget/PriorityQueue.antt =====
-- packages/rpc-budget/src/priority-queue.ts and priorities.ts. The items stand in the order in
-- which they come out.
pub mod Order
use tripwire_launch_auditor.Prelude.{
  ℕ, zero, suc, ◌+◌, Option, none, some, List, [], ◌∷◌, ◌++◌, leb, length, get_elem?, take, drop,
  if◌then◌else◌,
}

pub record Entry {ℓ} (T : Type ℓ) : Type ℓ where
  pub priority : ℕ
  pub seq : ℕ
  pub value : T

pub record PriorityQueue {ℓ} (T : Type ℓ) : Type ℓ where
  pub items : List (Entry T)
  pub seq : ℕ

module _ {ℓ} {T : Type ℓ} where
  unfoldable pub empty : PriorityQueue T
  empty = record { items = []; seq = 0 }

  -- `while (i > 0)`: left past every entry that a new one of this priority overtakes.
  walk : List (Entry T) → ℕ → ℕ → ℕ
  walk items priority zero = 0
  walk items priority (suc i) = elim (get_elem? items i) [
    | none ↦ suc i
    | some prev ↦ if leb prev.priority priority then suc i else walk items priority i
  ]

  -- `items.splice(i, 0, entry)`
  splice : List (Entry T) → ℕ → Entry T → List (Entry T)
  splice items i entry = take i items ++ entry ∷ drop i items

  pub push : PriorityQueue T → ℕ → T → PriorityQueue T
  unfolding walk splice
  push q priority value = record {
    items =
        splice q.items (walk q.items priority (length q.items))
          (record { priority = priority; seq = q.seq; value = value });
    seq = q.seq + 1;
  }

  shift_items : List (Entry T) → ℕ → Option T × PriorityQueue T
  shift_items [] seq = (none, record { items = []; seq = seq })
  shift_items (e ∷ items) seq = (some e.value, record { items = items; seq = seq })

  unfoldable pub shift : PriorityQueue T → Option T × PriorityQueue T
  unfolding shift_items
  shift q = shift_items q.items q.seq

  pub size : PriorityQueue T → ℕ
  size q = length q.items

  peek_items : List (Entry T) → Option ℕ
  peek_items [] = none
  peek_items (e ∷ items) = some e.priority

  pub peek_priority : PriorityQueue T → Option ℕ
  unfolding peek_items
  peek_priority q = peek_items q.items
