-- ===== src/Metabolism/Lifecycle/Append/Unforked.antt =====
-- The rows that writers append under the lock, against the check of the stored rows.
use tripwire_launch_auditor.Prelude.{◌≡◌, ◌⊎◌, String, List, [], ◌∷◌}
use tripwire_launch_auditor.Hex.{Hex}
use tripwire_launch_auditor.Metabolism.Lifecycle.{LifecycleBody}
use tripwire_launch_auditor.Metabolism.Lifecycle.Linked.{IsHashed}
use tripwire_launch_auditor.Metabolism.Lifecycle.Append.{
  LifecycleRowInput, LifecyclePersistRecord, Persisted, stored, head_moved, chain_row, append_once,
}

-- One attempt of some writer to append, on the head that it keeps.
pub record Attempt : Type 0 where
  pub input : LifecycleRowInput
  pub at : String
  pub head : Hex

abbrev pub table_after : List LifecyclePersistRecord → Persisted → List LifecyclePersistRecord
table_after table (stored rows head) = rows
table_after table (head_moved head) = table

-- The row has what the input has, and one of the two times.
abbrev pub Holds : LifecycleRowInput → String → String → LifecyclePersistRecord → Type 0
Holds input at again r =
    (r.reason ≡ input.reason)
    × (r.prev_state ≡ input.prev_state)
    × (r.new_state ≡ input.new_state)
    × (r.is_snapshot ≡ input.is_snapshot)
    × (r.balance_usd ≡ input.balance_usd)
    × ((r.created_at ≡ at) ⊎ (r.created_at ≡ again))

module _ (hash : LifecycleBody → Hex) (sign : Hex → Hex) where
  -- The table after the attempts, in the order in which they get the lock.
  pub attempt_all : List Attempt → List LifecyclePersistRecord → List LifecyclePersistRecord
  attempt_all [] table = table
  attempt_all (a ∷ rest) table =
      attempt_all rest (table_after table (append_once hash sign a.input a.at a.head table))

  abbrev IsChainFrom : Hex → List LifecyclePersistRecord → Type 0
  IsChainFrom prev [] = Unit
  IsChainFrom prev (r ∷ rows) =
      (r.prev_hash ≡ prev) × IsHashed hash (chain_row r) × IsChainFrom r.body_hash rows
