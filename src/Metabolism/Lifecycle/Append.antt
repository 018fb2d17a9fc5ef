-- ===== src/Metabolism/Lifecycle/Append.antt =====
-- apps/worker/src/metabolism/lifecycle-runner.ts: the writer of the log, whose appends check the head of
-- the table under a lock, and the rows as apps/api/src/server.ts reads them back. `sign` stands for
-- the signature of a hash; the time is the text that `createdAt` is written and read as, and the
-- table keeps its rows in the order of their times.
pub mod Unforked
use tripwire_launch_auditor.Prelude.{
  String, Bool, Option, none, some, List, [], ◌∷◌, ◌++◌, map, if◌then◌else◌, ℤ,
}
use tripwire_launch_auditor.Hex.{Hex, hex_eq}
use tripwire_launch_auditor.Metabolism.Lifecycle.{
  LifecycleBody, LifecycleChainRow, LifecycleEntryInput, LifecycleEntry, build_lifecycle_entry,
  or_false, genesis_hash,
}

pub record LifecycleRowInput : Type 0 where
  pub is_snapshot : Bool
  pub prev_state : Option String
  pub new_state : String
  pub reason : String
  pub key_id : Option String
  pub key_hash_prefix : Option String
  pub balance_usd : Option ℤ
  pub reserve_usd : Option ℤ
  pub ledger_spend_usd : Option ℤ
  pub provider_spend_usd : Option ℤ
  pub ids_mismatch : Option Bool
  pub billing_status : Option String

-- `keyRemainingUsd` is always null.
pub record LifecyclePersistRecord : Type 0 where
  pub is_snapshot : Bool
  pub prev_state : Option String
  pub new_state : String
  pub reason : String
  pub key_id : Option String
  pub key_hash_prefix : Option String
  pub balance_usd : Option ℤ
  pub reserve_usd : Option ℤ
  pub ledger_spend_usd : Option ℤ
  pub provider_spend_usd : Option ℤ
  pub ids_mismatch : Bool
  pub billing_status : Option String
  pub prev_hash : Hex
  pub body_hash : Hex
  pub signature : Hex
  pub created_at : String

-- What an entry of the input is built from.
pub entry_input : LifecycleRowInput → LifecycleEntryInput
unfolding or_false
entry_input input = record {
  prev_state = input.prev_state;
  new_state = input.new_state;
  reason = input.reason;
  is_snapshot = some input.is_snapshot;
  key_hash_prefix = input.key_hash_prefix;
  balance_usd = input.balance_usd;
  key_remaining_usd = none;
  reserve_usd = input.reserve_usd;
  ledger_spend_usd = input.ledger_spend_usd;
  provider_spend_usd = input.provider_spend_usd;
  ids_mismatch = some (or_false input.ids_mismatch);
}

-- `prismaPersist`: the row is stored, or the head is another one.
pub data Persisted : Type 0 where
  stored : List LifecyclePersistRecord → Hex → Persisted
  head_moved : Hex → Persisted

pub head_after : Hex → List LifecyclePersistRecord → Hex
head_after head [] = head
head_after head (r ∷ rows) = head_after r.body_hash rows

pub persist : LifecyclePersistRecord → List LifecyclePersistRecord → Persisted
unfolding head_after
persist r table =
    let head = head_after genesis_hash table in
    if hex_eq head r.prev_hash then stored (table ++ r ∷ []) r.body_hash else head_moved head

-- A stored row as it is read back.
pub chain_row : LifecyclePersistRecord → LifecycleChainRow
chain_row r = record {
  fields = record {
    time = r.created_at;
    prev_state = r.prev_state;
    new_state = r.new_state;
    reason = r.reason;
    is_snapshot = r.is_snapshot;
    key_hash_prefix = r.key_hash_prefix;
    balance_usd = r.balance_usd;
    key_remaining_usd = none;
    reserve_usd = r.reserve_usd;
    ledger_spend_usd = r.ledger_spend_usd;
    provider_spend_usd = r.provider_spend_usd;
    ids_mismatch = r.ids_mismatch;
  };
  prev_hash = some r.prev_hash;
  body_hash = some r.body_hash;
}

module _ (hash : LifecycleBody → Hex) (sign : Hex → Hex) where
  -- The row of an input at a time, on the head that the writer keeps.
  pub record_of : LifecycleRowInput → String → Hex → LifecyclePersistRecord
  unfolding or_false entry_input build_lifecycle_entry
  record_of input at head =
      let entry = build_lifecycle_entry hash (entry_input input) at head in
      record {
        is_snapshot = input.is_snapshot;
        prev_state = input.prev_state;
        new_state = input.new_state;
        reason = input.reason;
        key_id = input.key_id;
        key_hash_prefix = input.key_hash_prefix;
        balance_usd = input.balance_usd;
        reserve_usd = input.reserve_usd;
        ledger_spend_usd = input.ledger_spend_usd;
        provider_spend_usd = input.provider_spend_usd;
        ids_mismatch = or_false input.ids_mismatch;
        billing_status = input.billing_status;
        prev_hash = head;
        body_hash = entry.body_hash;
        signature = sign entry.body_hash;
        created_at = at;
      }

  pub append_once : LifecycleRowInput → String → Hex → List LifecyclePersistRecord → Persisted
  unfolding persist record_of
  append_once input at head table = persist (record_of input at head) table

  -- The second attempt, on the head that the first one's error names.
  pub append_again :
      LifecycleRowInput → String → List LifecyclePersistRecord → Persisted → Persisted
  unfolding append_once
  append_again input again table (stored rows head) = stored rows head
  append_again input again table (head_moved head) = append_once input again head table

  -- An append of one writer between whose two attempts nobody else appends; the second attempt has a
  -- time of its own.
  pub append : LifecycleRowInput → String → String → Hex → List LifecyclePersistRecord → Persisted
  unfolding append_once append_again
  append input at again head table =
      append_again input again table (append_once input at head table)
