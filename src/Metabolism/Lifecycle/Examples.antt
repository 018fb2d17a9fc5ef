-- ===== src/Metabolism/Lifecycle/Examples.antt =====
-- Lifecycle logs of two rows, under a hash that lengthens the previous one.
use tripwire_launch_auditor.Prelude.{◌≡◌, refl, true, false, Option, none, some, List, [], ◌∷◌, ◌↔◌}
use tripwire_launch_auditor.Hex.{Hex}
use tripwire_launch_auditor.Metabolism.Lifecycle.{
  LifecycleBody, LifecycleChainRow, LifecycleEntryInput, genesis_hash, or_genesis, body_of,
  fields_of, verify_lifecycle_rows,
}
use tripwire_launch_auditor.Metabolism.Lifecycle.Linked.{IsLinked, verify_lifecycle_rows-IsLinked}
use tripwire_launch_auditor.Metabolism.Lifecycle.Tamper.{SameBodies, last_hash-SameBodies}
use tripwire_launch_auditor.Metabolism.Lifecycle.Append.{LifecycleRowInput}
use tripwire_launch_auditor.Metabolism.Lifecycle.Append.Unforked.{Attempt}

abbrev longer : LifecycleBody → Hex
longer b = 1 ∷ b.prev_hash

abbrev claim_input : LifecycleEntryInput
claim_input = record {
  prev_state = none;
  new_state = "ACTIVE";
  reason = "claimed a fresh key";
  is_snapshot = none;
  key_hash_prefix = none;
  balance_usd = none;
  key_remaining_usd = none;
  reserve_usd = none;
  ledger_spend_usd = none;
  provider_spend_usd = none;
  ids_mismatch = none;
}

abbrev first_row : Option Hex → LifecycleChainRow
first_row prev = record {
  fields = fields_of claim_input "2026-09-14";
  prev_hash = prev;
  body_hash = some (1 ∷ genesis_hash);
}

abbrev second_row : LifecycleChainRow
second_row = record {
  fields = fields_of claim_input "2026-09-15";
  prev_hash = some (1 ∷ genesis_hash);
  body_hash = some (1 ∷ 1 ∷ genesis_hash);
}

abbrev two_rows : Option Hex → List LifecycleChainRow
two_rows prev = first_row prev ∷ second_row ∷ []

verify_lifecycle_rows-IsLinked_example :
    let c = verify_lifecycle_rows longer (two_rows none) in
    ((c.linked ≡ true) ↔ IsLinked longer (two_rows none))
    × ((c.linked ≡ true) ↔ ((c.intact ≡ true) × (c.forks ≡ [])))
verify_lifecycle_rows-IsLinked_example = verify_lifecycle_rows-IsLinked longer (two_rows none)

last_hash-SameBodies_example : SameBodies (two_rows none) (two_rows (some genesis_hash))
unfolding body_of or_genesis
last_hash-SameBodies_example =
    last_hash-SameBodies longer (two_rows none) (two_rows (some genesis_hash)) refl
      ((λ e. refl), ((λ e. refl), tt)) (refl, refl, refl) (refl, refl, refl) refl

abbrev row_input : LifecycleRowInput
row_input = record {
  is_snapshot = false;
  prev_state = none;
  new_state = "ACTIVE";
  reason = "claimed a fresh key";
  key_id = none;
  key_hash_prefix = none;
  balance_usd = none;
  reserve_usd = none;
  ledger_spend_usd = none;
  provider_spend_usd = none;
  ids_mismatch = none;
  billing_status = none;
}

-- The second writer's head is stale, and its attempt is refused.
abbrev three_attempts : List Attempt
three_attempts =
    record { input = row_input; at = "2026-09-14"; head = genesis_hash }
    ∷ record { input = row_input; at = "2026-09-15"; head = genesis_hash }
    ∷ record { input = row_input; at = "2026-09-15"; head = 1 ∷ genesis_hash }
    ∷ []
