-- ===== src/Metabolism/Lifecycle.antt =====
-- packages/db/src/lifecycle-chain.ts, which checks a run of stored rows, and
-- apps/worker/src/metabolism/lifecycle.ts, which builds and checks the worker's entries.
-- `hash` stands for the keccak256 hash of the canonical JSON of a body.
pub mod Linked
pub mod Tamper
pub mod Worker
pub mod Append
pub mod Examples
use tripwire_launch_auditor.Prelude.{
  ℕ, zero, suc, ◌+◌, ℤ, String, Bool, true, false, not, ◌&&◌, Option, none, some, List, [], ◌∷◌,
  ◌++◌, length, map, if◌then◌else◌,
}
use tripwire_launch_auditor.Hex.{Hex, hex_eq}

-- The fields of a body but for `prevHash`.
pub record LifecycleFields : Type 0 where
  pub time : String
  pub prev_state : Option String
  pub new_state : String
  pub reason : String
  pub is_snapshot : Bool
  pub key_hash_prefix : Option String
  pub balance_usd : Option ℤ
  pub key_remaining_usd : Option ℤ
  pub reserve_usd : Option ℤ
  pub ledger_spend_usd : Option ℤ
  pub provider_spend_usd : Option ℤ
  pub ids_mismatch : Bool

pub record LifecycleBody : Type 0 where
  pub fields : LifecycleFields
  pub prev_hash : Hex

pub record LifecycleChainRow : Type 0 where
  pub fields : LifecycleFields
  pub prev_hash : Option Hex
  pub body_hash : Option Hex

pub record LifecycleChainCheck : Type 0 where
  pub linked : Bool
  pub intact : Bool
  pub forks : List ℕ
  pub starts_at_genesis : Bool
  pub length : ℕ
  pub broken_at : Option ℕ

-- "0x" and 64 zeros
zeros : ℕ → Hex
zeros zero = []
zeros (suc n) = 48 ∷ zeros n

pub genesis_hash : Hex
unfolding zeros
genesis_hash = 48 ∷ 120 ∷ zeros 64

pub or_genesis : Option Hex → Hex
or_genesis none = genesis_hash
or_genesis (some h) = h

pub body_of : LifecycleChainRow → LifecycleBody
body_of r = record { fields = r.fields; prev_hash = or_genesis r.prev_hash }

-- `a === b` where each is a text or null.
pub same_hash : Option Hex → Option Hex → Bool
same_hash none none = true
same_hash none (some b) = false
same_hash (some a) none = false
same_hash (some a) (some b) = hex_eq a b

-- `r.prevHash && seenBodies.has(r.prevHash)`
contains : Hex → List Hex → Bool
contains a [] = false
contains a (x ∷ xs) = if hex_eq x a then true else contains a xs

is_seen : Option Hex → List Hex → Bool
unfolding contains
is_seen none seen = false
is_seen (some []) seen = false
is_seen (some (c ∷ h)) seen = contains (c ∷ h) seen

-- `if (r.bodyHash) seenBodies.add(r.bodyHash)`
see : Option Hex → List Hex → List Hex
see none seen = seen
see (some []) seen = seen
see (some (c ∷ h)) seen = (c ∷ h) ∷ seen

pub record Scan : Type 0 where
  pub linked : Bool
  pub broken_at : Option ℕ
  pub forks : List ℕ
  pub seen : List Hex

first_break : Option ℕ → ℕ → Option ℕ
first_break none i = some i
first_break (some b) i = some b

-- `i === 0 ? true : r.prevHash === rows[i - 1].bodyHash`, from the row before, if any.
link_ok : Option (Option Hex) → LifecycleChainRow → Bool
unfolding same_hash
link_ok none r = true
link_ok (some before) r = same_hash r.prev_hash before

-- What a row does to the loop's variables, by its two tests.
note : ℕ → LifecycleChainRow → Bool → Bool → Scan → Scan
unfolding first_break is_seen
note i r false link s = record s { linked = false; broken_at = first_break s.broken_at i }
note i r true true s = s
note i r true false s =
    if is_seen r.prev_hash s.seen
    then record s { linked = false; forks = s.forks ++ i ∷ [] }
    else record s { linked = false; broken_at = first_break s.broken_at i }

starts : List LifecycleChainRow → Bool
starts [] = true
starts (r ∷ rows) = hex_eq (or_genesis r.prev_hash) genesis_hash

is_none : Option ℕ → Bool
is_none none = true
is_none (some b) = false

abbrev at_start : Scan
at_start = record { linked = true; broken_at = none; forks = []; seen = [] }

module _ (hash : LifecycleBody → Hex) where
  body_ok : LifecycleChainRow → Bool
  unfolding same_hash body_of or_genesis
  body_ok r = same_hash (some (hash (body_of r))) r.body_hash

  scan : ℕ → Option (Option Hex) → List LifecycleChainRow → Scan → Scan
  unfolding note see
  scan i before [] s = s
  scan i before (r ∷ rows) s =
      let s' = note i r (body_ok r) (link_ok before r) s in
      scan (i + 1) (some r.body_hash) rows (record s' { seen = see r.body_hash s'.seen })

  pub verify_lifecycle_rows : List LifecycleChainRow → LifecycleChainCheck
  unfolding scan starts is_none
  verify_lifecycle_rows rows =
      let s = scan 0 none rows at_start in
      record {
        linked = s.linked;
        intact = is_none s.broken_at;
        forks = s.forks;
        starts_at_genesis = starts rows;
        length = length rows;
        broken_at = s.broken_at;
      }

-- The worker's entries: an input whose optional fields have their defaults in the body.
pub record LifecycleEntryInput : Type 0 where
  pub prev_state : Option String
  pub new_state : String
  pub reason : String
  pub is_snapshot : Option Bool
  pub key_hash_prefix : Option String
  pub balance_usd : Option ℤ
  pub key_remaining_usd : Option ℤ
  pub reserve_usd : Option ℤ
  pub ledger_spend_usd : Option ℤ
  pub provider_spend_usd : Option ℤ
  pub ids_mismatch : Option Bool

pub record LifecycleEntry : Type 0 where
  pub input : LifecycleEntryInput
  pub time : String
  pub prev_hash : Hex
  pub body_hash : Hex

or_false : Option Bool → Bool
or_false none = false
or_false (some b) = b

pub fields_of : LifecycleEntryInput → String → LifecycleFields
unfolding or_false
fields_of input time = record {
  time = time;
  prev_state = input.prev_state;
  new_state = input.new_state;
  reason = input.reason;
  is_snapshot = or_false input.is_snapshot;
  key_hash_prefix = input.key_hash_prefix;
  balance_usd = input.balance_usd;
  key_remaining_usd = input.key_remaining_usd;
  reserve_usd = input.reserve_usd;
  ledger_spend_usd = input.ledger_spend_usd;
  provider_spend_usd = input.provider_spend_usd;
  ids_mismatch = or_false input.ids_mismatch;
}

module _ (hash : LifecycleBody → Hex) where
  pub build_lifecycle_entry : LifecycleEntryInput → String → Hex → LifecycleEntry
  build_lifecycle_entry input time prev = record {
    input = input;
    time = time;
    prev_hash = prev;
    body_hash = hash (record { fields = fields_of input time; prev_hash = prev });
  }

  chain_from : Hex → List LifecycleEntry → Bool
  unfolding build_lifecycle_entry
  chain_from prev [] = true
  chain_from prev (e ∷ es) =
      let recomputed = (build_lifecycle_entry e.input e.time e.prev_hash).body_hash in
      hex_eq e.prev_hash prev && hex_eq recomputed e.body_hash && chain_from e.body_hash es

  pub verify_lifecycle_chain : List LifecycleEntry → Bool
  unfolding chain_from
  verify_lifecycle_chain es = chain_from genesis_hash es
