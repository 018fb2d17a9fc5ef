-- ===== src/Api/Receipt.antt =====
-- apps/api/src/merkle.ts and verify-receipt.ts: checking a receipt. Parameters stand for keccak256,
-- for the parser of the canonical JSON, for the recovery of an EIP-712 signer and for the decoder of
-- an event; the texts of the details are left out. A text that is absent or
-- empty is `none`, as is an absent proof.
pub mod Agreement
pub mod Recorded
pub mod Examples
use tripwire_launch_auditor.Prelude.{
  ℕ, ◌+◌, ◌*◌, ◌/◌, String, Bool, true, false, ◌&&◌, Option, none, some, List, [], ◌∷◌, ◌++◌, map,
  ◌==◌, if◌then◌else◌,
}
use tripwire_launch_auditor.Hex.{Hex, hex_eq, hex_le, to_lower_case}
use tripwire_launch_auditor.Scoring.Eligibility.{
  Eligibility, EligibilityInput, classify_eligibility, horizon_to_ms,
}

module _ (pair : Hex → Hex → Hex) where
  pub api_hash_pair : Hex → Hex → Hex
  api_hash_pair a b = if hex_le (to_lower_case a) (to_lower_case b) then pair a b else pair b a

  pub api_fold : Hex → List Hex → Hex
  unfolding api_hash_pair
  api_fold computed [] = computed
  api_fold computed (sibling ∷ proof) = api_fold (api_hash_pair computed sibling) proof

  pub api_verify_proof : Hex → List Hex → Hex → Bool
  unfolding api_fold
  api_verify_proof leaf proof root =
      hex_eq (to_lower_case (api_fold (to_lower_case leaf) proof)) (to_lower_case root)

-- The fields of the canonical JSON; the report's time is in milliseconds, where it parses.
pub record Content : Type 0 where
  pub chain_id : Option ℕ
  pub token_address : Option Hex
  pub report_time : Option ℕ
  pub forecaster : Option String

pub record ReceiptCommit : Type 0 where
  pub committed : Bool
  pub proof : Option (List Hex)
  pub merkle_root : Option Hex
  pub tx_hash : Option Hex
  pub block_number : Option ℕ

pub record Receipt : Type 0 where
  pub canonical_json : String
  pub signature : Option Hex
  pub commit : ReceiptCommit
  -- the horizons of its outcomes
  pub outcomes : List String

pub data CheckName : Type 0 where
  hash signature merkle on_chain_root block block_time : CheckName

pub record Check : Type 0 where
  pub name : CheckName
  pub ok : Bool

pub check : CheckName → Bool → Check
check name ok = record { name = name; ok = ok }

-- What the signature covers.
pub record Commitment : Type 0 where
  pub report_hash : Hex
  pub chain_id : ℕ
  pub token : Hex
  -- in seconds
  pub report_time : ℕ
  pub forecaster : String

-- `none` where the content lacks a field.
pub commitment_of : Hex → Content → Option Commitment
commitment_of recomputed c = elim c.chain_id [
  | none ↦ none
  | some id ↦ elim c.token_address [
    | none ↦ none
    | some token ↦ elim c.report_time [
      | none ↦ none
      | some time ↦ elim c.forecaster [
        | none ↦ none
        | some forecaster ↦ some (record {
          report_hash = recomputed;
          chain_id = id;
          token = token;
          report_time = time / 1000;
          forecaster = forecaster;
        })
      ]
    ]
  ]
]

module _ (keccak : String → Hex) (pair : Hex → Hex → Hex) where
  pub merkle_check : Hex → Option (List Hex) → Option Hex → Check
  unfolding check api_fold
  merkle_check recomputed none root = check merkle false
  merkle_check recomputed (some proof) none = check merkle false
  merkle_check recomputed (some proof) (some root) =
      check merkle (
        hex_eq (to_lower_case (api_fold pair (to_lower_case recomputed) proof))
          (to_lower_case root))

  module _ (parse : String → Option Content) (recover : Commitment → Hex → Hex) where
    signature_check : Hex → Hex → Option Hex → Content → Check
    unfolding check commitment_of
    signature_check recomputed expected_signer none content = check signature false
    signature_check recomputed expected_signer (some s) content =
        elim (commitment_of recomputed content) [
          | none ↦ check signature false
          | some c ↦
              check signature (hex_eq (to_lower_case (recover c s)) (to_lower_case expected_signer))
        ]

    pub verify_receipt_offline : Receipt → Hex → Hex → List Check
    unfolding signature_check merkle_check
    verify_receipt_offline receipt expected_hash expected_signer =
        let recomputed = keccak receipt.canonical_json in
        let hashed = check hash (hex_eq (to_lower_case recomputed) (to_lower_case expected_hash)) in
        elim (parse receipt.canonical_json) [
          | none ↦ hashed ∷ check signature false ∷ []
          | some content ↦
              hashed
              ∷ signature_check recomputed expected_signer receipt.signature content
              ∷ merkle_check recomputed receipt.commit.proof receipt.commit.merkle_root
              ∷ []
        ]

-- `root` is set where the log decodes as a `BatchCommitted` event.
pub record TxLog : Type 0 where
  pub address : Hex
  pub root : Option Hex

pub root_in_tx_logs : List TxLog → Hex → Hex → Bool
root_in_tx_logs [] registry merkle_root = false
root_in_tx_logs (l ∷ logs) registry merkle_root =
    let rest = root_in_tx_logs logs registry merkle_root in
    let emitted : Bool = elim l.root [
      | none ↦ rest
      | some r ↦ if hex_eq (to_lower_case r) (to_lower_case merkle_root) then true else rest
    ] in
    if hex_eq (to_lower_case l.address) (to_lower_case registry) then emitted else rest

-- The transaction's receipt and its block, as the chain answers.
pub record ChainTx : Type 0 where
  pub success : Bool
  pub block_number : ℕ
  pub logs : List TxLog
  -- in seconds
  pub timestamp : ℕ

on_chain : ChainTx → Hex → ℕ → Hex → List Check × Option ℕ
unfolding check
on_chain tx registry number root = (
  check on_chain_root (tx.success && root_in_tx_logs tx.logs registry root)
      ∷ check block (tx.block_number == number)
      ∷ check block_time true
      ∷ [],
  some (tx.timestamp * 1000),
)

pub verify_receipt_on_chain : (Hex → ChainTx) → Receipt → Hex → List Check × Option ℕ
unfolding on_chain
verify_receipt_on_chain chain receipt registry = elim receipt.commit.block_number [
  | none ↦ (check on_chain_root false ∷ [], none)
  | some number ↦ elim receipt.commit.merkle_root [
    | none ↦ (check on_chain_root false ∷ [], none)
    | some root ↦ elim receipt.commit.tx_hash [
      | none ↦ (check on_chain_root false ∷ [], none)
      | some h ↦ on_chain (chain h) registry number root
    ]
  ]
]

or_epoch : Option ℕ → ℕ
or_epoch none = 0
or_epoch (some t) = t

-- `none` is the thrown "unknown horizon".
pub eligibility_from_chain : Content → Receipt → Option ℕ → String → Option Eligibility
unfolding or_epoch
eligibility_from_chain content receipt chain_time horizon =
    let anchor = or_epoch content.report_time in
    elim (horizon_to_ms horizon) [
      | none ↦ none
      | some ms ↦ some (
          classify_eligibility (record {
            report_time = anchor;
            committed = receipt.commit.committed;
            commit_block_time = chain_time;
            horizon_end = anchor + ms;
          }))
    ]
