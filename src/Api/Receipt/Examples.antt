-- ===== src/Api/Receipt/Examples.antt =====
-- A receipt under a pair hash and a text hash for trying out.
use tripwire_launch_auditor.Prelude.{◌≡◌, ◌↔◌, String, true, Option, none, some, [], ◌∷◌}
use tripwire_launch_auditor.Hex.{Hex}
use tripwire_launch_auditor.Commit.Sample.{sample_pair}
use tripwire_launch_auditor.Api.Receipt.{Content, Receipt, Commitment, verify_receipt_offline}
use tripwire_launch_auditor.Api.Receipt.Agreement.{all_ok, IsValid, verify_receipt_offline-IsValid}

abbrev text_hash : String → Hex
text_hash s = 48 ∷ 120 ∷ 97 ∷ []

abbrev content_of : String → Option Content
content_of s = some (record {
  chain_id = some 4663;
  token_address = some [];
  report_time = some 9000;
  forecaster = some "det_v0";
})

abbrev signer_of : Commitment → Hex → Hex
signer_of c s = s

abbrev plain_receipt : Receipt
plain_receipt = record {
  canonical_json = "{}";
  signature = some (48 ∷ []);
  commit = record {
    committed = true;
    proof = some [];
    merkle_root = some (48 ∷ 120 ∷ 65 ∷ []);
    tx_hash = none;
    block_number = none;
  };
  outcomes = "6h" ∷ [];
}

verify_receipt_offline-IsValid_example :
    (all_ok (
        verify_receipt_offline text_hash sample_pair content_of signer_of plain_receipt
          (48 ∷ 120 ∷ 65 ∷ [])
          (48 ∷ []))
      ≡ true)
    ↔ IsValid text_hash sample_pair content_of signer_of plain_receipt
        (48 ∷ 120 ∷ 65 ∷ [])
        (48 ∷ [])
verify_receipt_offline-IsValid_example =
    verify_receipt_offline-IsValid text_hash sample_pair content_of signer_of plain_receipt
      (48 ∷ 120 ∷ 65 ∷ []) (48 ∷ [])
