-- ===== src/Api/Receipt/Agreement.antt =====
-- The reader's checks against the worker's records.
use tripwire_launch_auditor.Prelude.{
  ◌≡◌, ◌↔◌, refl, sym, ap, ◌∙◌, String, Bool, true, false, ◌&&◌, Option, none, some, List, [], ◌∷◌,
  arith,
}
use tripwire_launch_auditor.Hex.{Hex, hex_eq, hex_eq_iff, to_lower_case}
use tripwire_launch_auditor.Commit.Merkle.{verify_proof, fold_proof, hash_pair}
use tripwire_launch_auditor.Api.Receipt.{
  Content, Receipt, Check, Commitment, signature, check, commitment_of, signature_check,
  api_hash_pair, api_fold, api_verify_proof, merkle_check, verify_receipt_offline, hash,
}

module _ (pair : Hex → Hex → Hex) where
  fold_agrees : (c : Hex) (proof : List Hex) → api_fold pair c proof ≡ fold_proof pair c proof
  unfolding api_fold fold_proof api_hash_pair hash_pair
  fold_agrees c [] = refl
  fold_agrees c (s ∷ proof) = fold_agrees (hash_pair pair c s) proof

  -- The reader's copy of the verifier gives the worker's verdict on every leaf, proof and root.
  pub api_verify_proof-agrees :
      (leaf : Hex) (proof : List Hex) (root : Hex)
      → api_verify_proof pair leaf proof root ≡ verify_proof pair leaf proof root
  unfolding api_verify_proof verify_proof
  api_verify_proof-agrees leaf proof root =
      ap (λ c. hex_eq (to_lower_case c) (to_lower_case root))
        (fold_agrees (to_lower_case leaf) proof)

three : (x y z : Bool) → ((x && (y && (z && true))) ≡ true) ↔ ((x ≡ true) × (y ≡ true) × (z ≡ true))
three x y z = ground arith

pub all_ok : List Check → Bool
all_ok [] = true
all_ok (c ∷ cs) = c.ok && all_ok cs

module _ (keccak : String → Hex) (pair : Hex → Hex → Hex) (parse : String → Option Content)
    (recover : Commitment → Hex → Hex) where
  -- What a receipt must be for a hash and a signer.
  abbrev pub IsValid : Receipt → Hex → Hex → Type 0
  IsValid r expected_hash expected_signer =
      let h = keccak r.canonical_json in
      (to_lower_case h ≡ to_lower_case expected_hash)
      × ((content : Content) × (parse r.canonical_json ≡ some content)
          × (c : Commitment) × (s : Hex) × (commitment_of h content ≡ some c)
          × (r.signature ≡ some s)
          × (to_lower_case (recover c s) ≡ to_lower_case expected_signer))
      × ((proof : List Hex) × (root : Hex) × (r.commit.proof ≡ some proof)
          × (r.commit.merkle_root ≡ some root)
          × (verify_proof pair h proof root ≡ true))

  merkle_check_ok :
      (h : Hex) (o : Option (List Hex)) (q : Option Hex)
      → ((merkle_check keccak pair h o q).ok ≡ true) ↔ (
          (proof : List Hex) × (root : Hex) × (o ≡ some proof)
          × (q ≡ some root)
          × (verify_proof pair h proof root ≡ true))
  unfolding merkle_check check api_verify_proof
  merkle_check_ok h none q = (λ e. cc, λ (p, r, e, f, v). cc)
  merkle_check_ok h (some proof) none = (λ e. cc, λ (p, r, e, f, v). cc)
  merkle_check_ok h (some proof) (some root) =
      let same = api_verify_proof-agrees pair h proof root in
      (
        λ e. (proof, root, refl, refl, sym same ∙ api_is e),
        λ (p, r, e, f, v).
            let a : proof ≡ p = cc in let b : root ≡ r = cc in is_api (same ∙ rw (a, b) v),
      )
    where
      api_is :
          hex_eq (to_lower_case (api_fold pair (to_lower_case h) proof)) (to_lower_case root) ≡ true
          → api_verify_proof pair h proof root ≡ true
      api_is e = e

      is_api :
          api_verify_proof pair h proof root ≡ true
          → hex_eq (to_lower_case (api_fold pair (to_lower_case h) proof)) (to_lower_case root)
            ≡ true
      is_api e = e

  signature_check_ok :
      (h signer : Hex) (o : Option Hex) (content : Content)
      → ((signature_check keccak pair parse recover h signer o content).ok ≡ true) ↔ (
          (c : Commitment) × (s : Hex) × (commitment_of h content ≡ some c)
          × (o ≡ some s)
          × (to_lower_case (recover c s) ≡ to_lower_case signer))
  unfolding signature_check check
  signature_check_ok h signer none content = (λ e. cc, λ (c, s, e, f, v). cc)
  signature_check_ok h signer (some s) content = by_commitment (commitment_of h content) refl
    where
      by_commitment :
          (o : Option Commitment)
          → commitment_of h content ≡ o
          → ((elim o as (λ x. Check) [
            | none ↦ check signature false
            | some c ↦ check signature (hex_eq (to_lower_case (recover c s)) (to_lower_case signer))
          ]).ok
              ≡ true)
            ↔ ((c : Commitment) × (t : Hex) × (commitment_of h content ≡ some c)
                × (some s ≡ some t)
                × (to_lower_case (recover c t) ≡ to_lower_case signer))
      by_commitment none q = (λ e. cc, λ (c, t, e, f, v). cc)
      by_commitment (some c) q = (
        λ e. (c, s, q, refl, (hex_eq_iff (to_lower_case (recover c s)) (to_lower_case signer)).0 e),
        λ (d, t, e, f, v).
            let a : c ≡ d = cc in
            let b : s ≡ t = cc in
            rw (a, b) ((hex_eq_iff (to_lower_case (recover d t)) (to_lower_case signer)).1 v),
      )

  -- All of a receipt's offline checks pass exactly where its canonical JSON has the expected hash and
  -- parses to a content, the recorded signature over that hash and content recovers to the expected
  -- signer, and the recorded proof leads from that hash to the recorded root by the worker's verifier.
  pub verify_receipt_offline-IsValid :
      (r : Receipt) (expected_hash expected_signer : Hex)
      → (all_ok (verify_receipt_offline keccak pair parse recover r expected_hash expected_signer)
          ≡ true)
        ↔ IsValid r expected_hash expected_signer
  unfolding verify_receipt_offline all_ok check
  verify_receipt_offline-IsValid r expected_hash expected_signer =
      by_content (parse r.canonical_json) refl
    where
      by_content :
          (o : Option Content)
          → parse r.canonical_json ≡ o
          → (all_ok (elim o as (λ x. List Check) [
            | none ↦
                check hash
                  (hex_eq (to_lower_case (keccak r.canonical_json)) (to_lower_case expected_hash))
                ∷ check signature false
                ∷ []
            | some content ↦
                check hash
                  (hex_eq (to_lower_case (keccak r.canonical_json)) (to_lower_case expected_hash))
                ∷ signature_check keccak pair parse recover
                    (keccak r.canonical_json)
                    expected_signer
                    r.signature
                    content
                ∷ merkle_check keccak pair
                    (keccak r.canonical_json)
                    r.commit.proof
                    r.commit.merkle_root
                ∷ []
          ])
              ≡ true)
            ↔ IsValid r expected_hash expected_signer
      by_content none q = (λ e. absurd (ground arith), λ (a, p, b). absurd (ground (arith, q, p.1)))
      by_content (some content) q =
          let h : Hex = keccak r.canonical_json in
          let (f, g) = hex_eq_iff (to_lower_case h) (to_lower_case expected_hash) in
          let (a, b) = signature_check_ok h expected_signer r.signature content in
          let (m, n) = merkle_check_ok h r.commit.proof r.commit.merkle_root in
          let (split, join) =
            three (hex_eq (to_lower_case h) (to_lower_case expected_hash))
              (signature_check keccak pair parse recover h expected_signer r.signature content).ok
              (merkle_check keccak pair h r.commit.proof r.commit.merkle_root).ok in
          (
            λ e.
                let (x, y, z) = split e in
                let (c, s, k, l, v) = a y in (f x, (content, q, c, s, k, l, v), m z),
            λ (x, (d, p, c, s, k, l, v), z).
                let same : d ≡ content = cc in join (g x, b (c, s, rw (← same) k, l, v), n z),
          )
