-- ===== src/Commit/Merkle/Examples.antt =====
-- A pair hash for trying the tree out, and the theorems at small batches.
use tripwire_launch_auditor.Prelude.{◌≡◌, refl, List, [], ◌∷◌, map, some, arith, All}
use tripwire_launch_auditor.Hex.{Hex, hex_eq, hex_le, to_lower_case}
use tripwire_launch_auditor.Commit.Merkle.{
  MerkleTree, contains, build_merkle_tree, hash_pair, verify_proof,
}
use tripwire_launch_auditor.Commit.Sample.{sample_pair, sample_pair-IsLower, sample_pair-injective}
use tripwire_launch_auditor.Commit.Merkle.Canonical.{build_merkle_tree-canonical}
use tripwire_launch_auditor.Commit.Merkle.Verifies.{Accepted, build_merkle_tree-verifies}
use tripwire_launch_auditor.Commit.Merkle.Binding.{verify_proof-binding}

-- "0xB1", "0xa2", "0xA2", "0xc3": one hash is given twice.
abbrev batch : List Hex
batch =
    (48 ∷ 120 ∷ 66 ∷ 49 ∷ [])
    ∷ (48 ∷ 120 ∷ 97 ∷ 50 ∷ [])
    ∷ (48 ∷ 120 ∷ 65 ∷ 50 ∷ [])
    ∷ (48 ∷ 120 ∷ 99 ∷ 51 ∷ [])
    ∷ []

abbrev reordered : List Hex
reordered = (48 ∷ 120 ∷ 67 ∷ 51 ∷ []) ∷ (48 ∷ 120 ∷ 97 ∷ 50 ∷ []) ∷ (48 ∷ 120 ∷ 98 ∷ 49 ∷ []) ∷ []

build_merkle_tree-verifies_example :
    (t : MerkleTree) × (build_merkle_tree sample_pair batch ≡ some t)
    × All (Accepted sample_pair t) batch
build_merkle_tree-verifies_example =
    build_merkle_tree-verifies sample_pair sample_pair-IsLower batch (omega arith)

-- Each entry of the two batches is the same text once lowered, so they have the same members.
same_members :
    (a : Hex) → contains a (map to_lower_case batch) ≡ contains a (map to_lower_case reordered)
unfolding contains to_lower_case
same_members a = ground arith

build_merkle_tree-canonical_example :
    build_merkle_tree sample_pair batch ≡ build_merkle_tree sample_pair reordered
build_merkle_tree-canonical_example =
    build_merkle_tree-canonical sample_pair batch reordered same_members

abbrev leaf_root : Hex
leaf_root = 48 ∷ 120 ∷ 97 ∷ 50 ∷ []

verify_proof-binding_example :
    to_lower_case (48 ∷ 120 ∷ 97 ∷ 50 ∷ []) ≡ to_lower_case (48 ∷ 120 ∷ 65 ∷ 50 ∷ [])
unfolding verify_proof hash_pair hex_le hex_eq to_lower_case
verify_proof-binding_example =
    verify_proof-binding sample_pair sample_pair-IsLower (48 ∷ 120 ∷ 97 ∷ 50 ∷ [])
      (48 ∷ 120 ∷ 65 ∷ 50 ∷ []) ((48 ∷ []) ∷ []) (sample_pair (48 ∷ []) (48 ∷ 120 ∷ 97 ∷ 50 ∷ []))
      (
        (
          sample_pair-injective _ _ _ _,
          sample_pair-injective _ _ _ _,
          sample_pair-injective _ _ _ _,
          sample_pair-injective _ _ _ _,
        ),
        tt,
      )
      refl refl
