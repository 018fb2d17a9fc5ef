-- ===== src/Commit/Merkle/Binding.antt =====
-- What an accepted proof says: where no pairs collide, a root and a proof fix the leaf.
use tripwire_launch_auditor.Prelude.{◌≡◌, sym, ◌∙◌, true, List, [], ◌∷◌, arith}
use tripwire_launch_auditor.Hex.{Hex, hex_eq_iff, to_lower_case}
use tripwire_launch_auditor.Hex.Order.{to_lower_case_idem}
use tripwire_launch_auditor.Commit.Merkle.{hash_pair, fold_proof, verify_proof}
use tripwire_launch_auditor.Commit.Merkle.Fold.{IsLower, hash_pair-IsLower}

module _ (pair : Hex → Hex → Hex) where
  -- If two pairs have one hash, then they are one pair.
  abbrev Apart : Hex → Hex → Hex → Hex → Type 0
  Apart a b c d = pair a b ≡ pair c d → (a ≡ c) × (b ≡ d)

  -- No two pairs that two nodes make with the sibling, in either order, collide; and so on up the proof.
  abbrev pub NoCollision : Hex → Hex → List Hex → Type 0
  NoCollision a b [] = Unit
  NoCollision a b (s ∷ p) =
      (Apart a s b s × Apart s a s b × Apart a s s b × Apart s a b s)
      × NoCollision (hash_pair pair a s) (hash_pair pair b s) p

  hash_pair-injective :
      (a b s : Hex)
      → Apart a s b s × Apart s a s b × Apart a s s b × Apart s a b s
      → hash_pair pair a s ≡ hash_pair pair b s
      → a ≡ b
  unfolding hash_pair
  hash_pair-injective a b s (h, k, l, m) e = ground (arith, h, k, l, m)

  fold_proof-injective :
      (a b : Hex) (p : List Hex)
      → NoCollision a b p
      → fold_proof pair a p ≡ fold_proof pair b p
      → a ≡ b
  unfolding fold_proof
  fold_proof-injective a b [] n e = e
  fold_proof-injective a b (s ∷ p) (h, n) e =
      hash_pair-injective a b s h
        (fold_proof-injective (hash_pair pair a s) (hash_pair pair b s) p n e)

  module _ (digest : (a b : Hex) → IsLower (pair a b)) where
    fold_proof-IsLower : (a : Hex) (p : List Hex) → IsLower a → IsLower (fold_proof pair a p)
    unfolding fold_proof
    fold_proof-IsLower a [] low = low
    fold_proof-IsLower a (s ∷ p) low =
        fold_proof-IsLower (hash_pair pair a s) p (hash_pair-IsLower pair digest a s)

    -- One proof leads two report hashes to one root only if they are the same hash, up to letter
    -- case, where no two pairs of a node and its sibling on the two ways to the root collide, and the
    -- pair hash gives lower-case digests.
    pub verify_proof-binding :
        (a b : Hex) (p : List Hex) (root : Hex)
        → NoCollision (to_lower_case a) (to_lower_case b) p
        → verify_proof pair a p root ≡ true
        → verify_proof pair b p root ≡ true
        → to_lower_case a ≡ to_lower_case b
    unfolding verify_proof
    verify_proof-binding a b p root n h k =
        fold_proof-injective (to_lower_case a) (to_lower_case b) p n (
          sym (fold_proof-IsLower (to_lower_case a) p (to_lower_case_idem a))
          ∙ (hex_eq_iff _ _).0 h
          ∙ sym ((hex_eq_iff _ _).0 k)
          ∙ fold_proof-IsLower (to_lower_case b) p (to_lower_case_idem b))
