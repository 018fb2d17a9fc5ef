-- ===== src/Commit/Merkle/Fold.antt =====
-- Folding a proof: the pair hash does not see the order of lowered nodes, and a proof is folded
-- from the leaf upwards.
use tripwire_launch_auditor.Prelude.{◌≡◌, refl, List, [], ◌∷◌, ◌++◌, arith, Bool-cases, inl, inr}
use tripwire_launch_auditor.Hex.{Hex, hex_le, to_lower_case}
use tripwire_launch_auditor.Hex.Order.{hex_le_antisymm, hex_le_total}
use tripwire_launch_auditor.Commit.Merkle.{hash_pair, fold_proof}

abbrev pub IsLower : Hex → Type 0
IsLower a = to_lower_case a ≡ a

module _ (pair : Hex → Hex → Hex) where
  pub hash_pair-IsLower :
      ((a b : Hex) → IsLower (pair a b)) → (a b : Hex) → IsLower (hash_pair pair a b)
  unfolding hash_pair
  hash_pair-IsLower digest a b = elim (Bool-cases (hex_le (to_lower_case a) (to_lower_case b))) [
    | inl e ↦ rw e (digest a b)
    | inr e ↦ rw e (digest b a)
  ]

  pub hash_pair_comm : (a b : Hex) → IsLower a → IsLower b → hash_pair pair a b ≡ hash_pair pair b a
  unfolding hash_pair
  hash_pair_comm a b la lb = ground (arith, hex_le_antisymm a b, hex_le_total a b)

  pub fold_proof-append :
      (c : Hex) (p : List Hex) (s : Hex)
      → fold_proof pair c (p ++ s ∷ []) ≡ hash_pair pair (fold_proof pair c p) s
  unfolding fold_proof
  fold_proof-append c [] s = refl
  fold_proof-append c (x ∷ p) s = fold_proof-append (hash_pair pair c x) p s
