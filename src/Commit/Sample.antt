-- ===== src/Commit/Sample.antt =====
-- A pair hash for trying the tree and the job out.
use tripwire_launch_auditor.Prelude.{ℕ, ◌+◌, ◌≡◌, refl, [], ◌∷◌, ◌++◌, map, arith}
use tripwire_launch_auditor.Hex.{Hex, to_lower_case}
use tripwire_launch_auditor.Commit.Merkle.Fold.{IsLower}

-- Both texts moved out of the letters, with a mark between them.
abbrev pub shift : ℕ → ℕ
shift c = c + 200

abbrev pub sample_pair : Hex → Hex → Hex
sample_pair a b = map shift a ++ 100 ∷ map shift b

shift-IsLower : (a : Hex) → IsLower (map shift a)
unfolding to_lower_case
shift-IsLower [] = refl
shift-IsLower (c ∷ a) = ground (arith, shift-IsLower a)

pub sample_pair-IsLower : (a b : Hex) → IsLower (sample_pair a b)
unfolding to_lower_case
sample_pair-IsLower [] b = ground (arith, shift-IsLower b)
sample_pair-IsLower (c ∷ a) b = ground (arith, sample_pair-IsLower a b)

shifted_injective : (a b : Hex) → map shift a ≡ map shift b → a ≡ b
shifted_injective [] [] e = refl
shifted_injective [] (d ∷ b) e = cc
shifted_injective (c ∷ a) [] e = cc
shifted_injective (c ∷ a) (d ∷ b) e = ground (arith, shifted_injective a b)

pub sample_pair-injective : (a b c d : Hex) → sample_pair a b ≡ sample_pair c d → (a ≡ c) × (b ≡ d)
sample_pair-injective [] b [] d e = ground (arith, shifted_injective b d)
sample_pair-injective [] b (z ∷ c) d e = ground arith
sample_pair-injective (x ∷ a) b [] d e = ground arith
sample_pair-injective (x ∷ a) b (z ∷ c) d e = ground (arith, sample_pair-injective a b c d)
