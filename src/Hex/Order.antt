-- ===== src/Hex/Order.antt =====
-- The order of texts is total and antisymmetric; lowering is done once.
use tripwire_launch_auditor.Prelude.{◌≡◌, refl, true, false, [], ◌∷◌, arith}
use tripwire_launch_auditor.Hex.{Hex, hex_le, to_lower_case}

pub hex_le_antisymm : (a b : Hex) → hex_le a b ≡ true → hex_le b a ≡ true → a ≡ b
unfolding hex_le
hex_le_antisymm [] [] h k = refl
hex_le_antisymm [] (d ∷ b) h k = ground arith
hex_le_antisymm (c ∷ a) [] h k = ground arith
hex_le_antisymm (c ∷ a) (d ∷ b) h k = ground (arith, hex_le_antisymm a b)

pub hex_le_total : (a b : Hex) → hex_le a b ≡ false → hex_le b a ≡ true
unfolding hex_le
hex_le_total [] b h = ground arith
hex_le_total (c ∷ a) [] h = refl
hex_le_total (c ∷ a) (d ∷ b) h = ground (arith, hex_le_total a b)

pub to_lower_case_idem : (a : Hex) → to_lower_case (to_lower_case a) ≡ to_lower_case a
unfolding to_lower_case
to_lower_case_idem [] = refl
to_lower_case_idem (c ∷ a) = ground (arith, to_lower_case_idem a)

pub hex_le_trans : (a b c : Hex) → hex_le a b ≡ true → hex_le b c ≡ true → hex_le a c ≡ true
unfolding hex_le
hex_le_trans [] b c h k = refl
hex_le_trans (x ∷ a) [] c h k = ground arith
hex_le_trans (x ∷ a) (y ∷ b) [] h k = k
hex_le_trans (x ∷ a) (y ∷ b) (z ∷ c) h k = ground (arith, hex_le_trans a b c)

pub hex_le_refl : (a : Hex) → hex_le a a ≡ true
hex_le_refl a = ground (arith, hex_le_total a a)
