-- ===== src/Outcomes/Sweep/Interleave.antt =====
-- apps/worker/src/outcomes/loop.ts: `interleave`, the rounds over the queues of the labels.
use tripwire_launch_auditor.Prelude.{
  ℕ, zero, suc, ◌+◌, ◌-◌, Bool, true, false, none, some, List, [], ◌∷◌, ◌++◌, length, get_elem?,
  ◌==◌, if◌then◌else◌,
}

-- One round over the groups, with room for so many more.
unfoldable pub round {ℓ} : {A : Type ℓ} → ℕ → List (List A) → ℕ → List A
round i [] room = []
round i (g ∷ gs) room =
    let more = round i gs (room - 1) in
    elim (get_elem? g i) [
      | none ↦ round i gs room
      | some x ↦ if room - 1 == 0 then x ∷ [] else x ∷ more
    ]

unfoldable pub is_nil {ℓ} : {A : Type ℓ} → List A → Bool
is_nil [] = true
is_nil (x ∷ xs) = false

-- The rounds from number `i` on, on fuel: a round that takes nothing is the last.
unfoldable pub rounds {ℓ} : {A : Type ℓ} → ℕ → ℕ → List (List A) → ℕ → List A
unfolding is_nil
rounds zero i groups room = []
rounds (suc fuel) i groups room =
    let taken = round i groups room in
    let more = rounds fuel (i + 1) groups (room - length taken) in
    if room == 0 then [] else if is_nil taken then [] else taken ++ more

unfoldable pub interleave {ℓ} : {A : Type ℓ} → List (List A) → ℕ → List A
unfolding rounds
interleave groups limit = rounds limit 0 groups limit
