-- ===== src/Outcomes/Sweep/Fair.antt =====
-- How the rows of several labels share a sweep.
use tripwire_launch_auditor.Prelude.{
  ℕ, zero, suc, ◌+◌, ◌-◌, ◌≤◌, ◌<◌, ◌≡◌, ◌↔◌, inl, inr, refl, Bool, Option, none, some, List, [],
  ◌∷◌, ◌++◌, map, length, get_elem?, take, All, arith, Option-cases, ap, sym, subst, ◌∙◌,
}
use tripwire_launch_auditor.Scoring.Outcome.{OutcomeLabel}
use tripwire_launch_auditor.Outcomes.Rows.{OutcomeRow}
use tripwire_launch_auditor.Outcomes.Sweep.Interleave.{round, rounds, interleave}
use tripwire_launch_auditor.Outcomes.Sweep.{SweepFilter, fair}
use tripwire_launch_auditor.Outcomes.Sweep.Queue.{IsQueue, queue_of, queue_of-IsQueue}
use tripwire_launch_auditor.Outcomes.Sweep.Labels.{Among, Wanted, labels-Wanted}
use tripwire_launch_auditor.Outcomes.Sweep.Due.{label_group, labels, picked_by, due_rows}

module _ {ℓ} {A : Type ℓ} where
  -- The entries of number `i`, in the order of the groups.
  pub column : ℕ → List (List A) → List A
  column i [] = []
  column i (g ∷ gs) = elim (get_elem? g i) [ none ↦ column i gs | some x ↦ x ∷ column i gs ]

  -- The entries of the numbers from `i` on, `n` of them.
  pub columns : ℕ → ℕ → List (List A) → List A
  columns zero i groups = []
  columns (suc n) i groups = column i groups ++ columns n (i + 1) groups

  round-column :
      (i : ℕ) (groups : List (List A)) (room : ℕ)
      → 0 < room
      → round i groups room ≡ take room (column i groups)
  unfolding round column
  round-column i [] zero h = refl
  round-column i [] (suc room) h = refl
  round-column i (g ∷ gs) zero h = absurd (omega arith)
  round-column i (g ∷ gs) (suc zero) h = ground (arith, round-column i gs 1 h)
  round-column i (g ∷ gs) (suc (suc room)) h =
      ground
        (arith, round-column i gs (suc (suc room)) h, round-column i gs (suc room) (omega arith))

  take-append : (n : ℕ) (xs ys : List A) → take n (xs ++ ys) ≡ take n xs ++ take (n - length xs) ys
  take-append zero [] ys = refl
  take-append zero (x ∷ xs) ys = let e : 0 - suc (length xs) ≡ 0 = omega arith in rw e
  take-append (suc n) [] ys = let e : suc n - 0 ≡ suc n = omega arith in rw e
  take-append (suc n) (x ∷ xs) ys =
      let e : suc n - suc (length xs) ≡ n - length xs = omega arith in
      rw e (ap (◌∷◌ x) (take-append n xs ys))

  length-take : (n : ℕ) (xs : List A) → length (take n xs) ≤ n
  length-take zero xs = omega arith
  length-take (suc n) [] = omega arith
  length-take (suc n) (x ∷ xs) = omega (arith, length-take n xs)

  get_elem?-none : (g : List A) (i : ℕ) → length g ≤ i → get_elem? g i ≡ none
  get_elem?-none [] i h = refl
  get_elem?-none (x ∷ g) zero h = absurd (omega arith)
  get_elem?-none (x ∷ g) (suc i) h = get_elem?-none g i (omega arith)

  none-length : (g : List A) (i : ℕ) → get_elem? g i ≡ none → length g ≤ i
  none-length [] i h = omega arith
  none-length (x ∷ g) zero h = cc
  none-length (x ∷ g) (suc i) h = omega (arith, none-length g i h)

  column-nil :
      (i : ℕ) (groups : List (List A)) → column i groups ≡ [] → All (λ g. length g ≤ i) groups
  unfolding column
  column-nil i [] h = tt
  column-nil i (g ∷ gs) h = elim (Option-cases (get_elem? g i)) [
    | inl e ↦ (none-length g i e, column-nil i gs (ground (arith, e)))
    | inr (x, e) ↦ absurd (ground (arith, e))
  ]

  column-done :
      (i : ℕ) (groups : List (List A)) → All (λ g. length g ≤ i) groups → column i groups ≡ []
  unfolding column
  column-done i [] h = refl
  column-done i (g ∷ gs) (h, hs) = ground (arith, get_elem?-none g i h, column-done i gs hs)

  All-later :
      (i j : ℕ) (groups : List (List A))
      → i ≤ j
      → All (λ g. length g ≤ i) groups
      → All (λ g. length g ≤ j) groups
  All-later i j [] le h = tt
  All-later i j (g ∷ gs) le (h, hs) = (omega arith, All-later i j gs le hs)

  columns-done :
      (n i : ℕ) (groups : List (List A)) → All (λ g. length g ≤ i) groups → columns n i groups ≡ []
  unfolding columns
  columns-done zero i groups h = refl
  columns-done (suc n) i groups h = ground (
    arith,
    column-done i groups h,
    columns-done n (i + 1) groups (All-later i (i + 1) groups (omega arith) h),
  )

  sub-length-take : (n : ℕ) (xs : List A) → n - length (take n xs) ≡ n - length xs
  sub-length-take zero xs = omega arith
  sub-length-take (suc n) [] = refl
  sub-length-take (suc n) (x ∷ xs) = omega (arith, sub-length-take n xs)

  -- One pass of the loop that takes something.
  rounds-step :
      (fuel i : ℕ) (groups : List (List A)) (room : ℕ) (x : A) (xs : List A)
      → round i groups (suc room) ≡ x ∷ xs
      → rounds (suc fuel) i groups (suc room)
        ≡ (x ∷ xs) ++ rounds fuel (i + 1) groups (suc room - length (x ∷ xs))
  unfolding rounds
  rounds-step fuel i groups room x xs h = ground (arith, h)

  rounds-end :
      (fuel i : ℕ) (groups : List (List A)) (room : ℕ)
      → round i groups room ≡ []
      → rounds fuel i groups room ≡ []
  unfolding rounds
  rounds-end zero i groups room h = refl
  rounds-end (suc fuel) i groups room h = ground (arith, h)

  rounds-more :
      (fuel i : ℕ) (groups : List (List A)) (room : ℕ) (c later : List A)
      → column i groups ≡ c
      → (All (λ g. length g ≤ i) groups → later ≡ [])
      → suc room ≤ suc fuel
      → (suc room - length (take (suc room) c) ≤ fuel
          → rounds fuel (i + 1) groups (suc room - length (take (suc room) c))
            ≡ take (suc room - length (take (suc room) c)) later)
      → rounds (suc fuel) i groups (suc room) ≡ take (suc room) (c ++ later)
  rounds-more fuel i groups room [] later e done fits ih =
      let r : round i groups (suc room) ≡ [] =
        round-column i groups (suc room) (omega arith) ∙ ap (take (suc room)) e in
      rounds-end (suc fuel) i groups (suc room) r
      ∙ ap (take (suc room)) (sym (done (column-nil i groups e)))
  rounds-more fuel i groups room (x ∷ xs) later e done fits ih =
      let r : round i groups (suc room) ≡ x ∷ take room xs =
        round-column i groups (suc room) (omega arith) ∙ ap (take (suc room)) e in
      rounds-step fuel i groups room x (take room xs) r
      ∙ ap (λ t. (x ∷ take room xs) ++ t)
          (ih (omega arith) ∙ ap (λ k. take k later) (sub-length-take (suc room) (x ∷ xs)))
      ∙ sym (take-append (suc room) (x ∷ xs) later)

  rounds-columns :
      (fuel n i : ℕ) (groups : List (List A)) (room : ℕ)
      → room ≤ fuel
      → All (λ g. length g ≤ i + n) groups
      → rounds fuel i groups room ≡ take room (columns n i groups)
  unfolding rounds columns
  rounds-columns zero n i groups zero r h = refl
  rounds-columns zero n i groups (suc room) r h = absurd (omega arith)
  rounds-columns (suc fuel) n i groups zero r h = refl
  rounds-columns (suc fuel) zero i groups (suc room) r h =
      let same : i + 0 ≡ i = omega arith in
      rounds-end (suc fuel) i groups (suc room) (
        round-column i groups (suc room) (omega arith)
        ∙ ap (take (suc room))
            (column-done i groups (subst (λ k. All (λ g. length g ≤ k) groups) same h)))
  rounds-columns (suc fuel) (suc n) i groups (suc room) r h =
      let same : i + suc n ≡ i + 1 + n = omega arith in
      let left = suc room - length (take (suc room) (column i groups)) in
      rounds-more fuel i groups room (column i groups) (columns n (i + 1) groups) refl
        (λ d. columns-done n (i + 1) groups (All-later i (i + 1) groups (omega arith) d)) r
        (λ le.
          rounds-columns fuel n (i + 1) groups left le
            (subst (λ k. All (λ g. length g ≤ k) groups) same h))

  -- The rows that are taken are the first ones, as many as the limit, of this order: the first of each
  -- group, then the second of each, and so on.
  pub interleave-columns :
      (groups : List (List A)) (limit n : ℕ)
      → All (λ g. length g ≤ n) groups
      → interleave groups limit ≡ take limit (columns n 0 groups)
  unfolding interleave
  interleave-columns groups limit n h =
      let same : n ≡ 0 + n = omega arith in
      rounds-columns limit n 0 groups limit (omega arith)
        (subst (λ k. All (λ g. length g ≤ k) groups) same h)

groups-short :
    (qualified : Option ℕ → Bool) (now : ℕ) (f : SweepFilter) (limit : ℕ) (table : List OutcomeRow)
    (ls : List OutcomeLabel)
    → All (λ g. length g ≤ limit) (map (label_group qualified now f limit table) ls)
unfolding label_group
groups-short qualified now f limit table [] = tt
groups-short qualified now f limit table (l ∷ ls) =
    (length-take limit _, groups-short qualified now f limit table ls)

groups_lem :
    (qualified : Option ℕ → Bool) (now : ℕ) (f : SweepFilter) (limit : ℕ) (table : List OutcomeRow)
    (ls : List OutcomeLabel)
    → map (label_group qualified now f limit table) ls
      ≡ map (λ l. take limit (queue_of qualified now f table l)) ls
unfolding label_group queue_of
groups_lem qualified now f limit table [] = refl
groups_lem qualified now f limit table (l ∷ ls) =
    ap (◌∷◌ (take limit (queue_of qualified now f table l)))
      (groups_lem qualified now f limit table ls)

-- In the fair order, every wanted label has a queue of the rows that are due for it, the oldest horizon
-- first, and the sweep picks as many rows as its limit, or all that there are, of this sequence: of
-- each wanted label the first row of its queue, then of each the second, and so on, where a queue
-- counts up to the limit.
pub due_rows-fair :
    (qualified : Option ℕ → Bool) (now : ℕ) (f : SweepFilter) (limit : ℕ) (table : List OutcomeRow)
    → f.order ≡ fair
    → (queues : OutcomeLabel → List OutcomeRow) × (wanted : List OutcomeLabel) × ((l : OutcomeLabel)
        → IsQueue qualified now f table l (queues l))
      × ((l : OutcomeLabel) → Among l wanted ↔ Wanted f l)
      × (due_rows qualified now f limit table
          ≡ take limit (columns limit 0 (map (λ l. take limit (queues l)) wanted)))
unfolding due_rows picked_by
due_rows-fair qualified now f limit table h =
    let groups = map (label_group qualified now f limit table) (labels f) in
    (
      queue_of qualified now f table,
      labels f,
      queue_of-IsQueue qualified now f table,
      labels-Wanted f,
      ground (
        arith,
        interleave-columns groups limit limit (groups-short qualified now f limit table (labels f)),
        groups_lem qualified now f limit table (labels f),
      ),
    )
