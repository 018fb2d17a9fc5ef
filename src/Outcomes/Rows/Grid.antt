-- ===== src/Outcomes/Rows/Grid.antt =====
-- The grid of a report is complete, and is made once.
use tripwire_launch_auditor.Prelude.{
  ℕ, ◌≡◌, ◌↔◌, inl, inr, refl, true, false, List, [], ◌∷◌, ◌++◌, length, All, if◌then◌else◌, arith,
  Bool-cases, if_intro, ap, sym, ◌∙◌,
}
use mathlib.Core.List.{append-nil, append_assoc}
use tripwire_launch_auditor.Hex.{hex_eq_iff, to_lower_case}
use tripwire_launch_auditor.Scoring.Outcome.{OutcomeKey, all_outcome_keys, outcome_applies}
use tripwire_launch_auditor.Outcomes.Rows.{
  na, OutcomeRow, EnsureOutcomeInput, row_of, same_key, holds_key, create_many, ensure_outcome_rows,
}
use tripwire_launch_auditor.Outcomes.Rows.Keys.{
  Present, NewRow, row_of-NewRow, label_eq_refl, horizon_eq_refl, same_key-IsOf,
}

-- The table holds the unique key of the report's row.
abbrev Held : EnsureOutcomeInput → List OutcomeRow → OutcomeKey → Type 0
Held input table key = holds_key (row_of input key 0) table ≡ true

Held-Present :
    (input : EnsureOutcomeInput) (key : OutcomeKey) (table : List OutcomeRow)
    → Held input table key
    → Present input table key
unfolding holds_key
Held-Present input key [] h = absurd (ground (arith, h))
Held-Present input key (r ∷ rows) h = elim (Bool-cases (same_key r (row_of input key 0))) [
  | inl e ↦ inl (same_key-IsOf input key r e)
  | inr e ↦ inr (Held-Present input key rows (ground (arith, h, e)))
]

All-Present :
    (input : EnsureOutcomeInput) (table : List OutcomeRow) (keys : List OutcomeKey)
    → All (Held input table) keys
    → All (Present input table) keys
All-Present input table [] h = tt
All-Present input table (key ∷ keys) (h, hs) =
    (Held-Present input key table h, All-Present input table keys hs)

holds_key-append :
    (r : OutcomeRow) (xs ys : List OutcomeRow)
    → holds_key r xs ≡ true
    → holds_key r (xs ++ ys) ≡ true
unfolding holds_key
holds_key-append r [] ys h = cc
holds_key-append r (x ∷ xs) ys h = ground (arith, holds_key-append r xs ys)

holds_key-new :
    (r s : OutcomeRow) (xs : List OutcomeRow)
    → same_key s r ≡ true
    → holds_key r (xs ++ s ∷ []) ≡ true
unfolding holds_key
holds_key-new r s [] h = ground arith
holds_key-new r s (x ∷ xs) h = ground (arith, holds_key-new r s xs h)

-- The id does not matter.
same_key-id :
    (input : EnsureOutcomeInput) (key : OutcomeKey) (i j : ℕ) (x : OutcomeRow)
    → same_key x (row_of input key i) ≡ same_key x (row_of input key j)
unfolding same_key row_of
same_key-id input key i j x = refl

holds_key-id :
    (input : EnsureOutcomeInput) (key : OutcomeKey) (i j : ℕ) (xs : List OutcomeRow)
    → holds_key (row_of input key i) xs ≡ holds_key (row_of input key j) xs
unfolding holds_key row_of same_key
holds_key-id input key i j [] = refl
holds_key-id input key i j (x ∷ xs) = ground (arith, holds_key-id input key i j xs)

same_key_self :
    (input : EnsureOutcomeInput) (key : OutcomeKey) (i j : ℕ)
    → same_key (row_of input key i) (row_of input key j) ≡ true
unfolding same_key row_of
same_key_self input key i j =
    let t = to_lower_case input.token_address in
    ground (arith, (hex_eq_iff t t).1 refl, label_eq_refl key.label, horizon_eq_refl key.horizon)

-- The table after the first key.
abbrev after_key : EnsureOutcomeInput → OutcomeKey → List OutcomeRow → List OutcomeRow
after_key input key table =
    if holds_key (row_of input key (length table)) table
    then table
    else table ++ row_of input key (length table) ∷ []

after_key-Held :
    (input : EnsureOutcomeInput) (key : OutcomeKey) (table : List OutcomeRow)
    → Held input (after_key input key table) key
after_key-Held input key table =
    let i = length table in
    if_intro (λ t. Held input t key) (holds_key (row_of input key i) table) table
      (table ++ row_of input key i ∷ []) (λ e. holds_key-id input key 0 i table ∙ e)
      (λ e.
        holds_key-new (row_of input key 0) (row_of input key i) table (same_key_self input key i 0))

after_key-kept :
    (input : EnsureOutcomeInput) (key : OutcomeKey) (table : List OutcomeRow)
    → holds_key (row_of input key (length table)) table ≡ true
    → after_key input key table ≡ table
after_key-kept input key table h = rw h

after_key-new :
    (input : EnsureOutcomeInput) (key : OutcomeKey) (table : List OutcomeRow)
    → holds_key (row_of input key (length table)) table ≡ false
    → after_key input key table ≡ table ++ row_of input key (length table) ∷ []
after_key-new input key table h = rw h

-- The rows that are there stay, and the count is that of the new rows.
abbrev pub Extends : EnsureOutcomeInput → List OutcomeRow → List OutcomeRow × ℕ → Type 0
Extends input table r =
    (rows : List OutcomeRow) × (r.0 ≡ table ++ rows) × (length rows ≡ r.1) × All (NewRow input) rows

create_many-Extends :
    (input : EnsureOutcomeInput) (keys : List OutcomeKey) (table : List OutcomeRow)
    → Extends input table (create_many input keys table)
unfolding create_many
create_many-Extends input [] table = ([], sym (append-nil table), refl, tt)
create_many-Extends input (key ∷ keys) table =
    let (rows, e, n, w) = create_many-Extends input keys (after_key input key table) in
    elim (Bool-cases (holds_key (row_of input key (length table)) table)) [
      | inl b ↦
          (rows, e ∙ ap (λ t. t ++ rows) (after_key-kept input key table b), ground (arith, n), w)
      | inr b ↦
          let row = row_of input key (length table) in
          (
            row ∷ rows,
            e
                ∙ ap (λ t. t ++ rows) (after_key-new input key table b)
                ∙ append_assoc table (row ∷ []) rows,
            ground (arith, n),
            (row_of-NewRow input key (length table), w),
          )
    ]

holds_key-create_many :
    (input : EnsureOutcomeInput) (keys : List OutcomeKey) (table : List OutcomeRow) (r : OutcomeRow)
    → holds_key r table ≡ true
    → holds_key r (create_many input keys table).0 ≡ true
holds_key-create_many input keys table r h =
    let (rows, e, n, w) = create_many-Extends input keys table in
    ap (holds_key r) e ∙ holds_key-append r table rows h

create_many-Held :
    (input : EnsureOutcomeInput) (keys : List OutcomeKey) (table : List OutcomeRow)
    → All (Held input (create_many input keys table).0) keys
unfolding create_many
create_many-Held input [] table = tt
create_many-Held input (key ∷ keys) table = (
  holds_key-create_many input keys (after_key input key table) (row_of input key 0)
      (after_key-Held input key table),
  create_many-Held input keys (after_key input key table),
)

create_many-again :
    (input : EnsureOutcomeInput) (keys : List OutcomeKey) (table : List OutcomeRow)
    → All (Held input table) keys
    → create_many input keys table ≡ (table, 0)
unfolding create_many
create_many-again input [] table h = refl
create_many-again input (key ∷ keys) table (h, hs) =
    let b : holds_key (row_of input key (length table)) table ≡ true =
      holds_key-id input key (length table) 0 table ∙ h in
    let e : create_many input keys (after_key input key table) ≡ (table, 0) =
      ap (create_many input keys) (after_key-kept input key table b)
      ∙ create_many-again input keys table hs in
    ground (arith, b, e)

-- Making the rows of a report keeps the rows that are there, adds as many as it counts, leaves a row of
-- the report's chain, token and time at every key of the grid, and does nothing when it is done
-- again. A row that it adds is the report's, without a verdict, with its horizon counted from the
-- report, and pending where its outcome applies to the token, `na` elsewhere.
pub ensure_outcome_rows-once :
    (input : EnsureOutcomeInput) (table : List OutcomeRow)
    → let after = (ensure_outcome_rows input table).0 in
      Extends input table (ensure_outcome_rows input table)
      × All (Present input after) all_outcome_keys
      × (ensure_outcome_rows input after ≡ (after, 0))
unfolding ensure_outcome_rows
ensure_outcome_rows-once input table =
    let here = create_many-Held input all_outcome_keys table in
    (
      create_many-Extends input all_outcome_keys table,
      All-Present input (create_many input all_outcome_keys table).0 all_outcome_keys here,
      create_many-again input all_outcome_keys (create_many input all_outcome_keys table).0 here,
    )

pub row_of-na :
    (input : EnsureOutcomeInput) (key : OutcomeKey) (n : ℕ)
    → ((row_of input key n).status ≡ na)
      ↔ (outcome_applies key input.lp_locked_by_construction ≡ false)
unfolding row_of
row_of-na input key n = ground arith
