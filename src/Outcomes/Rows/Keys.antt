-- ===== src/Outcomes/Rows/Keys.antt =====
-- What a row of a report is, and the tests on the keys of the grid.
use tripwire_launch_auditor.Prelude.{
  ℕ, ◌+◌, ◌⊎◌, none, some, ◌≡◌, ◌↔◌, refl, true, false, List, [], ◌∷◌, arith, ap,
}
use tripwire_launch_auditor.Hex.{hex_eq_iff, to_lower_case}
use tripwire_launch_auditor.Scoring.Outcome.{
  Horizon, h1, h6, h24, h72, d7, OutcomeLabel, OutcomeKey, outcome_applies,
}
use tripwire_launch_auditor.Outcomes.Rows.{
  na, pending, OutcomeRow, horizon_ms, EnsureOutcomeInput, row_of, label_eq, horizon_eq, same_key,
}

-- The row is the report's: of its chain, its token in lower case, and its time.
abbrev pub IsOf : EnsureOutcomeInput → OutcomeRow → Type 0
IsOf input r =
    (r.chain_id ≡ input.chain_id)
    × (r.token_address ≡ to_lower_case input.token_address)
    × (r.anchor_time ≡ input.report_time)

-- Some row of the table is the report's, at the key.
abbrev pub Present : EnsureOutcomeInput → List OutcomeRow → OutcomeKey → Type 0
Present input [] key = ⊥
Present input (r ∷ rows) key =
    (IsOf input r × (r.label ≡ key.label) × (r.horizon ≡ key.horizon)) ⊎ Present input rows key

-- How many milliseconds after the report a horizon is.
abbrev pub window_of : Horizon → ℕ
window_of h1 = 3_600_000
window_of h6 = 21_600_000
window_of h24 = 86_400_000
window_of h72 = 259_200_000
window_of d7 = 604_800_000

-- A new row is the report's, its horizon counts from the report, it has no verdict yet, and is
-- pending exactly where its outcome applies to the token, and `na` elsewhere.
abbrev pub NewRow : EnsureOutcomeInput → OutcomeRow → Type 0
NewRow input r =
    let applies =
      outcome_applies (record { label = r.label; horizon = r.horizon })
        input.lp_locked_by_construction in
    IsOf input r
    × (r.horizon_at ≡ some (input.report_time + window_of r.horizon))
    × (r.verdict ≡ none)
    × (r.deferrals ≡ 0)
    × (r.launch_id ≡ input.launch_id)
    × ((applies ≡ true) ↔ (r.status ≡ pending))
    × ((applies ≡ false) ↔ (r.status ≡ na))

pub label_eq_iff : (a b : OutcomeLabel) → label_eq a b ≡ true → a ≡ b
unfolding label_eq
label_eq_iff a b h = ground arith

pub horizon_eq_iff : (a b : Horizon) → horizon_eq a b ≡ true → a ≡ b
unfolding horizon_eq
horizon_eq_iff a b h = ground arith

pub horizon_lem : (h : Horizon) → horizon_ms h ≡ window_of h
unfolding horizon_ms
horizon_lem h = ground arith

pub row_of-NewRow :
    (input : EnsureOutcomeInput) (key : OutcomeKey) (n : ℕ) → NewRow input (row_of input key n)
unfolding row_of
row_of-NewRow input key n = (
  (refl, refl, refl),
  ap (λ w. some (input.report_time + w)) (horizon_lem key.horizon),
  refl,
  refl,
  refl,
  ground arith,
  ground arith,
)

pub label_eq_refl : (a : OutcomeLabel) → label_eq a a ≡ true
unfolding label_eq
label_eq_refl a = ground arith

pub horizon_eq_refl : (a : Horizon) → horizon_eq a a ≡ true
unfolding horizon_eq
horizon_eq_refl a = ground arith

pub same_key-IsOf :
    (input : EnsureOutcomeInput) (key : OutcomeKey) (r : OutcomeRow)
    → same_key r (row_of input key 0) ≡ true
    → IsOf input r × (r.label ≡ key.label) × (r.horizon ≡ key.horizon)
unfolding same_key row_of
same_key-IsOf input key r h =
    let t = (hex_eq_iff r.token_address (to_lower_case input.token_address)).0 in
    let l = label_eq_iff r.label key.label in
    let z = horizon_eq_iff r.horizon key.horizon in
    (
      (ground (arith, h), t (ground (arith, h)), ground (arith, h)),
      l (ground (arith, h)),
      z (ground (arith, h)),
    )
