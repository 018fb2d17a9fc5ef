-- ===== src/Metabolism/Ledger/Window.antt =====
-- The rows of a window, before and after its epoch.
use tripwire_launch_auditor.Prelude.{
  ℕ, zero, suc, ◌+◌, ◌*◌, ◌≤◌, ◌≡◌, inl, inr, refl, true, false, Option, none, some, List, [], ◌∷◌,
  length, All, get_elem?, if◌then◌else◌, arith, Bool-cases, ap,
}
use tripwire_launch_auditor.Metabolism.Reconcile.{round_div}
use tripwire_launch_auditor.Metabolism.Reconcile.Grades.{round_div_lem}
use tripwire_launch_auditor.Metabolism.Ledger.{SpendRow}
use tripwire_launch_auditor.Metabolism.Ledger.Store.{
  in_window, or_zero, window_estimate, reconcile_row, apply_reconciliation,
}

stamped :
    (since : Option ℕ) (until e : ℕ) (f : Option ℕ) (r : SpendRow)
    → in_window since until (reconcile_row e f r) ≡ false
unfolding in_window reconcile_row
stamped since until e none r = ground arith
stamped since until e (some n) r = ground arith

-- A row's estimate, scaled by the factor: the reconciled figure, within half a micro-dollar.
abbrev Scaled : ℕ → SpendRow → SpendRow → Type 0
Scaled f r s =
    (2 * (s.cost_usd * 1_000_000) ≤ 2 * (or_zero r.estimated_cost_usd * f) + 1_000_000)
    × (2 * (or_zero r.estimated_cost_usd * f) ≤ 2 * (s.cost_usd * 1_000_000) + 1_000_000)

abbrev pub IsPriced : SpendRow → Type 0
IsPriced r = (n : ℕ) × (r.estimated_cost_usd ≡ some n)

reconcile_row-Scaled :
    (e f : ℕ) (r : SpendRow) → IsPriced r → Scaled f r (reconcile_row e (some f) r)
unfolding reconcile_row or_zero
reconcile_row-Scaled e f r (n, p) =
    let (a, b) = round_div_lem (n * f) 1_000_000 (omega arith) in
    let c : (reconcile_row e (some f) r).cost_usd ≡ round_div (n * f) 1_000_000 = ground arith in
    ground (arith, a, b, c)

add_times : (a b f : ℕ) → (a + b) * f ≡ a * f + b * f
add_times a b f = grind arith

module _ (since : Option ℕ) (until e : ℕ) (factor : Option ℕ) where
  abbrev after : List SpendRow → List SpendRow × ℕ
  after = apply_reconciliation since until e factor

  apply-count :
      (rows : List SpendRow)
      → ((after rows).1 ≡ (window_estimate since until rows).1)
        × (length (after rows).0 ≡ length rows)
  unfolding apply_reconciliation window_estimate
  apply-count [] = omega arith
  apply-count (r ∷ rs) = ground (arith, apply-count rs)

  apply-empties : (rows : List SpendRow) → window_estimate since until (after rows).0 ≡ (0, 0)
  unfolding apply_reconciliation window_estimate
  apply-empties [] = refl
  apply-empties (r ∷ rs) = elim (Bool-cases (in_window since until r)) [
    | inl h ↦ ground (arith, stamped since until e factor r, apply-empties rs)
    | inr h ↦ ground (arith, apply-empties rs)
  ]

  apply-others :
      (rows : List SpendRow) (i : ℕ) (r : SpendRow)
      → get_elem? rows i ≡ some r
      → in_window since until r ≡ false
      → get_elem? (after rows).0 i ≡ some r
  unfolding apply_reconciliation
  apply-others [] i r h w = cc
  apply-others (x ∷ xs) zero r h w =
      let q : x ≡ r = cc in ground (arith, ap (in_window since until) q)
  apply-others (x ∷ xs) (suc i) r h w = elim (Bool-cases (in_window since until x)) [
    | inl k ↦ ground (arith, apply-others xs i r h w)
    | inr k ↦ ground (arith, apply-others xs i r h w)
  ]

  -- An epoch that is applied to a window touches as many rows as the window's estimate counts and no
  -- others, and the window then counts nothing: a row is graded once.
  pub apply_reconciliation-once :
      (rows : List SpendRow)
      → let (rest, n) = apply_reconciliation since until e factor rows in
        (n ≡ (window_estimate since until rows).1)
        × (length rest ≡ length rows)
        × (window_estimate since until rest ≡ (0, 0))
        × ((i : ℕ) (r : SpendRow)
            → get_elem? rows i ≡ some r
            → in_window since until r ≡ false
            → get_elem? rest i ≡ some r)
  apply_reconciliation-once rows =
      let (a, b) = apply-count rows in (a, b, apply-empties rows, apply-others rows)

-- The costs, after it, of the rows that were in the window.
pub window_costs : Option ℕ → ℕ → List SpendRow → List SpendRow → ℕ
window_costs since until [] rest = 0
window_costs since until (r ∷ rs) [] = 0
window_costs since until (r ∷ rs) (s ∷ rest) =
    (if in_window since until r then s.cost_usd else 0) + window_costs since until rs rest

-- Where every row of the window has an estimate, the costs of its rows sum to the factor times the sum
-- of the estimates, within half a micro-dollar for each row.
pub apply_reconciliation-IsScaled :
    (since : Option ℕ) (until e f : ℕ) (rows : List SpendRow)
    → All (λ r. in_window since until r ≡ true → IsPriced r) rows
    → let rest = (apply_reconciliation since until e (some f) rows).0 in
      let (sum, count) = window_estimate since until rows in
      let costs = window_costs since until rows rest in
      (2 * (costs * 1_000_000) ≤ 2 * (sum * f) + count * 1_000_000)
      × (2 * (sum * f) ≤ 2 * (costs * 1_000_000) + count * 1_000_000)
unfolding apply_reconciliation window_estimate window_costs
apply_reconciliation-IsScaled since until e f [] h = omega arith
apply_reconciliation-IsScaled since until e f (r ∷ rs) (h, hs) =
    let ih = apply_reconciliation-IsScaled since until e f rs hs in
    elim (Bool-cases (in_window since until r)) [
      | inl k ↦
          let s = reconcile_row-Scaled e f r (h k) in
          let d = add_times (or_zero r.estimated_cost_usd) (window_estimate since until rs).0 f in
          ground (arith, ih, s, d)
      | inr k ↦ ground (arith, ih)
    ]
