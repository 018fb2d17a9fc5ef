-- ===== src/Metabolism/Epoch/Lag.antt =====
-- A charge that lands one window late.
use tripwire_launch_auditor.Prelude.{
  ℕ, ◌+◌, ◌<◌, ◌≡◌, true, Option, some, List, ◌∷◌, length, ap, sym, ◌∙◌,
}
use tripwire_launch_auditor.Metabolism.Reconcile.{phantom}
use tripwire_launch_auditor.Metabolism.Reconcile.Grades.{phantom_by_counts}
use tripwire_launch_auditor.Metabolism.Ledger.{SpendRow}
use tripwire_launch_auditor.Metabolism.Ledger.Store.{window_estimate}
use tripwire_launch_auditor.Metabolism.Ledger.Window.{apply_reconciliation-once}
use tripwire_launch_auditor.Metabolism.Epoch.{
  EpochRow, SpendBaseline, Accounts, EpochEnv, provider_spend_prev, window_start, lag_count,
  graded_epoch, epoch_step,
}

lag_two :
    (env : EpochEnv) (x d : EpochRow) (es eps : List EpochRow) (ledger : List SpendRow)
    → eps ≡ d ∷ es
    → lag_count env (x ∷ eps) ledger ≡ (window_estimate (some d.at) x.at ledger).1
unfolding lag_count
lag_two env x d es eps ledger h = ap (λ l. lag_count env (x ∷ l) ledger) h

start_at :
    (d : EpochRow) (es eps : List EpochRow) (baseline : Option SpendBaseline) (t : ℕ)
    → eps ≡ d ∷ es
    → window_start eps baseline t ≡ d.at
unfolding window_start
start_at d es eps baseline t h = ap (λ l. window_start l baseline t) h

module _ (env : EpochEnv) (spend : ℕ) (baseline : Option SpendBaseline) (t : ℕ) (a : Accounts) where
  abbrev b : Accounts
  b = epoch_step env spend baseline t a

  lag_count-0 :
      (d : EpochRow) (es : List EpochRow) → a.epochs ≡ d ∷ es → lag_count env b.epochs b.ledger ≡ 0
  unfolding epoch_step
  lag_count-0 d es h =
      let start = window_start a.epochs baseline t in
      let empty =
        (apply_reconciliation-once (some start) t (length a.epochs)
          (graded_epoch env spend baseline t a).reconciliation_factor a.ledger).2 in
      lag_two env _ d es a.epochs b.ledger h
      ∙ ap (λ n. (window_estimate (some n) t b.ledger).1)
          (sym (start_at d es a.epochs baseline t h))
      ∙ ap (λ p. p.1) empty

  -- After an epoch that was not the first, the count of the requests of its window is 0, however many
  -- runs were graded in it; so in a next window without a run, a charge above the tolerance is
  -- phantom spend, also where it pays for the runs of the window before.
  pub epoch_step-lag :
      (d : EpochRow) (es : List EpochRow) (spend_next next : ℕ)
      (baseline_next : Option SpendBaseline)
      → a.epochs ≡ d ∷ es
      → let b = epoch_step env spend baseline t a in
        (window_estimate (some t) next b.ledger).1 ≡ 0
        → spend + env.metabolism_phantom_tolerance_usd < spend_next
        → let b = epoch_step env spend baseline t a in
          (lag_count env b.epochs b.ledger ≡ 0)
          × ((graded_epoch env spend_next baseline_next next b).is_phantom ≡ true)
          × ((graded_epoch env spend_next baseline_next next b).billing_status ≡ phantom)
  unfolding epoch_step graded_epoch window_start provider_spend_prev
  epoch_step-lag d es spend_next next baseline_next h idle late =
      let lag = lag_count-0 d es h in
      let (p, q) = phantom_by_counts _ idle (ap some lag) late in (lag, p, q)
