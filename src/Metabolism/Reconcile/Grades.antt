-- ===== src/Metabolism/Reconcile/Grades.antt =====
-- What the status of an epoch says of its amounts.
use tripwire_launch_auditor.Prelude.{
  ℕ, ◌+◌, ◌-◌, ◌*◌, ◌≤◌, ◌<◌, ◌≡◌, ◌↔◌, ◌⊎◌, refl, true, false, some, leb, arith, zero, suc,
  Bool-cases, inl, inr,
}
use native.Mathlib.Nat.{mul-le-mul_right}
use tripwire_launch_auditor.Metabolism.Reconcile.{
  EpochInput, anomaly, phantom, reconciled, estimator_anomaly, or_default, round_div,
  round_div_down, negated, discrepancy, abs, ungraded, graded, reconcile_epoch,
  billing_blocks_inference,
}

abbrev pub delta : EpochInput → ℕ
delta i = i.provider_spend_now_usd - i.provider_spend_prev_usd

-- The provider charged more than the tolerance, in a window without a request that follows one
-- without a request.
abbrev pub IsPhantom : EpochInput → Type 0
IsPhantom i =
    (i.request_count ≡ 0)
    × (or_default i.lag_request_count 0 ≡ 0)
    × (i.phantom_tolerance_usd < delta i)

-- Exactly phantom spend has the status `phantom` and its flag, and inference is blocked exactly
-- where one of the two flags is set, which are never set together.
pub reconcile_epoch-IsPhantom :
    (i : EpochInput)
    → let r = reconcile_epoch i in
      ((r.billing_status ≡ phantom) ↔ IsPhantom i)
      × ((r.is_phantom ≡ true) ↔ IsPhantom i)
      × ((r.billing_status ≡ anomaly) ↔ (r.is_anomaly ≡ true))
      × ((billing_blocks_inference (some r.billing_status) ≡ true)
          ↔ ((r.is_phantom ≡ true) ⊎ (r.is_anomaly ≡ true)))
      × (r.is_phantom ≡ true → r.is_anomaly ≡ false)
unfolding reconcile_epoch ungraded graded billing_blocks_inference
reconcile_epoch-IsPhantom i = ground arith

pub round_div_lem :
    (a b : ℕ)
    → 0 < b
    → (2 * a ≤ 2 * (round_div a b * b) + b) × (2 * (round_div a b * b) ≤ 2 * a + b)
unfolding round_div
round_div_lem a b h = omega arith

round_div_down_lem :
    (a b : ℕ)
    → 0 < b
    → (2 * a ≤ 2 * (round_div_down a b * b) + b) × (2 * (round_div_down a b * b) ≤ 2 * a + b)
unfolding round_div_down
round_div_down_lem a b h = omega arith

abs-negated : (n : ℕ) → abs (negated n) ≡ n
unfolding abs negated
abs-negated zero = refl
abs-negated (suc n) = omega arith

-- The distance of the two amounts.
abbrev pub gap : ℕ → ℕ → ℕ
gap a b = (a - b) + (b - a)

discrepancy_up :
    (p l : ℕ) → leb l p ≡ true → abs (discrepancy p l) ≡ round_div ((p - l) * 100_000_000) l
unfolding discrepancy abs
discrepancy_up p l e = rw e refl

discrepancy_down :
    (p l : ℕ) → leb l p ≡ false → abs (discrepancy p l) ≡ round_div_down ((l - p) * 100_000_000) l
unfolding discrepancy
discrepancy_down p l e = rw e (abs-negated (round_div_down ((l - p) * 100_000_000) l))

discrepancy_lem :
    (p l : ℕ)
    → 0 < l
    → (2 * (gap p l * 100_000_000) ≤ 2 * (abs (discrepancy p l) * l) + l)
      × (2 * (abs (discrepancy p l) * l) ≤ 2 * (gap p l * 100_000_000) + l)
discrepancy_lem p l h = elim (Bool-cases (leb l p)) [
  | inl e ↦
      let g : gap p l ≡ p - l = ground arith in
      rw (discrepancy_up p l e, g) (round_div_lem ((p - l) * 100_000_000) l h)
  | inr e ↦
      let g : gap p l ≡ l - p = ground arith in
      rw (discrepancy_down p l e, g) (round_div_down_lem ((l - p) * 100_000_000) l h)
]

graded_lem :
    (i : EpochInput)
    → let r = reconcile_epoch i in
      let size = abs (discrepancy (delta i) i.local_estimate_usd) in
      ((r.reason ≡ reconciled) → (0 < i.local_estimate_usd) × (size ≤ i.anomaly_pct))
      × ((r.reason ≡ estimator_anomaly) → (0 < i.local_estimate_usd) × (i.anomaly_pct < size))
unfolding reconcile_epoch ungraded graded
graded_lem i = ground arith

scaled : (a b c : ℕ) → a ≤ b → a * c ≤ b * c
scaled a b c h = mul-le-mul_right c h

-- The band in which the grade places the charge, to half of the last place of the percentage: an
-- epoch that reconciles has a charge within the limit of its estimate, and an anomaly is outside.
-- `gap` is the distance of charge and estimate; with the limit in 1e-6 percent, a gap of the limit
-- is `anomaly_pct * estimate / 100_000_000`.
pub reconcile_epoch-gap :
    (i : EpochInput)
    → let r = reconcile_epoch i in
      let g = gap (delta i) i.local_estimate_usd * 100_000_000 in
      ((r.reason ≡ reconciled)
        → 2 * g ≤ 2 * (i.anomaly_pct * i.local_estimate_usd) + i.local_estimate_usd)
      × ((r.reason ≡ estimator_anomaly)
          → 2 * (i.anomaly_pct * i.local_estimate_usd) + i.local_estimate_usd ≤ 2 * g)
reconcile_epoch-gap i =
    let l : ℕ = i.local_estimate_usd in
    let size : ℕ = abs (discrepancy (delta i) l) in
    (
      λ e.
          let (p, h) = (graded_lem i).0 e in
          let (lo, hi) = discrepancy_lem (delta i) l p in
          let m : size * l ≤ i.anomaly_pct * l = scaled size i.anomaly_pct l h in omega arith,
      λ e.
          let (p, h) = (graded_lem i).1 e in
          let (lo, hi) = discrepancy_lem (delta i) l p in
          let m : (i.anomaly_pct + 1) * l ≤ size * l =
            scaled (i.anomaly_pct + 1) size l (omega arith) in
          omega arith,
    )

-- Without a request in the window and in the one before, a charge above the tolerance is phantom.
pub phantom_by_counts :
    (i : EpochInput)
    → i.request_count ≡ 0
    → i.lag_request_count ≡ some 0
    → i.provider_spend_prev_usd + i.phantom_tolerance_usd < i.provider_spend_now_usd
    → ((reconcile_epoch i).is_phantom ≡ true) × ((reconcile_epoch i).billing_status ≡ phantom)
unfolding reconcile_epoch
phantom_by_counts i h k l = ground arith
