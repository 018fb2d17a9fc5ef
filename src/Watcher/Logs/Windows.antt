-- ===== src/Watcher/Logs/Windows.antt =====
-- The windows cover the range, each block once, and none is wider than the limit.
use tripwire_launch_auditor.Prelude.{
  ℕ, zero, suc, ◌+◌, ◌-◌, ◌≤◌, ◌<◌, ◌≡◌, refl, ap, ◌∙◌, subst, false, some, List, [], ◌∷◌, ◌++◌,
  ltb, leb, if◌then◌else◌, if_intro, arith, Bool-cases, inl, inr,
}
use mathlib.Core.List.{append-nil}
use tripwire_launch_auditor.Watcher.Logs.{windows, all_logs, get_logs_chunked}

-- The windows follow one another from `start` to `to`, each at most `step` wide.
abbrev pub Tiles : ℕ → ℕ → ℕ → List (ℕ × ℕ) → Type 0
Tiles start to step [] = to < start
Tiles start to step ((a, b) ∷ ws) =
    (a ≡ start) × (a ≤ b) × (b ≤ to) × (b < a + step) × Tiles (b + 1) to step ws

windows-done : (fuel start to step : ℕ) → to < start → windows fuel start to step ≡ []
unfolding windows
windows-done zero start to step h = refl
windows-done (suc fuel) start to step h = ground arith

window_end : (start to step : ℕ) → ℕ
window_end start to step = if ltb (start + step - 1) to then start + step - 1 else to

window_end_lem :
    (start to step : ℕ)
    → 0 < step
    → start ≤ to
    → let end = window_end start to step in (start ≤ end) × (end ≤ to) × (end < start + step)
unfolding window_end
window_end_lem start to step p h = ground arith

windows-Tiles :
    (fuel start to step : ℕ)
    → 0 < step
    → to + 1 - start ≤ fuel
    → Tiles start to step (windows fuel start to step)
unfolding windows window_end
windows-Tiles zero start to step p h = omega arith
windows-Tiles (suc fuel) start to step p h =
    if_intro (Tiles start to step) (leb start to)
      ((start, window_end start to step) ∷ windows fuel (start + step) to step) []
      (λ e.
        let (a, b, c) = window_end_lem start to step p (ground arith) in
        (
          refl,
          a,
          b,
          c,
          tail (ground arith) (windows-Tiles fuel (start + step) to step p (ground arith)),
        ))
      (λ e. ground arith)
  where
    tail :
        start ≤ to
        → Tiles (start + step) to step (windows fuel (start + step) to step)
        → Tiles (window_end start to step + 1) to step (windows fuel (start + step) to step)
    tail l ih = elim (Bool-cases (ltb (start + step - 1) to)) [
      | inl e ↦
          let q : start + step ≡ window_end start to step + 1 = ground arith in
          subst (λ n. Tiles n to step (windows fuel (start + step) to step)) q ih
      | inr e ↦
          let q : window_end start to step ≡ to = ground arith in
          rw (windows-done fuel (start + step) to step (ground arith)) (ground arith)
    ]

module _ {ℓ} {Log : Type ℓ} (request : ℕ → ℕ → List Log) where
  -- A node's answer for a range is that for its first part followed by that for the rest.
  abbrev pub Joins : Type ℓ
  Joins = (a b c : ℕ) → a ≤ b → b < c → request a b ++ request (b + 1) c ≡ request a c

  all_logs-Tiles :
      (start to step : ℕ) (ws : List (ℕ × ℕ))
      → Joins
      → start ≤ to
      → Tiles start to step ws
      → all_logs request ws ≡ request start to
  unfolding all_logs
  all_logs-Tiles start to step [] j l t = absurd (omega (arith, t))
  all_logs-Tiles start to step ((a, b) ∷ []) j l (p, q, r, s, t) =
      let e : b ≡ to = omega (arith, t) in rw (p, e) (append-nil (request start to))
  all_logs-Tiles start to step ((a, b) ∷ (c, d) ∷ ws) j l (p, q, r, s, (u, v, w, x, y)) =
      ap (λ ls. request a b ++ ls)
        (all_logs-Tiles (b + 1) to step ((c, d) ∷ ws) j (omega arith) (u, v, w, x, y))
      ∙ j a b to q (omega arith)
      ∙ ap (λ n. request n to) p

  -- The windows change nothing but the size of the calls: with a limit of 1 at least, the logs of a
  -- range that is not empty are those of one call for the whole range. The node's answers join.
  pub get_logs_chunked-whole :
      (from to max_range : ℕ)
      → Joins
      → 0 < max_range
      → from ≤ to
      → get_logs_chunked request from to max_range ≡ some (request from to)
  unfolding get_logs_chunked
  get_logs_chunked-whole from to max_range j p l =
      let small : ltb max_range 1 ≡ false = ground arith in
      rw small (
        ap some (
          all_logs-Tiles from to max_range (windows (to + 1 - from) from to max_range) j l
            (windows-Tiles (to + 1 - from) from to max_range p (omega arith))))
