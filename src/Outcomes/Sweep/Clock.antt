-- ===== src/Outcomes/Sweep/Clock.antt =====
-- How long a row that fails for now is tried again.
use tripwire_launch_auditor.Prelude.{
  ℕ, ◌+◌, ◌≤◌, ◌<◌, ◌≡◌, ◌↔◌, ◌⊎◌, inl, inr, refl, Bool, true, false, Option, none, some, List, [],
  ◌∷◌, All, if◌then◌else◌, arith, ap, sym, subst, ◌∙◌, dec_lt,
}
use tripwire_launch_auditor.Watcher.Retry.{value, failure, Raced, settled, deadline_error}
use tripwire_launch_auditor.Outcomes.Resolvers.{Reason, Resolution}
use tripwire_launch_auditor.Outcomes.Resolvers
use tripwire_launch_auditor.Outcomes.Rows.{pending, unresolvable, OutcomeRow}
use tripwire_launch_auditor.Outcomes.Sweep.Due.{is_pending, backoff_passed, is_due}
use tripwire_launch_auditor.Outcomes.Sweep.Deferral.{is_retryable, defer_or_give_up}
use tripwire_launch_auditor.Outcomes.Sweep.Store.{defer_row, retry_reason, resolve_row}
use tripwire_launch_auditor.Outcomes.Sweep.{SweepFilter, or_else, default_retry_backoff_ms}

-- A reason that is retried, an error that is retryable, or the deadline.
abbrev pub FailsForNow : Raced Resolution → Type 0
FailsForNow (settled (value (Resolvers.unresolvable reason c))) = is_retryable reason ≡ true
FailsForNow (settled (value (Resolvers.resolved b c))) = ⊥
FailsForNow (settled (value Resolvers.not_applicable)) = ⊥
FailsForNow (settled (failure e)) = e.retryable ≡ true
FailsForNow deadline_error = Unit {0}

deferred :
    (give now : ℕ) (o : Raced Resolution) (row : OutcomeRow)
    → FailsForNow o
    → resolve_row give now o row ≡ defer_row give now row
unfolding resolve_row retry_reason
deferred give now (settled (value (Resolvers.unresolvable reason c))) row h = ground arith
deferred give now (settled (value (Resolvers.resolved b c))) row h = absurd h
deferred give now (settled (value Resolvers.not_applicable)) row h = absurd h
deferred give now (settled (failure e)) row h = ground arith
deferred give now deadline_error row h = refl

-- The row after some tries at the given times: a row that is no longer pending is not picked.
pub tried : ℕ → OutcomeRow → List (ℕ × Raced Resolution) → OutcomeRow
tried give row [] = row
tried give row ((now, o) ∷ rest) =
    tried give (if is_pending row.status then (resolve_row give now o row).0 else row) rest

abbrev pub Tries : List (ℕ × Raced Resolution) → Type 0
Tries = All (λ t. FailsForNow t.1)

stays :
    (give : ℕ) (row : OutcomeRow) (ts : List (ℕ × Raced Resolution))
    → is_pending row.status ≡ false
    → tried give row ts ≡ row
unfolding tried
stays give row [] h = refl
stays give row ((now, o) ∷ ts) h =
    let e : (if is_pending row.status then (resolve_row give now o row).0 else row) ≡ row =
      ground arith in
    ap (λ r. tried give r ts) e ∙ stays give row ts h

-- A row that was first deferred at `first`.
record Waits (first : ℕ) (row : OutcomeRow) : Type 0 where
  is_open : row.status ≡ pending
  since : row.first_deferred_at ≡ some first

defer-Waits :
    (give now first : ℕ) (row : OutcomeRow)
    → Waits first row
    → now < first + give
    → Waits first (defer_row give now row).0
      × ((defer_row give now row).0.deferrals ≡ row.deferrals + 1)
unfolding defer_row defer_or_give_up
defer-Waits give now first row w h = ground arith

defer-gives_up :
    (give now first : ℕ) (row : OutcomeRow)
    → Waits first row
    → first + give ≤ now
    → ((defer_row give now row).0.status ≡ unresolvable)
      × ((defer_row give now row).0.first_deferred_at ≡ some first)
unfolding defer_row defer_or_give_up
defer-gives_up give now first row w h = ground arith

defer_first :
    (give now : ℕ) (row : OutcomeRow)
    → row.status ≡ pending
    → row.first_deferred_at ≡ none
    → 0 < give
    → Waits now (defer_row give now row).0
unfolding defer_row defer_or_give_up
defer_first give now row p f h = ground arith

abbrev Within : ℕ → List (ℕ × Raced Resolution) → Type 0
Within end = All (λ t. t.0 < end)

-- The row still waits after the tries, which are all early, or it was given up on.
abbrev Ends : ℕ → ℕ → List (ℕ × Raced Resolution) → OutcomeRow → Type 0
Ends first give ts r =
    (Waits first r × Within (first + give) ts)
    ⊎ ((r.status ≡ unresolvable) × (r.first_deferred_at ≡ some first) × ¬ Within (first + give) ts)

pending_open : (row : OutcomeRow) → row.status ≡ pending → is_pending row.status ≡ true
unfolding is_pending
pending_open row h = ground arith

unresolvable_shut : (row : OutcomeRow) → row.status ≡ unresolvable → is_pending row.status ≡ false
unfolding is_pending
unresolvable_shut row h = ground arith

tried_next :
    (give now : ℕ) (o : Raced Resolution) (row : OutcomeRow) (ts : List (ℕ × Raced Resolution))
    → row.status ≡ pending
    → FailsForNow o
    → tried give row ((now, o) ∷ ts) ≡ tried give (defer_row give now row).0 ts
unfolding tried
tried_next give now o row ts p f =
    let e : (if is_pending row.status then (resolve_row give now o row).0 else row)
        ≡ (defer_row give now row).0 =
      ground (arith, pending_open row p, deferred give now o row f) in
    ap (λ r. tried give r ts) e

tried-Ends :
    (give first : ℕ) (ts : List (ℕ × Raced Resolution)) (row : OutcomeRow)
    → Waits first row
    → Tries ts
    → Ends first give ts (tried give row ts)
unfolding tried
tried-Ends give first [] row w h = inl (w, tt)
tried-Ends give first ((now, o) ∷ ts) row w (f, fs) =
    let next = (defer_row give now row).0 in
    let e = tried_next give now o row ts w.is_open f in
    subst (Ends first give ((now, o) ∷ ts)) (sym e) (elim (dec_lt now (first + give)) [
      | yes early ↦
          elim (tried-Ends give first ts next (defer-Waits give now first row w early).0 fs) [
            | inl (v, all) ↦ inl (v, (early, all))
            | inr (u, s, late) ↦ inr (u, s, (λ all. late all.1))
          ]
      | no late ↦
          let (u, s) = defer-gives_up give now first row w (omega arith) in
          let same = stays give next ts (unresolvable_shut next u) in
          inr (
            ap OutcomeRow.status same ∙ u,
            ap OutcomeRow.first_deferred_at same ∙ s,
            (λ all. late all.0),
          )
    ])

-- A pending row that fails for now, at first at the time `first` and then at the given times, is still
-- pending exactly where none of these came at or after the end of the giving-up period, counted from
-- the first deferral; else it is unresolvable, and no longer tried. The time of the first deferral is
-- kept throughout.
pub tried-give_up :
    (give first : ℕ) (o : Raced Resolution) (ts : List (ℕ × Raced Resolution)) (row : OutcomeRow)
    → 0 < give
    → row.status ≡ pending
    → row.first_deferred_at ≡ none
    → FailsForNow o
    → Tries ts
    → let r = tried give row ((first, o) ∷ ts) in
      ((r.status ≡ pending) ↔ All (λ t. t.0 < first + give) ts)
      × ((r.status ≡ pending) ⊎ (r.status ≡ unresolvable))
      × (r.first_deferred_at ≡ some first)
tried-give_up give first o ts row g p n f fs =
    let w = defer_first give first row p n g in
    let e = tried_next give first o row ts p f in
    subst
      (λ r.
        ((r.status ≡ pending) ↔ All (λ t. t.0 < first + give) ts)
        × ((r.status ≡ pending) ⊎ (r.status ≡ unresolvable))
        × (r.first_deferred_at ≡ some first))
      (sym e)
      (elim (tried-Ends give first ts (defer_row give first row).0 w fs) [
        | inl (v, all) ↦ (((λ q. all), (λ q. v.is_open)), inl v.is_open, v.since)
        | inr (u, s, late) ↦ (((λ q. cc), (λ all. absurd (late all))), inr u, s)
      ])

measured-late :
    (give now backoff later : ℕ) (row : OutcomeRow)
    → later ≤ now + backoff
    → backoff_passed (defer_row give now row).0.measured_at backoff later ≡ false
unfolding defer_row backoff_passed defer_or_give_up
measured-late give now backoff later row h = ground arith

-- A row that was deferred is not due before its backoff has passed.
pub defer-IsBackedOff :
    (qualified : Option ℕ → Bool) (f : SweepFilter) (give now later : ℕ) (row : OutcomeRow)
    → later ≤ now + or_else f.retry_backoff_ms default_retry_backoff_ms
    → is_due qualified later f (defer_row give now row).0 ≡ false
unfolding is_due
defer-IsBackedOff qualified f give now later row h =
    let b = or_else f.retry_backoff_ms default_retry_backoff_ms in
    let late : backoff_passed (defer_row give now row).0.measured_at b later ≡ false =
      measured-late give now b later row h in
    ground (arith, late)
