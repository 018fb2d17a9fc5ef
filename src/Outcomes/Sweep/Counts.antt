-- ===== src/Outcomes/Sweep/Counts.antt =====
-- What a sweep counts, and what it leaves alone.
use tripwire_launch_auditor.Prelude.{
  ℕ, zero, suc, ◌+◌, ◌≡◌, ◌≢◌, refl, Bool, false, ◌&&◌, Option, some, List, [], ◌∷◌, length,
  get_elem?, All, ◌==◌, arith, ap, ap₂, ◌∙◌, map,
}
use mathlib.Core.Path.{fun_ext}
use tripwire_launch_auditor.Scoring.Outcome.{OutcomeLabel}
use tripwire_launch_auditor.Watcher.Retry.{value, failure, Raced, settled, deadline_error}
use tripwire_launch_auditor.Outcomes.Resolvers.{Resolution}
use tripwire_launch_auditor.Outcomes.Resolvers
use tripwire_launch_auditor.Outcomes.Rows.{OutcomeRow}
use tripwire_launch_auditor.Outcomes.Sweep.{
  Order, by_horizon, spread, fair, SweepFilter, or_else, default_give_up_after_ms,
}
use tripwire_launch_auditor.Outcomes.Sweep.Due.{
  label_wanted, is_due, lane_wanted, filter_rows, picked_by, label_group, labels, due_rows,
}
use tripwire_launch_auditor.Outcomes.Sweep.Interleave.{interleave}
use tripwire_launch_auditor.Outcomes.Sweep.Store.{
  Count, counts_resolved, counts_na, counts_unresolvable, counts_retry_later, counts_failed,
  defer_row, store_resolution, resolve_row, SweepResult, counted, update_row,
}
use tripwire_launch_auditor.Outcomes.Sweep.Deferral.{defer_or_give_up}
use tripwire_launch_auditor.Outcomes.Sweep.Run.{resolve_rows, sweep_due_outcomes}

abbrev pub total : SweepResult → ℕ
total r = r.resolved + r.na + r.unresolvable + r.retry_later + r.failed

total-counted : (c : Count) (r : SweepResult) → total (counted c r) ≡ total r + 1
unfolding counted
total-counted counts_resolved r = omega arith
total-counted counts_na r = omega arith
total-counted counts_unresolvable r = omega arith
total-counted counts_retry_later r = omega arith
total-counted counts_failed r = omega arith

picked-counted : (c : Count) (r : SweepResult) → (counted c r).picked ≡ r.picked
unfolding counted
picked-counted counts_resolved r = refl
picked-counted counts_na r = refl
picked-counted counts_unresolvable r = refl
picked-counted counts_retry_later r = refl
picked-counted counts_failed r = refl

defer_row-id : (give now : ℕ) (row : OutcomeRow) → (defer_row give now row).0.id ≡ row.id
unfolding defer_row defer_or_give_up
defer_row-id give now row = ground arith

resolve_row-id :
    (give now : ℕ) (o : Raced Resolution) (row : OutcomeRow)
    → (resolve_row give now o row).0.id ≡ row.id
unfolding resolve_row store_resolution
resolve_row-id give now (settled (value (Resolvers.unresolvable reason c))) row =
    ground (arith, defer_row-id give now row)
resolve_row-id give now (settled (value (Resolvers.resolved b c))) row = ground arith
resolve_row-id give now (settled (value Resolvers.not_applicable)) row = ground arith
resolve_row-id give now (settled (failure e)) row = ground (arith, defer_row-id give now row)
resolve_row-id give now deadline_error row = defer_row-id give now row

-- No row of the list has the id.
abbrev pub NotAmong : ℕ → List OutcomeRow → Type 0
NotAmong i = All (λ r. (r.id == i) ≡ false)

get_elem?-update_row :
    (r x : OutcomeRow) (table : List OutcomeRow) (n : ℕ)
    → get_elem? table n ≡ some x
    → (r.id == x.id) ≡ false
    → get_elem? (update_row r table) n ≡ some x
unfolding update_row
get_elem?-update_row r x [] n h k = cc
get_elem?-update_row r x (y ∷ ys) zero h k = let e : y ≡ x = cc in ground arith
get_elem?-update_row r x (y ∷ ys) (suc n) h k = get_elem?-update_row r x ys n h k

length-update_row :
    (r : OutcomeRow) (table : List OutcomeRow) → length (update_row r table) ≡ length table
unfolding update_row
length-update_row r [] = refl
length-update_row r (x ∷ xs) = ap suc (length-update_row r xs)

module _ (outcome_of : OutcomeRow → ℕ × Raced Resolution) (give : ℕ) where
  resolve_rows-counts :
      (rows table : List OutcomeRow) (s : SweepResult)
      → let r = resolve_rows outcome_of give rows (table, s) in
        (total r.1 ≡ total s + length rows) × (r.1.picked ≡ s.picked) × (length r.0 ≡ length table)
  unfolding resolve_rows
  resolve_rows-counts [] table s = omega arith
  resolve_rows-counts (row ∷ rows) table s =
      let (now, o) = outcome_of row in
      let (after, c) = resolve_row give now o row in
      omega (
        arith,
        resolve_rows-counts rows (update_row after table) (counted c s),
        total-counted c s,
        picked-counted c s,
        length-update_row after table,
      )

  resolve_rows-others :
      (rows table : List OutcomeRow) (s : SweepResult) (n : ℕ) (x : OutcomeRow)
      → get_elem? table n ≡ some x
      → NotAmong x.id rows
      → get_elem? (resolve_rows outcome_of give rows (table, s)).0 n ≡ some x
  unfolding resolve_rows
  resolve_rows-others [] table s n x h k = h
  resolve_rows-others (row ∷ rows) table s n x h (k, ks) =
      let (now, o) = outcome_of row in
      let (after, c) = resolve_row give now o row in
      let same : after.id ≡ row.id = resolve_row-id give now o row in
      resolve_rows-others rows (update_row after table) (counted c s) n x
        (get_elem?-update_row after x table n h (ground arith)) ks

-- A sweep counts every row that it picked once, keeps the number of rows, and leaves every row whose id
-- it did not pick as it was.
pub sweep_due_outcomes-Counts :
    (qualified : Option ℕ → Bool) (outcome_of : OutcomeRow → ℕ × Raced Resolution) (now : ℕ)
    (f : SweepFilter) (limit : ℕ) (table : List OutcomeRow)
    → let due = due_rows qualified now f limit table in
      let r = sweep_due_outcomes qualified outcome_of now f limit table in
      (r.1.picked ≡ length due)
      × (total r.1 ≡ length due)
      × (length r.0 ≡ length table)
      × ((n : ℕ) (x : OutcomeRow)
          → get_elem? table n ≡ some x
          → NotAmong x.id due
          → get_elem? r.0 n ≡ some x)
unfolding sweep_due_outcomes
sweep_due_outcomes-Counts qualified outcome_of now f limit table =
    let due = due_rows qualified now f limit table in
    let give = or_else f.give_up_after_ms default_give_up_after_ms in
    let start : SweepResult = record {
      picked = length due;
      resolved = 0;
      na = 0;
      unresolvable = 0;
      retry_later = 0;
      failed = 0;
    } in
    let (t, p, l) = resolve_rows-counts outcome_of give due table start in
    (p, omega (arith, t), l, resolve_rows-others outcome_of give due table start)

picked_by-shared :
    (o : Order) (limit : ℕ) (wanted shared other : List OutcomeRow)
    → o ≢ fair
    → picked_by o limit wanted shared ≡ picked_by o limit wanted other
unfolding picked_by
picked_by-shared fair limit wanted shared other h = absurd (h refl)
picked_by-shared spread limit wanted shared other h = refl
picked_by-shared by_horizon limit wanted shared other h = refl

wanted-excluded :
    (f : SweepFilter) (only : List OutcomeLabel) (l : OutcomeLabel) (ls : List OutcomeLabel)
    (m : OutcomeLabel)
    → f.exclude_labels ≡ l ∷ ls
    → label_wanted f m ≡ label_wanted (record f { only_labels = only }) m
unfolding label_wanted
wanted-excluded f only l ls m h = ground arith

due-only :
    (qualified : Option ℕ → Bool) (now : ℕ) (f : SweepFilter) (only : List OutcomeLabel)
    (r : OutcomeRow)
    → is_due qualified now f r ≡ is_due qualified now (record f { only_labels = only }) r
unfolding is_due lane_wanted
due-only qualified now f only r = refl

-- Where labels are excluded, the list of the only labels is read in the fair order alone: in the other
-- orders it changes nothing.
pub due_rows-ignores_only :
    (qualified : Option ℕ → Bool) (now : ℕ) (f : SweepFilter) (limit : ℕ) (table : List OutcomeRow)
    (l : OutcomeLabel) (ls only : List OutcomeLabel)
    → f.exclude_labels ≡ l ∷ ls
    → f.order ≢ fair
    → due_rows qualified now f limit table
      ≡ due_rows qualified now (record f { only_labels = only }) limit table
unfolding due_rows
due_rows-ignores_only qualified now f limit table l ls only h k =
    let shared = interleave (map (label_group qualified now f limit table) (labels f)) limit in
    let g : SweepFilter = record f { only_labels = only } in
    let same : (r : OutcomeRow)
        → (is_due qualified now f r && label_wanted f r.label)
          ≡ (is_due qualified now g r && label_wanted g r.label) =
      λ r.
        ap₂ (λ a b. a && b) (due-only qualified now f only r)
          (wanted-excluded f only l ls r.label h) in
    ap (λ p. picked_by f.order limit (filter_rows p table) shared) (fun_ext same)
    ∙ picked_by-shared f.order limit _ shared _ k
