-- ===== src/Alerts/Edges.antt =====
-- The messages of a run of ticks, for one alert.
use tripwire_launch_auditor.Prelude.{
  ℕ, ◌≡◌, refl, ap, ap₂, ◌∙◌, Bool, true, false, sym, ◌||◌, Option, List, [], ◌∷◌, ◌++◌,
  if◌then◌else◌, arith,
}
use tripwire_launch_auditor.Alerts.{
  AlertKey, AlertCheck, Lifecycle, LastBad, Message, starved, ids_trip, commit_lag, watcher_stalled,
  alarms, recovers, same_key, is_older, is_starved, has_mismatch, set_last, edge, evaluate_alerts,
  apply_alert_transitions,
}

-- What the readers answer at a tick.
pub record Reading : Type 0 where
  pub now : ℕ
  pub lifecycle : Option Lifecycle
  pub phantom : Bool
  pub commit_at : Option ℕ
  pub watcher_at : Option ℕ

abbrev pub checks_of : ℕ → ℕ → Reading → List AlertCheck
checks_of lag stalled r =
    evaluate_alerts r.now lag stalled r.lifecycle r.phantom r.commit_at r.watcher_at

-- The alert's own value at a tick.
abbrev pub bad_of : AlertKey → List AlertCheck → Bool
bad_of k [] = false
bad_of k (c ∷ cs) = if same_key k c.key then c.bad else bad_of k cs

pub about : AlertKey → Message → Bool
about k (alarms j) = same_key k j
about k (recovers j) = same_key k j

abbrev pub messages_about : AlertKey → List Message → List Message
messages_about k [] = []
messages_about k (m ∷ ms) = if about k m then m ∷ messages_about k ms else messages_about k ms

-- All messages of a run of ticks.
pub run_ticks : ℕ → ℕ → List Reading → LastBad → List Message
run_ticks lag stalled [] last = []
run_ticks lag stalled (r ∷ rs) last =
    let (messages, last') = apply_alert_transitions (checks_of lag stalled r) last in
    messages ++ run_ticks lag stalled rs last'

-- The edges of one alert's values, starting from the last: an alarm from good to bad, a recovery from
-- bad to good, and nothing between two values that are the same.
pub edges : AlertKey → Bool → List Bool → List Message
edges k last [] = []
edges k false (false ∷ bs) = edges k false bs
edges k false (true ∷ bs) = alarms k ∷ edges k true bs
edges k true (false ∷ bs) = recovers k ∷ edges k false bs
edges k true (true ∷ bs) = edges k true bs

edges_nil : (k : AlertKey) (last : Bool) → edges k last [] ≡ []
unfolding edges
edges_nil k false = refl
edges_nil k true = refl

edges_step :
    (k : AlertKey) (last b : Bool) (bs : List Bool)
    → edge k b last ++ edges k b bs ≡ edges k last (b ∷ bs)
unfolding edges edge
edges_step k false false bs = refl
edges_step k false true bs = refl
edges_step k true false bs = refl
edges_step k true true bs = refl

pub values : ℕ → ℕ → AlertKey → List Reading → List Bool
values lag stalled k [] = []
values lag stalled k (r ∷ rs) = bad_of k (checks_of lag stalled r) ∷ values lag stalled k rs

about-append :
    (k : AlertKey) (xs ys : List Message)
    → messages_about k (xs ++ ys) ≡ messages_about k xs ++ messages_about k ys
about-append k [] ys = refl
about-append k (x ∷ xs) ys = ground (arith, about-append k xs ys)

tick_lem :
    (k : AlertKey) (a b c d : Bool) (last : LastBad)
    → let checks : List AlertCheck =
        record { key = starved; bad = a }
        ∷ record { key = ids_trip; bad = b }
        ∷ record { key = commit_lag; bad = c }
        ∷ record { key = watcher_stalled; bad = d }
        ∷ [] in
      let (messages, last') = apply_alert_transitions checks last in
      (messages_about k messages ≡ edge k (bad_of k checks) (last k)) × (last' k ≡ bad_of k checks)
unfolding apply_alert_transitions edge set_last same_key about
tick_lem starved a b c d last = ground arith
tick_lem ids_trip a b c d last = ground arith
tick_lem commit_lag a b c d last = ground arith
tick_lem watcher_stalled a b c d last = ground arith

checks_lem :
    (k : AlertKey) (lag stalled : ℕ) (r : Reading) (last : LastBad)
    → let (messages, last') = apply_alert_transitions (checks_of lag stalled r) last in
      (messages_about k messages ≡ edge k (bad_of k (checks_of lag stalled r)) (last k))
      × (last' k ≡ bad_of k (checks_of lag stalled r))
unfolding evaluate_alerts
checks_lem k lag stalled r last =
    tick_lem k (is_starved r.lifecycle) (has_mismatch r.lifecycle || r.phantom)
      (is_older r.now r.commit_at lag) (is_older r.now r.watcher_at stalled) last

-- Over any run of ticks, the messages about one alert are the edges of its value, in their order: an
-- alarm where it turns bad, a recovery where it turns good, and nothing while it stays.
pub run_ticks-edges :
    (lag stalled : ℕ) (rs : List Reading) (k : AlertKey) (last : LastBad)
    → messages_about k (run_ticks lag stalled rs last) ≡ edges k (last k) (values lag stalled k rs)
unfolding run_ticks values
run_ticks-edges lag stalled [] k last = sym (edges_nil k (last k))
run_ticks-edges lag stalled (r ∷ rs) k last =
    let (messages, last') = apply_alert_transitions (checks_of lag stalled r) last in
    let (e, f) = checks_lem k lag stalled r last in
    about-append k messages (run_ticks lag stalled rs last')
    ∙ ap₂ (λ xs ys. xs ++ ys) e
        (run_ticks-edges lag stalled rs k last' ∙ ap (λ b. edges k b (values lag stalled k rs)) f)
    ∙ edges_step k (last k) (bad_of k (checks_of lag stalled r)) (values lag stalled k rs)
