-- ===== src/Commit/Batch/Query.antt =====
-- What the query for pending reports finds.
use tripwire_launch_auditor.Prelude.{
  ℕ, zero, suc, ◌≡◌, refl, sym, ◌≢◌, ◌∙◌, String, true, false, none, List, [], ◌∷◌, take, All,
  if_intro, arith, leb,
}
use tripwire_launch_auditor.Commit.Batch.{
  Report, PendingReport, contains_id, insert_by_age, is_pending, find_pending,
}
use tripwire_launch_auditor.Commit.Batch.Table.{Unique, IsPendingIn, Apart}

module _ {κ} (P : PendingReport → Type κ) where
  insert_by_age-All :
      (p : PendingReport) (ps : List PendingReport) → P p → All P ps → All P (insert_by_age p ps)
  unfolding insert_by_age
  insert_by_age-All p [] h k = (h, tt)
  insert_by_age-All p (q ∷ ps) h k =
      if_intro (All P) (leb p.created_at q.created_at) (p ∷ q ∷ ps) (q ∷ insert_by_age p ps)
        (λ e. (h, k)) (λ e. (k.0, insert_by_age-All p ps h k.1))

  pub take-All : (n : ℕ) (ps : List PendingReport) → All P ps → All P (take n ps)
  take-All zero ps h = tt
  take-All (suc n) [] h = tt
  take-All (suc n) (p ∷ ps) h = (h.0, take-All n ps h.1)

abbrev as_pending : Report → PendingReport
as_pending r = record { id = r.id; report_hash = r.report_hash; created_at = r.created_at }

-- By the primary key, a row without a commit is the only one of its id.
IsAlone : List Report → Report → Type 0
IsAlone all r = r.commit_id ≡ none → IsPendingIn all (as_pending r)

IsPendingIn-other :
    (i : String) (p : PendingReport) (rs : List Report)
    → p.id ≡ i
    → All (λ s. s.id ≢ i) rs
    → IsPendingIn rs p
IsPendingIn-other i p [] e h = tt
IsPendingIn-other i p (r ∷ rs) e h = (λ q. absurd (h.0 (q ∙ e)), IsPendingIn-other i p rs e h.1)

IsAlone-more :
    (r : Report) (rs ss : List Report)
    → All (λ s. s.id ≢ r.id) ss
    → All (IsAlone rs) ss
    → All (IsAlone (r ∷ rs)) ss
unfolding IsAlone
IsAlone-more r rs [] h k = tt
IsAlone-more r rs (s ∷ ss) h k =
    (λ n. (λ q. absurd (h.0 (sym q)), k.0 n), IsAlone-more r rs ss h.1 k.1)

all-IsAlone : (rs : List Report) → Unique rs → All (IsAlone rs) rs
unfolding IsAlone
all-IsAlone [] u = tt
all-IsAlone (r ∷ rs) u = (
  λ n. (λ q. (n, refl), IsPendingIn-other r.id (as_pending r) rs refl u.0),
  IsAlone-more r rs rs u.0 (all-IsAlone rs u.1),
)

-- What the query promises of one report.
abbrev Found : List PendingReport → List Report → PendingReport → Type 0
Found held all p = IsPendingIn all p × (contains_id p.id held ≡ false)

is_pending-Found :
    (held : List PendingReport) (all : List Report) (r : Report)
    → IsAlone all r
    → is_pending held r ≡ true
    → Found held all (as_pending r)
unfolding is_pending IsAlone
is_pending-Found held all r h e = (h (ground arith), ground arith)

query_Found :
    (held : List PendingReport) (all rs : List Report)
    → All (IsAlone all) rs
    → All (Found held all) (find_pending held rs)
unfolding find_pending
query_Found held all [] h = tt
query_Found held all (r ∷ rs) h =
    if_intro (All (Found held all)) (is_pending held r)
      (insert_by_age (as_pending r) (find_pending held rs)) (find_pending held rs)
      (λ e.
        insert_by_age-All (Found held all) (as_pending r) (find_pending held rs)
          (is_pending-Found held all r h.0 e) (query_Found held all rs h.1))
      (λ e. query_Found held all rs h.1)

both :
    (held : List PendingReport) (all : List Report) (ps : List PendingReport)
    → All (Found held all) ps
    → All (IsPendingIn all) ps × Apart held ps
both held all [] h = (tt, tt)
both held all (p ∷ ps) h = let (a, b) = both held all ps h.1 in ((h.0.0, a), (h.0.1, b))

-- A batch that is cut from the query: its reports have no commit, and none of them is held.
pub batch-IsPendingIn :
    (n : ℕ) (held : List PendingReport) (rs : List Report)
    → Unique rs
    → let batch = take n (find_pending held rs) in All (IsPendingIn rs) batch × Apart held batch
batch-IsPendingIn n held rs u =
    both held rs (take n (find_pending held rs)) (
      take-All (Found held rs) n (find_pending held rs) (query_Found held rs rs (all-IsAlone rs u)))
