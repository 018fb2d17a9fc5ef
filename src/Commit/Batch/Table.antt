-- ===== src/Commit/Batch/Table.antt =====
-- The table of reports: what the query finds, and what an update leaves as it was.
use tripwire_launch_auditor.Prelude.{
  ℕ, ◌≡◌, refl, sym, ◌∙◌, ◌≢◌, ◌⊎◌, inl, inr, String, ◌=ₛ◌, eq_iff, true, false, none, some, List,
  [], ◌∷◌, All, Bool-cases,
}
use tripwire_launch_auditor.Commit.Batch.{Report, PendingReport, update, update_all, contains_id}

-- The primary key.
abbrev pub Unique : List Report → Type 0
Unique [] = Unit
Unique (r ∷ rs) = All (λ s. s.id ≢ r.id) rs × Unique rs

-- The report stands in the table as it was read, and has no commit.
abbrev pub IsPendingIn : List Report → PendingReport → Type 0
IsPendingIn rs p =
    All (λ r. r.id ≡ p.id → (r.commit_id ≡ none) × (r.report_hash ≡ p.report_hash)) rs

-- The same, but for the commit that is being recorded.
abbrev pub IsOpenIn : ℕ → List Report → PendingReport → Type 0
IsOpenIn c rs p =
    All
      (λ r.
        r.id ≡ p.id
        → ((r.commit_id ≡ none) ⊎ (r.commit_id ≡ some c)) × (r.report_hash ≡ p.report_hash))
      rs

-- The second table has the reports of the first, and each commit that they had.
abbrev pub Keeps : List Report → List Report → Type 0
Keeps [] [] = Unit
Keeps [] (s ∷ ss) = ⊥
Keeps (r ∷ rs) [] = ⊥
Keeps (r ∷ rs) (s ∷ ss) =
    (r.id ≡ s.id)
    × (r.report_hash ≡ s.report_hash)
    × ((c : ℕ) → r.commit_id ≡ some c → s.commit_id ≡ some c)
    × Keeps rs ss

pub Keeps-refl : (rs : List Report) → Keeps rs rs
Keeps-refl [] = tt
Keeps-refl (r ∷ rs) = (refl, refl, λ c e. e, Keeps-refl rs)

pub Keeps-trans : (xs ys zs : List Report) → Keeps xs ys → Keeps ys zs → Keeps xs zs
Keeps-trans [] [] [] h k = tt
Keeps-trans [] [] (z ∷ zs) h k = absurd k
Keeps-trans [] (y ∷ ys) zs h k = absurd h
Keeps-trans (x ∷ xs) [] zs h k = absurd h
Keeps-trans (x ∷ xs) (y ∷ ys) [] h k = absurd k
Keeps-trans (x ∷ xs) (y ∷ ys) (z ∷ zs) (a, b, f, h) (c, d, g, k) =
    (a ∙ c, b ∙ d, λ n e. g n (f n e), Keeps-trans xs ys zs h k)

Keeps-other :
    (i j : String) (rs ss : List Report)
    → i ≡ j
    → Keeps rs ss
    → All (λ s. s.id ≢ i) rs
    → All (λ s. s.id ≢ j) ss
Keeps-other i j [] [] e h u = tt
Keeps-other i j [] (s ∷ ss) e h u = absurd h
Keeps-other i j (r ∷ rs) [] e h u = absurd h
Keeps-other i j (r ∷ rs) (s ∷ ss) e (a, b, f, h) u =
    (λ q. u.0 (a ∙ q ∙ sym e), Keeps-other i j rs ss e h u.1)

pub Keeps-Unique : (rs ss : List Report) → Keeps rs ss → Unique rs → Unique ss
Keeps-Unique [] [] h u = tt
Keeps-Unique [] (s ∷ ss) h u = absurd h
Keeps-Unique (r ∷ rs) [] h u = absurd h
Keeps-Unique (r ∷ rs) (s ∷ ss) (a, b, f, h) u =
    (Keeps-other r.id s.id rs ss a h u.0, Keeps-Unique rs ss h u.1)

update-Keeps :
    (p : PendingReport) (c : ℕ) (rs : List Report) → IsOpenIn c rs p → Keeps rs (update p c rs)
unfolding update
update-Keeps p c [] h = tt
update-Keeps p c (r ∷ rs) h = elim (Bool-cases (r.id =ₛ p.id)) [
  | inl e ↦
      rw e (
        refl,
        refl,
        λ d q. same_commit d (h.0 ((eq_iff r.id p.id).0 e)).0 q,
        update-Keeps p c rs h.1,
      )
  | inr e ↦ rw e (refl, refl, λ d q. q, update-Keeps p c rs h.1)
]
  where
    same_commit :
        (d : ℕ)
        → (r.commit_id ≡ none) ⊎ (r.commit_id ≡ some c)
        → r.commit_id ≡ some d
        → some c ≡ some d
    same_commit d (inl n) q = cc
    same_commit d (inr n) q = cc

update-IsOpenIn :
    (p q : PendingReport) (c : ℕ) (rs : List Report)
    → IsOpenIn c rs q
    → IsOpenIn c (update p c rs) q
unfolding update
update-IsOpenIn p q c [] h = tt
update-IsOpenIn p q c (r ∷ rs) h = elim (Bool-cases (r.id =ₛ p.id)) [
  | inl e ↦ rw e (λ i. (inr refl, (h.0 i).1), update-IsOpenIn p q c rs h.1)
  | inr e ↦ rw e (h.0, update-IsOpenIn p q c rs h.1)
]

pub update-IsOpenIn_all :
    (p : PendingReport) (qs : List PendingReport) (c : ℕ) (rs : List Report)
    → All (IsOpenIn c rs) qs
    → All (IsOpenIn c (update p c rs)) qs
update-IsOpenIn_all p [] c rs h = tt
update-IsOpenIn_all p (q ∷ qs) c rs h =
    (update-IsOpenIn p q c rs h.0, update-IsOpenIn_all p qs c rs h.1)

-- Recording a batch that is open leaves every commit that a report had.
pub update_all-Keeps :
    (ps : List PendingReport) (c : ℕ) (rs : List Report)
    → All (IsOpenIn c rs) ps
    → Keeps rs (update_all ps c rs)
unfolding update_all
update_all-Keeps [] c rs h = Keeps-refl rs
update_all-Keeps (p ∷ ps) c rs h =
    Keeps-trans rs (update p c rs) (update_all ps c (update p c rs)) (update-Keeps p c rs h.0)
      (update_all-Keeps ps c (update p c rs) (update-IsOpenIn_all p ps c rs h.1))

pub IsPendingIn-IsOpenIn :
    (c : ℕ) (rs : List Report) (p : PendingReport) → IsPendingIn rs p → IsOpenIn c rs p
IsPendingIn-IsOpenIn c [] p h = tt
IsPendingIn-IsOpenIn c (r ∷ rs) p h =
    (λ i. (inl (h.0 i).0, (h.0 i).1), IsPendingIn-IsOpenIn c rs p h.1)

pub all_open :
    (c : ℕ) (rs : List Report) (ps : List PendingReport)
    → All (IsPendingIn rs) ps
    → All (IsOpenIn c rs) ps
all_open c rs [] h = tt
all_open c rs (p ∷ ps) h = (IsPendingIn-IsOpenIn c rs p h.0, all_open c rs ps h.1)

update-IsPendingIn :
    (p q : PendingReport) (c : ℕ) (rs : List Report)
    → q.id ≢ p.id
    → IsPendingIn rs q
    → IsPendingIn (update p c rs) q
unfolding update
update-IsPendingIn p q c [] d h = tt
update-IsPendingIn p q c (r ∷ rs) d h = elim (Bool-cases (r.id =ₛ p.id)) [
  | inl e ↦
      rw e (λ i. absurd (d (sym i ∙ (eq_iff r.id p.id).0 e)), update-IsPendingIn p q c rs d h.1)
  | inr e ↦ rw e (h.0, update-IsPendingIn p q c rs d h.1)
]

-- No report of the one batch is in the other.
abbrev pub Apart : List PendingReport → List PendingReport → Type 0
Apart held ps = All (λ p. contains_id p.id held ≡ false) ps

contains_id-head :
    (q : PendingReport) (held : List PendingReport) (i : String)
    → contains_id i (q ∷ held) ≡ false
    → (q.id ≢ i) × (contains_id i held ≡ false)
unfolding contains_id
contains_id-head q held i h = elim (Bool-cases (q.id =ₛ i)) [
  | inl e ↦ let bad : true ≡ false = rw e at h in cc
  | inr e ↦ (λ k. let yes : (q.id =ₛ i) ≡ true = (eq_iff q.id i).1 k in cc, rw e at h)
]

update-held :
    (p : PendingReport) (held : List PendingReport) (c : ℕ) (rs : List Report)
    → contains_id p.id held ≡ false
    → All (IsPendingIn rs) held
    → All (IsPendingIn (update p c rs)) held
update-held p [] c rs n h = tt
update-held p (q ∷ held) c rs n h =
    let (d, k) = contains_id-head q held p.id n in
    (update-IsPendingIn p q c rs d h.0, update-held p held c rs k h.1)

-- Recording a batch leaves the reports of another batch pending.
pub update_all-held :
    (ps held : List PendingReport) (c : ℕ) (rs : List Report)
    → Apart held ps
    → All (IsPendingIn rs) held
    → All (IsPendingIn (update_all ps c rs)) held
unfolding update_all
update_all-held [] held c rs a h = h
update_all-held (p ∷ ps) held c rs a h =
    update_all-held ps held c (update p c rs) a.1 (update-held p held c rs a.0 h)
