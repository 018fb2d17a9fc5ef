-- ===== src/Commit/Artifacts/Again.antt =====
-- A second run over the same hashes.
use tripwire_launch_auditor.Prelude.{
  ◌≡◌, ◌≢◌, refl, sym, ap, ◌∙◌, String, ◌=ₛ◌, eq_iff, Bool, true, false, not, ◌&&◌, Option, none,
  some, List, [], ◌∷◌, ◌++◌, All, inl, inr, Bool-cases, arith, if_intro, option_intro,
}
use tripwire_launch_auditor.Hex.{Hex, hex_eq_iff, to_lower_case}
use tripwire_launch_auditor.Commit.Job.{
  CommitEnv, require_commit_env, configured, refused, CommitConfig,
}
use tripwire_launch_auditor.Commit.Artifacts.{
  ArtifactRow, Labels, Recommit, set, note_row, last_of, artifact_row, is_last, skip_label,
  post_label, recommit_loop, unset, started, recommit_artifacts, or_root,
}

-- The keys of an object are different.
abbrev pub Keys : List (String × Hex) → Type 0
Keys [] = Unit
Keys (e ∷ es) = All (λ x. x.0 ≢ e.0) es × Keys es

abbrev pub Answers : (String → Hex → Option Hex) → List (String × Hex) → Type 0
Answers writes = All (λ e. writes e.0 e.1 ≢ none)

last_of-append :
    (xs ys : List ArtifactRow) (m : Labels) → last_of (xs ++ ys) m ≡ last_of ys (last_of xs m)
unfolding last_of
last_of-append [] ys m = refl
last_of-append (x ∷ xs) ys m = last_of-append xs ys (note_row x m)

-- The last hash of a label once its row is there, and of the others.
last_new :
    (rows : List ArtifactRow) (label : String) (hash tx : Hex)
    → last_of (rows ++ artifact_row label hash tx ∷ []) unset label ≡ some (to_lower_case hash)
unfolding last_of note_row set artifact_row or_root
last_new rows label hash tx =
    let same : (label =ₛ label) ≡ true = (eq_iff label label).1 refl in
    rw (last_of-append rows (artifact_row label hash tx ∷ []) unset, same) refl

last_other :
    (rows : List ArtifactRow) (label k : String) (hash tx : Hex)
    → k ≢ label
    → last_of (rows ++ artifact_row label hash tx ∷ []) unset k ≡ last_of rows unset k
unfolding last_of note_row set artifact_row
last_other rows label k hash tx d = elim (Bool-cases (k =ₛ label)) [
  | inl e ↦ absurd (d ((eq_iff k label).0 e))
  | inr e ↦ rw (last_of-append rows (artifact_row label hash tx ∷ []) unset, e) refl
]

last_others :
    (rows : List ArtifactRow) (label : String) (hash tx : Hex) (last : Labels)
    (es : List (String × Hex))
    → All (λ x. x.0 ≢ label) es
    → All (λ e. last_of rows unset e.0 ≡ last e.0) es
    → All (λ e. last_of (rows ++ artifact_row label hash tx ∷ []) unset e.0 ≡ last e.0) es
last_others rows label hash tx last [] d h = tt
last_others rows label hash tx last (e ∷ es) d h =
    (last_other rows label e.0 hash tx d.0 ∙ h.0, last_others rows label hash tx last es d.1 h.1)

is_last_lem : (o : Option Hex) (hash : Hex) → is_last o hash ≡ true → o ≡ some (to_lower_case hash)
unfolding is_last
is_last_lem none hash e = cc
is_last_lem (some h) hash e = ap some ((hex_eq_iff h (to_lower_case hash)).0 e)

module _ (writes : String → Hex → Option Hex) (force : Bool) (last : Labels) where
  abbrev posted : String → Hex → List (String × Hex) → Recommit → Recommit
  posted label hash es r = elim (writes label hash) [
    | none ↦ record r { threw = true }
    | some tx ↦ recommit_loop writes force last es (post_label label hash tx r)
  ]

  -- What one run leaves for a label that is not among its hashes.
  loop_other :
      (es : List (String × Hex)) (r : Recommit) (k : String)
      → All (λ x. k ≢ x.0) es
      → last_of (recommit_loop writes force last es r).rows unset k ≡ last_of r.rows unset k
  unfolding recommit_loop
  loop_other [] r k d = refl
  loop_other ((label, hash) ∷ es) r k d =
      if_intro (λ (x : Recommit). last_of x.rows unset k ≡ last_of r.rows unset k)
        (not force && is_last (last label) hash)
        (recommit_loop writes force last es (skip_label label r)) (posted label hash es r)
        (λ q. loop_other es (skip_label label r) k d.1)
        (λ q.
          option_intro (λ (x : Recommit). last_of x.rows unset k ≡ last_of r.rows unset k)
            (writes label hash) (record r { threw = true })
            (λ tx. recommit_loop writes force last es (post_label label hash tx r)) (λ e. refl)
            (λ tx e.
              loop_other es (post_label label hash tx r) k d.1
              ∙ last_other r.rows label k hash tx d.0))

  flip : (l : String) (es : List (String × Hex)) → All (λ x. x.0 ≢ l) es → All (λ x. l ≢ x.0) es
  flip l [] h = tt
  flip l (e ∷ es) h = (λ q. h.0 (sym q), flip l es h.1)

  -- After a run that the chain answered, the last hash of every label is the current one.
  abbrev IsCurrent : List (String × Hex) → Recommit → Type 0
  IsCurrent es r =
      (r.threw ≡ false) × All (λ e. last_of r.rows unset e.0 ≡ some (to_lower_case e.1)) es

  loop-IsCurrent :
      (es : List (String × Hex)) (r : Recommit)
      → Keys es
      → Answers writes es
      → All (λ e. last_of r.rows unset e.0 ≡ last e.0) es
      → r.threw ≡ false
      → IsCurrent es (recommit_loop writes force last es r)
  unfolding recommit_loop
  loop-IsCurrent [] r k a h t = (t, tt)
  loop-IsCurrent ((label, hash) ∷ es) r k a h t =
      if_intro (IsCurrent ((label, hash) ∷ es)) (not force && is_last (last label) hash)
        (recommit_loop writes force last es (skip_label label r)) (posted label hash es r)
        (λ q.
          let r' : Recommit = skip_label label r in
          let (u, c) = loop-IsCurrent es r' k.1 a.1 h.1 t in
          let b : is_last (last label) hash ≡ true = ground (arith, q) in
          (
            u,
            (loop_other es r' label (flip label es k.0) ∙ h.0 ∙ is_last_lem (last label) hash b, c),
          ))
        (λ q.
          option_intro (IsCurrent ((label, hash) ∷ es)) (writes label hash)
            (record r { threw = true })
            (λ tx. recommit_loop writes force last es (post_label label hash tx r))
            (λ e. absurd (a.0 e))
            (λ tx e.
              let r' : Recommit = post_label label hash tx r in
              let (u, c) =
                loop-IsCurrent es r' k.1 a.1 (last_others r.rows label hash tx last es k.0 h.1) t in
              (u, (loop_other es r' label (flip label es k.0) ∙ last_new r.rows label hash tx, c))))

last_self :
    (rows : List ArtifactRow) (es : List (String × Hex))
    → All (λ e. last_of rows unset e.0 ≡ last_of rows unset e.0) es
last_self rows [] = tt
last_self rows (e ∷ es) = (refl, last_self rows es)

-- Where every label's last hash is the current one, a run without force posts nothing.
loop_idle :
    (writes : String → Hex → Option Hex) (last : Labels) (es : List (String × Hex)) (r : Recommit)
    → All (λ e. last e.0 ≡ some (to_lower_case e.1)) es
    → let t = recommit_loop writes false last es r in
      (t.rows ≡ r.rows) × (t.committed ≡ r.committed) × (t.threw ≡ r.threw)
unfolding recommit_loop is_last
loop_idle writes last [] r h = (refl, refl, refl)
loop_idle writes last ((label, hash) ∷ es) r h =
    rw (h.0, (hex_eq_iff (to_lower_case hash) (to_lower_case hash)).1 refl)
      (loop_idle writes last es (skip_label label r) h.1)

-- Once a run has posted every changed hash without an error, a further run without force over the
-- same hashes posts nothing and leaves the rows as they are.
pub recommit_artifacts-again :
    (writes again : String → Hex → Option Hex) (env : CommitEnv) (force : Bool)
    (es : List (String × Hex)) (rows : List ArtifactRow)
    → Keys es
    → Answers writes es
    → let r = recommit_artifacts writes env force es rows in
      let t = recommit_artifacts again env false es r.rows in
      (r.threw ≡ false) × (t.rows ≡ r.rows) × (t.committed ≡ []) × (t.threw ≡ false)
unfolding recommit_artifacts started
recommit_artifacts-again writes again env force es rows k a = by_config (require_commit_env env)
  where
    run : (String → Hex → Option Hex) → Bool → CommitConfig → List ArtifactRow → Recommit
    run w f c rs = elim c as (λ x. Recommit) [
      | refused r ↦ started rs
      | configured pk registry ↦ recommit_loop w f (last_of rs unset) es (started rs)
    ]

    by_config :
        (c : CommitConfig)
        → let r = run writes force c rows in
          let t = run again false c r.rows in
          (r.threw ≡ false) × (t.rows ≡ r.rows) × (t.committed ≡ []) × (t.threw ≡ false)
    by_config (refused r) = (refl, refl, refl, refl)
    by_config (configured pk registry) =
        let r = recommit_loop writes force (last_of rows unset) es (started rows) in
        let (u, c) =
          loop-IsCurrent writes force (last_of rows unset) es (started rows) k a (last_self rows es)
            refl in
        let (p, q, v) = loop_idle again (last_of r.rows unset) es (started r.rows) c in (u, p, q, v)
