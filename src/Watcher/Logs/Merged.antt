-- ===== src/Watcher/Logs/Merged.antt =====
-- The merged logs hold each log of the batches once.
use tripwire_launch_auditor.Prelude.{
  length-drop_le, ℕ, zero, suc, ◌+◌, ◌≤◌, ◌≡◌, refl, Bool, true, false, ◌||◌, Option, none, some,
  List, [], ◌∷◌, ◌++◌, length, take, drop, All, if◌then◌else◌, arith, Bool-cases, Option-cases, ap,
  ap₂, subst, ◌∙◌, inl, inr, count_if, count_if-append, take-append-drop,
}
use tripwire_launch_auditor.Hex.{Hex}
use tripwire_launch_auditor.Watcher.Logs.Topics.{
  TopicLog, batches_of, is_at, any_at, was_seen, merge_logs, insert_log, sort_logs, read_batches,
  get_logs_by_topic_values,
}

module _ (b i : ℕ) where
  abbrev number : List TopicLog → ℕ
  number = count_if (is_at b i)

  any_at-append :
      (out : List TopicLog) (l : TopicLog)
      → any_at b i (out ++ l ∷ []) ≡ (any_at b i out || is_at b i l)
  unfolding any_at
  any_at-append [] l = ground arith
  any_at-append (m ∷ out) l = ground (arith, any_at-append out l)

  -- A list that holds the log once, or does not hold it.
  abbrev Once : List TopicLog → Type 0
  Once out = number out ≡ (if any_at b i out then 1 else 0)

  seen-at :
      (l : TopicLog) (out : List TopicLog) → is_at b i l ≡ true → was_seen l out ≡ any_at b i out
  unfolding is_at was_seen
  seen-at l out h = elim (Option-cases l.log_index) [
    | inl e ↦ ground (arith, h, e)
    | inr (j, e) ↦
        let p : l.block_number ≡ b = ground (arith, h, e) in
        let q : j ≡ i = ground (arith, h, e) in
        let r : any_at l.block_number j out ≡ any_at b i out = ap₂ (λ x y. any_at x y out) p q in
        ground (arith, e, r)
  ]

  merge_step :
      (l : TopicLog) (out : List TopicLog)
      → Once out
      → let next = if was_seen l out then out else out ++ l ∷ [] in
        Once next × (any_at b i next ≡ (any_at b i out || is_at b i l))
  unfolding count_if
  merge_step l out h =
      let a = any_at-append out l in
      let c = count_if-append (is_at b i) out (l ∷ []) in
      elim (Bool-cases (is_at b i l)) [
        | inl q ↦ let s = seen-at l out q in ground (arith, a, c, s, q, h)
        | inr q ↦ ground (arith, a, c, q, h)
      ]

  merge_logs-Once :
      (ls out : List TopicLog)
      → Once out
      → let after = merge_logs ls out in
        Once after × (any_at b i after ≡ (any_at b i out || any_at b i ls))
  unfolding merge_logs any_at
  merge_logs-Once [] out h = (h, ground arith)
  merge_logs-Once (l ∷ ls) out h =
      let (o, a) = merge_step l out h in
      let next = if was_seen l out then out else out ++ l ∷ [] in
      let (p, c) = merge_logs-Once ls next o in (p, ground (arith, a, c))

  insert_log-number :
      (l : TopicLog) (ls : List TopicLog)
      → number (insert_log l ls) ≡ (if is_at b i l then 1 else 0) + number ls
  unfolding insert_log count_if
  insert_log-number l [] = refl
  insert_log-number l (m ∷ ms) = ground (arith, insert_log-number l ms)

  sort_logs-number : (ls : List TopicLog) → number (sort_logs ls) ≡ number ls
  unfolding sort_logs count_if
  sort_logs-number [] = refl
  sort_logs-number (l ∷ ls) = omega (arith, insert_log-number l (sort_logs ls), sort_logs-number ls)

  -- Some batch's answer has a log at the place.
  pub given_at : (List Hex → Option (List TopicLog)) → List (List Hex) → Bool
  given_at request [] = false
  given_at request (batch ∷ batches) =
      elim (request batch) [ none ↦ false | some logs ↦ any_at b i logs ]
      || given_at request batches

  read_batches-Once :
      (request : List Hex → Option (List TopicLog)) (batches : List (List Hex))
      (out after : List TopicLog)
      → Once out
      → read_batches request batches out ≡ some after
      → Once after × (any_at b i after ≡ (any_at b i out || given_at request batches))
  unfolding read_batches given_at
  read_batches-Once request [] out after h e =
      let same : out ≡ after = ground (arith, e) in
      (subst Once same h, ground (arith, ap (any_at b i) same))
  read_batches-Once request (batch ∷ batches) out after h e = elim (Option-cases (request batch)) [
    | inl q ↦ ground (arith, q, e)
    | inr (logs, q) ↦
        let (o, a) = merge_logs-Once logs out h in
        let (p, c) =
          read_batches-Once request batches (merge_logs logs out) after o (ground (arith, q, e)) in
        (p, ground (arith, a, c, q))
  ]

-- The batches are the values, cut into pieces.
pub flat : List (List Hex) → List Hex
flat [] = []
flat (b ∷ bs) = b ++ flat bs

length-take_le : (n : ℕ) (vs : List Hex) → length (take n vs) ≤ n
length-take_le zero vs = omega arith
length-take_le (suc n) [] = omega arith
length-take_le (suc n) (v ∷ vs) = omega (arith, length-take_le n vs)

batches-whole :
    (fuel cap : ℕ) (values : List Hex)
    → length values ≤ fuel
    → (flat (batches_of fuel (suc cap) values) ≡ values)
      × All (λ b. length b ≤ suc cap) (batches_of fuel (suc cap) values)
unfolding batches_of flat
batches-whole zero cap [] h = (refl, tt)
batches-whole zero cap (v ∷ vs) h = absurd (omega arith)
batches-whole (suc fuel) cap [] h = (refl, tt)
batches-whole (suc fuel) cap (v ∷ vs) h =
    let (e, l) = batches-whole fuel cap (drop cap vs) (omega (arith, length-drop_le cap vs)) in
    (
      ap (λ t. v ∷ (take cap vs ++ t)) e ∙ ap (λ t. v ∷ t) (take-append-drop cap vs),
      (omega (arith, length-take_le cap vs), l),
    )

-- With a limit of 1 at least, the values are asked for in batches of at most the limit that make up the
-- values; and where every batch is answered, each place in the chain has one log in the result if
-- some answer has a log there, and none else.
pub get_logs_by_topic_values-once :
    (request : List Hex → Option (List TopicLog)) (cap : ℕ) (values : List Hex)
    (logs : List TopicLog) (b i : ℕ)
    → get_logs_by_topic_values request (some (suc cap)) values ≡ some logs
    → let batches = batches_of (length values) (suc cap) values in
      (flat batches ≡ values)
      × All (λ x. length x ≤ suc cap) batches
      × (count_if (is_at b i) logs ≡ (if given_at b i request batches then 1 else 0))
unfolding get_logs_by_topic_values count_if any_at
get_logs_by_topic_values-once request cap values logs b i h =
    let batches = batches_of (length values) (suc cap) values in
    let (e, l) = batches-whole (length values) cap values (omega arith) in
    elim (Option-cases (read_batches request batches [])) [
      | inl q ↦ ground (arith, h, q)
      | inr (out, q) ↦
          let (o, a) = read_batches-Once b i request batches [] out refl q in
          let same : sort_logs out ≡ logs = ground (arith, h, q) in
          let n = sort_logs-number b i out in
          let m = ap (count_if (is_at b i)) same in (e, l, ground (arith, o, a, n, m))
    ]
