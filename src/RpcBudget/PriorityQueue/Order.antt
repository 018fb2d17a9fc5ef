-- ===== src/RpcBudget/PriorityQueue/Order.antt =====
-- The lowest priority number comes out first, and within one number the oldest entry.
use tripwire_launch_auditor.Prelude.{
  ℕ, zero, suc, ◌≤◌, ◌<◌, ◌≡◌, refl, ap, ◌∙◌, some, List, [], ◌∷◌, ◌++◌, leb, ◌==◌, length,
  get_elem?, take, drop, if◌then◌else◌, All-get_elem?, length-append, All, All-append, All-split,
  arith, ==_iff, ◌≢◌, take-append-drop, drop_length, drop-get_elem?, get_elem?-lt, Bool-cases, inl,
  inr,
}
use native.Mathlib.Nat.{le_refl}
use mathlib.Core.List.{append-nil}
use tripwire_launch_auditor.RpcBudget.PriorityQueue.{
  empty, Entry, PriorityQueue, walk, splice, push, shift_items, shift, size,
}

module _ {ℓ} {T : Type ℓ} where
  -- The values of one priority, in the order in which they come out.
  abbrev pub of_priority : ℕ → List (Entry T) → List T
  of_priority k [] = []
  of_priority k (e ∷ items) =
      if e.priority == k then e.value ∷ of_priority k items else of_priority k items

  abbrev pub Above : ℕ → List (Entry T) → Type 0
  Above k = All (λ e. k < e.priority)

  abbrev pub AtLeast : ℕ → List (Entry T) → Type 0
  AtLeast k = All (λ e. k ≤ e.priority)

  abbrev pub AtMost : ℕ → List (Entry T) → Type 0
  AtMost k = All (λ e. e.priority ≤ k)

  abbrev pub IsOrdered : List (Entry T) → Type 0
  IsOrdered [] = Unit
  IsOrdered (e ∷ items) = AtLeast e.priority items × IsOrdered items

  of_priority-append :
      (k : ℕ) (xs ys : List (Entry T))
      → of_priority k (xs ++ ys) ≡ of_priority k xs ++ of_priority k ys
  of_priority-append k [] ys = refl
  of_priority-append k (x ∷ xs) ys = ground (arith, of_priority-append k xs ys)

  of_priority-Above : (k : ℕ) (xs : List (Entry T)) → Above k xs → of_priority k xs ≡ []
  of_priority-Above k [] h = refl
  of_priority-Above k (x ∷ xs) h = ground (arith, of_priority-Above k xs h.1)

  walk-Above :
      (items : List (Entry T)) (k i : ℕ)
      → i ≤ length items
      → Above k (drop i items)
      → Above k (drop (walk items k i) items)
  unfolding walk
  walk-Above items k zero b h = h
  walk-Above items k (suc i) b h =
      let (prev, e) = get_elem?-lt items i (omega arith) in
      elim (Bool-cases (leb prev.priority k)) [
        | inl t ↦ rw (e, walk, t) h
        | inr t ↦
            rw (e, walk, t)
              (walk-Above items k i (omega arith)
                (rw (drop-get_elem? items i prev e) (ground arith, h)))
      ]

  AtMost-take :
      (items : List (Entry T)) (i : ℕ) (e : Entry T)
      → IsOrdered items
      → get_elem? items i ≡ some e
      → AtMost e.priority (take (suc i) items)
  AtMost-take [] i e s q = cc
  AtMost-take (x ∷ items) zero e s q = ground arith
  AtMost-take (x ∷ items) (suc i) e s q =
      (All-get_elem? (λ y. x.priority ≤ y.priority) items i e s.0 q, AtMost-take items i e s.1 q)

  AtMost-mono : (j k : ℕ) (xs : List (Entry T)) → j ≤ k → AtMost j xs → AtMost k xs
  AtMost-mono j k [] h a = tt
  AtMost-mono j k (x ∷ xs) h a = (omega arith, AtMost-mono j k xs h a.1)

  -- Everything that stays ahead of the new entry is at most its priority.
  walk-AtMost :
      (items : List (Entry T)) (k i : ℕ)
      → i ≤ length items
      → IsOrdered items
      → AtMost k (take (walk items k i) items)
  unfolding walk
  walk-AtMost items k zero b s = tt
  walk-AtMost items k (suc i) b s =
      let (prev, e) = get_elem?-lt items i (omega arith) in
      elim (Bool-cases (leb prev.priority k)) [
        | inl t ↦
            rw (e, walk, t)
              (AtMost-mono prev.priority k (take (suc i) items) (ground arith)
                (AtMost-take items i prev s e))
        | inr t ↦ rw (e, walk, t) (walk-AtMost items k i (omega arith) s)
      ]

  AtLeast-Above : (k : ℕ) (xs : List (Entry T)) → Above k xs → AtLeast k xs
  AtLeast-Above k [] h = tt
  AtLeast-Above k (x ∷ xs) h = (omega arith, AtLeast-Above k xs h.1)

  IsOrdered-between :
      (xs ys : List (Entry T)) (e : Entry T)
      → IsOrdered (xs ++ ys)
      → AtMost e.priority xs
      → Above e.priority ys
      → IsOrdered (xs ++ e ∷ ys)
  IsOrdered-between [] ys e s lo hi = (AtLeast-Above e.priority ys hi, s)
  IsOrdered-between (x ∷ xs) ys e s lo hi =
      let (p, q) = All-split (λ y. x.priority ≤ y.priority) xs ys s.0 in
      (
        All-append (λ y. x.priority ≤ y.priority) xs (e ∷ ys) p (lo.0, q),
        IsOrdered-between xs ys e s.1 lo.1 hi,
      )

  -- A push keeps the queue in the order of priorities.
  pub push-IsOrdered :
      (q : PriorityQueue T) (priority : ℕ) (value : T)
      → IsOrdered q.items
      → IsOrdered (push q priority value).items
  unfolding push splice
  push-IsOrdered q priority value s =
      let i : ℕ = walk q.items priority (length q.items) in
      IsOrdered-between (take i q.items) (drop i q.items)
        (record { priority = priority; seq = q.seq; value = value })
        (rw (take-append-drop i q.items) s)
        (walk-AtMost q.items priority (length q.items) (le_refl (length q.items)) s)
        (walk-Above q.items priority (length q.items) (le_refl (length q.items))
          (rw (drop_length q.items) tt))

  of_priority-between :
      (k : ℕ) (xs ys : List (Entry T)) (e : Entry T)
      → Above e.priority ys
      → of_priority k (xs ++ e ∷ ys) ≡ (
          if e.priority == k
          then of_priority k (xs ++ ys) ++ e.value ∷ []
          else of_priority k (xs ++ ys))
  of_priority-between k xs ys e h = elim (Bool-cases (e.priority == k)) [
    | inl t ↦
        let none_left : of_priority k ys ≡ [] =
          rw (← (==_iff e.priority k).0 t) (of_priority-Above e.priority ys h) in
        rw
          (
            t,
            of_priority-append k xs (e ∷ ys),
            of_priority-append k xs ys,
            t,
            none_left,
            append-nil (of_priority k xs),
          )
          refl
    | inr t ↦ rw (t, of_priority-append k xs (e ∷ ys), of_priority-append k xs ys, t) refl
  ]

  -- A push adds its value behind those of its own priority, and leaves the others as they were.
  pub of_priority-push :
      (q : PriorityQueue T) (priority k : ℕ) (value : T)
      → of_priority k (push q priority value).items
        ≡ (if priority == k then of_priority k q.items ++ value ∷ [] else of_priority k q.items)
  unfolding push splice
  of_priority-push q priority k value =
      let i : ℕ = walk q.items priority (length q.items) in
      let e : Entry T = record { priority = priority; seq = q.seq; value = value } in
      let above : Above priority (drop i q.items) =
        walk-Above q.items priority (length q.items) (le_refl (length q.items))
          (rw (drop_length q.items) tt) in
      of_priority-between k (take i q.items) (drop i q.items) e above
      ∙ ap (λ xs. if priority == k then of_priority k xs ++ value ∷ [] else of_priority k xs)
          (take-append-drop i q.items)

  shift_items-oldest :
      (items : List (Entry T)) (seq : ℕ) (v : T)
      → IsOrdered items
      → (shift_items items seq).0 ≡ some v
      → (p : ℕ) × (of_priority p items ≡ v ∷ of_priority p (shift_items items seq).1.items)
        × AtLeast p items
        × ((k : ℕ) → k ≢ p → of_priority k items ≡ of_priority k (shift_items items seq).1.items)
  unfolding shift_items
  shift_items-oldest [] seq v s e = cc
  shift_items-oldest (x ∷ items) seq v s e =
      (x.priority, ground arith, (le_refl x.priority, s.0), λ k n. ground arith)

  -- A shift takes the oldest value of the lowest priority that is queued, and leaves the values of
  -- every other priority as they were.
  pub shift-oldest :
      (q : PriorityQueue T) (v : T)
      → IsOrdered q.items
      → (shift q).0 ≡ some v
      → (p : ℕ) × (of_priority p q.items ≡ v ∷ of_priority p (shift q).1.items)
        × AtLeast p q.items
        × ((k : ℕ) → k ≢ p → of_priority k q.items ≡ of_priority k (shift q).1.items)
  unfolding shift
  shift-oldest q v s e = shift_items-oldest q.items q.seq v s e

  -- A queue that is not empty gives an entry, and is one entry shorter.
  pub shift-some :
      (q : PriorityQueue T)
      → 0 < size q
      → (v : T) × (q' : PriorityQueue T) × (shift q ≡ (some v, q'))
        × (size q ≡ suc (size q'))
        × (IsOrdered q.items → IsOrdered q'.items)
  unfolding size shift
  shift-some q h = some_of q.items q.seq h
    where
      some_of :
          (items : List (Entry T)) (seq : ℕ)
          → 0 < length items
          → (v : T) × (q' : PriorityQueue T) × (shift_items items seq ≡ (some v, q'))
            × (length items ≡ suc (length q'.items))
            × (IsOrdered items → IsOrdered q'.items)
      some_of [] seq h = absurd (omega arith)
      some_of (x ∷ items) seq h =
          (x.value, record { items = items; seq = seq }, refl, refl, λ s. s.1)

  pub size-push :
      (q : PriorityQueue T) (priority : ℕ) (value : T) → size (push q priority value) ≡ suc (size q)
  unfolding size push splice
  size-push q priority value =
      let i : ℕ = walk q.items priority (length q.items) in
      omega (
        arith,
        length-append (take i q.items)
            (record { priority = priority; seq = q.seq; value = value } ∷ drop i q.items),
        length-append (take i q.items) (drop i q.items),
        ap length (take-append-drop i q.items),
      )

pub size-empty {ℓ} : (T : Type ℓ) → size {T = T} empty ≡ 0
unfolding size empty
size-empty T = refl

pub empty-IsOrdered {ℓ} : (T : Type ℓ) → IsOrdered {T = T} empty.items
unfolding empty
empty-IsOrdered T = tt
