-- ===== src/RpcBudget/ResponseCache/Bounded.antt =====
-- What a store into the cache does to its size and to its other entries.
use tripwire_launch_auditor.Prelude.{
  ◌+◌, ◌≤◌, max, ◌≡◌, ◌≢◌, ◌⊎◌, inl, inr, refl, sym, ◌∙◌, String, ◌=ₛ◌, eq_iff, true, false, Option,
  none, some, List, [], ◌∷◌, ◌++◌, length, length-append, leb, if◌then◌else◌, if_intro, Bool-cases,
  arith,
}
use tripwire_launch_auditor.RpcBudget.ResponseCache.{
  ResponseCache, lookup, is_some, has, get, drop_oldest, make_room, set,
}

module _ {ℓ} {V : Type ℓ} where
  abbrev pub IsWithin : ResponseCache V → Type 0
  IsWithin c = length c.entries ≤ max c.max_entries 1

  -- The key of the entry that goes first.
  abbrev pub IsOldest : String → List (String × V) → Type 0
  IsOldest j [] = ⊥
  IsOldest j (e ∷ es) = e.0 ≡ j

  lookup-new :
      (k : String) (v : V) (es : List (String × V))
      → lookup k es ≡ none
      → lookup k (es ++ (k, v) ∷ []) ≡ some v
  unfolding lookup
  lookup-new k v [] h = let same : (k =ₛ k) ≡ true = (eq_iff k k).1 refl in rw same refl
  lookup-new k v (e ∷ es) h = elim (Bool-cases (e.0 =ₛ k)) [
    | inl q ↦ let bad : some e.1 ≡ none = rw q at h in cc
    | inr q ↦ rw q (lookup-new k v es (rw q at h))
  ]

  lookup-others :
      (j k : String) (v : V) (es : List (String × V))
      → j ≢ k
      → lookup j (es ++ (k, v) ∷ []) ≡ lookup j es
  unfolding lookup
  lookup-others j k v [] d = elim (Bool-cases (k =ₛ j)) [
    | inl q ↦ let bad : k ≡ j = (eq_iff k j).0 q in absurd (d (sym bad))
    | inr q ↦ rw q refl
  ]
  lookup-others j k v (e ∷ es) d = elim (Bool-cases (e.0 =ₛ j)) [
    | inl q ↦ rw q refl
    | inr q ↦ rw q (lookup-others j k v es d)
  ]

  lookup-drop_oldest :
      (j : String) (es : List (String × V))
      → (lookup j (drop_oldest es) ≡ lookup j es) ⊎ IsOldest j es
  unfolding lookup drop_oldest
  lookup-drop_oldest j [] = inl refl
  lookup-drop_oldest j (e ∷ es) = elim (Bool-cases (e.0 =ₛ j)) [
    | inl q ↦ inr ((eq_iff e.0 j).0 q)
    | inr q ↦ inl (rw q refl)
  ]

  lookup-none :
      (k : String) (es : List (String × V)) → lookup k es ≡ none → lookup k (drop_oldest es) ≡ none
  unfolding lookup drop_oldest
  lookup-none k [] h = refl
  lookup-none k (e ∷ es) h = elim (Bool-cases (e.0 =ₛ k)) [
    | inl q ↦ let bad : some e.1 ≡ none = rw q at h in cc
    | inr q ↦ rw q at h
  ]

  make_room_lem :
      (c : ResponseCache V) → IsWithin c → length (make_room c) + 1 ≤ max c.max_entries 1
  unfolding make_room drop_oldest
  make_room_lem c h = by_entries c.entries h
    where
      by_entries :
          (es : List (String × V))
          → length es ≤ max c.max_entries 1
          → length (if leb c.max_entries (length es) then drop_oldest es else es) + 1
            ≤ max c.max_entries 1
      by_entries [] k = ground arith
      by_entries (e ∷ es) k = ground (arith, k)

  -- What a store of a new key does, with the value of an old key kept.
  abbrev pub Stores : ResponseCache V → String → V → ResponseCache V → Type ℓ
  Stores c k v d =
      IsWithin d
      × ((j : String) → j ≢ k → ((get d j).0 ≡ (get c j).0) ⊎ IsOldest j c.entries)
      × (((get c k).0 ≡ none) → (get d k).0 ≡ some v)
      × ((old : V) → (get c k).0 ≡ some old → (get d k).0 ≡ some old)

  stored :
      (c : ResponseCache V) (k : String) (v : V)
      → IsWithin c
      → lookup k c.entries ≡ none
      → Stores c k v (record c { entries = make_room c ++ (k, v) ∷ [] })
  unfolding get make_room
  stored c k v h n = (
    omega (arith, make_room_lem c h, length-append (make_room c) ((k, v) ∷ [])),
    λ j d. others j d,
    λ e. lookup-new k v (make_room c) absent,
    λ old e. cc,
  )
    where
      absent : lookup k (make_room c) ≡ none
      absent =
          if_intro (λ es. lookup k es ≡ none) (leb c.max_entries (length c.entries))
            (drop_oldest c.entries) c.entries (λ q. lookup-none k c.entries n) (λ q. n)

      others :
          (j : String)
          → j ≢ k
          → (lookup j (make_room c ++ (k, v) ∷ []) ≡ lookup j c.entries) ⊎ IsOldest j c.entries
      others j d =
          if_intro
            (λ es. (lookup j (es ++ (k, v) ∷ []) ≡ lookup j c.entries) ⊎ IsOldest j c.entries)
            (leb c.max_entries (length c.entries)) (drop_oldest c.entries) c.entries
            (λ q. elim (lookup-drop_oldest j c.entries) [
              | inl e ↦ inl (lookup-others j k v (drop_oldest c.entries) d ∙ e)
              | inr o ↦ inr o
            ])
            (λ q. inl (lookup-others j k v c.entries d))

  -- A store keeps the cache within its limit, or one entry where the limit is 0; the key then has the
  -- new value, or the one that it had before, and of the other keys only the oldest may be gone.
  pub set-Stores :
      (c : ResponseCache V) (k : String) (v : V) → IsWithin c → Stores c k v (set c k v)
  unfolding set has is_some get
  set-Stores c k v h =
      if_intro (Stores c k v) (has c k) c (record c { entries = make_room c ++ (k, v) ∷ [] })
        (λ q. (h, λ j d. inl refl, λ n. missing n q, λ w e. e))
        (λ q. stored c k v h (absent (lookup k c.entries) q))
    where
      missing :
          lookup k c.entries ≡ none
          → is_some (lookup k c.entries) ≡ true
          → lookup k c.entries ≡ some v
      missing n q = let bad : false ≡ true = rw n at q in cc

      absent : (o : Option V) → is_some o ≡ false → o ≡ none
      absent none q = refl
      absent (some w) q = cc
