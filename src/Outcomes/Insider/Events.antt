-- ===== src/Outcomes/Insider/Events.antt =====
-- The transfers that are replayed: each log once, in the order of the chain.
use tripwire_launch_auditor.Prelude.{
  ◌<◌, ◌≡◌, ◌≢◌, ◌↔◌, ◌⊎◌, inl, inr, refl, Bool, true, false, ◌&&◌, ◌||◌, Option, none, some, List,
  [], ◌∷◌, All, ◌==◌, if◌then◌else◌, arith, Bool-cases, ap, sym, ◌∙◌, subst,
}
use tripwire_launch_auditor.Hex.{Hex}
use tripwire_launch_auditor.Outcomes.Insider.{Transfer, seen_before, is_empty, collect}

-- The first log of a block and an index.
abbrev pub same_place : Transfer → Transfer → Bool
same_place x e = (x.block == e.block) && (x.log_index == e.log_index)

unfoldable pub first_at : Transfer → List Transfer → Option Transfer
first_at e [] = none
first_at e (x ∷ xs) = if same_place x e then some x else first_at e xs

-- Both addresses could be read.
abbrev pub HasAddresses : Transfer → Type 0
HasAddresses e = (e.sender ≢ []) × (e.recipient ≢ [])

abbrev pub Before : Transfer → Transfer → Type 0
Before a b = (a.block < b.block) ⊎ ((a.block ≡ b.block) × (a.log_index < b.log_index))

-- Every transfer is before those behind it, so that no place comes twice.
abbrev pub IsAscending : List Transfer → Type 0
IsAscending [] = Unit
IsAscending (e ∷ es) = All (Before e) es × IsAscending es

abbrev pub Among : Transfer → List Transfer → Type 0
Among e [] = ⊥
Among e (x ∷ xs) = (x ≡ e) ⊎ Among e xs

-- The transfers are the logs that are the first ones of their place and have both addresses.
abbrev pub IsChainOrder : List Transfer → List Transfer → Type 0
IsChainOrder logs es =
    IsAscending es × ((e : Transfer) → Among e es ↔ ((first_at e logs ≡ some e) × HasAddresses e))

is_empty_iff : (h : Hex) → (is_empty h ≡ false) ↔ (h ≢ [])
unfolding is_empty
is_empty_iff [] = (λ e. cc, λ n. absurd (n refl))
is_empty_iff (c ∷ h) = (λ e f. cc, λ n. refl)

seen-same :
    (x e : Transfer) (seen : List Transfer)
    → same_place x e ≡ true
    → seen_before x seen ≡ seen_before e seen
unfolding seen_before
seen-same x e [] h = refl
seen-same x e (y ∷ seen) h = ground (arith, h, seen-same x e seen h)

pub unseen :
    (e x : Transfer) (seen : List Transfer)
    → same_place x e ≡ true
    → seen_before e (x ∷ seen) ≡ true
unfolding seen_before
unseen e x seen h = ground (arith, h)

seen-other :
    (e x : Transfer) (seen : List Transfer)
    → same_place x e ≡ false
    → seen_before e (x ∷ seen) ≡ seen_before e seen
unfolding seen_before
seen-other e x seen h = ground (arith, h)

All-among :
    (P : Transfer → Type 0) (es : List Transfer) → ((e : Transfer) → Among e es → P e) → All P es
All-among P [] h = tt
All-among P (e ∷ es) h = (h e (inl refl), All-among P es (λ x m. h x (inr m)))

-- What the loop collects, behind the places that it has seen.
abbrev Collects : List Transfer → List Transfer → Transfer → Type 0
Collects seen logs e = (first_at e logs ≡ some e) × HasAddresses e × (seen_before e seen ≡ false)

same_self : (e : Transfer) → same_place e e ≡ true
same_self e = ground arith

first-same :
    (x e : Transfer) (xs : List Transfer) → same_place x e ≡ true → first_at e (x ∷ xs) ≡ some x
unfolding first_at
first-same x e xs h = rw h refl

first-other :
    (x e : Transfer) (xs : List Transfer)
    → same_place x e ≡ false
    → first_at e (x ∷ xs) ≡ first_at e xs
unfolding first_at
first-other x e xs h = rw h refl

-- What is seen is passed over.
passed_iff :
    (seen xs : List Transfer) (x e : Transfer)
    → seen_before x seen ≡ true
    → Collects seen xs e ↔ Collects seen (x ∷ xs) e
passed_iff seen xs x e q = elim (Bool-cases (same_place x e)) [
  | inl m ↦
      let k = sym (seen-same x e seen m) ∙ q in
      (λ (a, b, c). absurd (ground (arith, c, k)), λ (a, b, c). absurd (ground (arith, c, k)))
  | inr m ↦
      let o = first-other x e xs m in (λ (a, b, c). (o ∙ a, b, c), λ (a, b, c). (sym o ∙ a, b, c))
]

-- A log at another place does not matter.
other_iff :
    (seen xs : List Transfer) (x e : Transfer)
    → same_place x e ≡ false
    → Collects (x ∷ seen) xs e ↔ Collects seen (x ∷ xs) e
other_iff seen xs x e m =
    let o = first-other x e xs m in
    let u = seen-other e x seen m in
    (λ (a, b, c). (o ∙ a, b, sym u ∙ c), λ (a, b, c). (sym o ∙ a, b, u ∙ c))

some_same : (x e : Transfer) → some x ≡ some e → x ≡ e
some_same x e h = cc

empty_iff :
    (seen xs : List Transfer) (x e : Transfer)
    → (is_empty x.sender || is_empty x.recipient) ≡ true
    → Collects (x ∷ seen) xs e ↔ Collects seen (x ∷ xs) e
empty_iff seen xs x e p = elim (Bool-cases (same_place x e)) [
  | inl m ↦
      let k = unseen e x seen m in
      (
        λ (a, b, c). absurd (ground (arith, c, k)),
        λ (a, (b, d), c).
            let same = some_same x e (sym (first-same x e xs m) ∙ a) in
            let l : is_empty x.sender ≡ false =
              ap (λ (y : Transfer). is_empty y.sender) same ∙ (is_empty_iff e.sender).1 b in
            let r : is_empty x.recipient ≡ false =
              ap (λ (y : Transfer). is_empty y.recipient) same ∙ (is_empty_iff e.recipient).1 d in
            absurd (ground (arith, l, r, p)),
      )
  | inr m ↦ other_iff seen xs x e m
]

kept_iff :
    (seen xs : List Transfer) (x e : Transfer)
    → seen_before x seen ≡ false
    → (is_empty x.sender || is_empty x.recipient) ≡ false
    → ((x ≡ e) ⊎ Collects (x ∷ seen) xs e) ↔ Collects seen (x ∷ xs) e
kept_iff seen xs x e q p = elim (Bool-cases (same_place x e)) [
  | inl m ↦
      let k = unseen e x seen m in
      (
        λ h. elim h [
          | inl same ↦
              let has : HasAddresses x = (
                (is_empty_iff x.sender).0 (ground (arith, p)),
                (is_empty_iff x.recipient).0 (ground (arith, p)),
              ) in
              (
                first-same x e xs m ∙ ap some same,
                subst HasAddresses same has,
                sym (ap (λ y. seen_before y seen) same) ∙ q,
              )
          | inr (a, b, c) ↦ absurd (ground (arith, c, k))
        ],
        λ (a, b, c). inl (some_same x e (sym (first-same x e xs m) ∙ a)),
      )
  | inr m ↦
      let (f, g) = other_iff seen xs x e m in
      (
        λ h. elim h [
          | inl same ↦
              let k : same_place x e ≡ true = sym (ap (same_place x) same) ∙ same_self x in
              absurd (ground (arith, m, k))
          | inr c ↦ f c
        ],
        λ c. inr (g c),
      )
]

pub collect-passed :
    (seen xs : List Transfer) (x : Transfer)
    → seen_before x seen ≡ true
    → collect seen (x ∷ xs) ≡ collect seen xs
unfolding collect
collect-passed seen xs x q = rw q refl

pub collect-empty :
    (seen xs : List Transfer) (x : Transfer)
    → seen_before x seen ≡ false
    → (is_empty x.sender || is_empty x.recipient) ≡ true
    → collect seen (x ∷ xs) ≡ collect (x ∷ seen) xs
unfolding collect
collect-empty seen xs x q p = rw (q, p) refl

pub collect-kept :
    (seen xs : List Transfer) (x : Transfer)
    → seen_before x seen ≡ false
    → (is_empty x.sender || is_empty x.recipient) ≡ false
    → collect seen (x ∷ xs) ≡ x ∷ collect (x ∷ seen) xs
unfolding collect
collect-kept seen xs x q p = rw (q, p) refl

pub collect_iff :
    (seen logs : List Transfer) (e : Transfer) → Among e (collect seen logs) ↔ Collects seen logs e
unfolding collect first_at
collect_iff seen [] e = (λ h. absurd h, λ (h, a, s). cc)
collect_iff seen (x ∷ xs) e =
    let (f, g) = collect_iff seen xs e in
    let (f', g') = collect_iff (x ∷ seen) xs e in
    elim (Bool-cases (seen_before x seen)) [
      | inl q ↦
          let (h, k) = passed_iff seen xs x e q in
          subst (λ l. Among e l ↔ Collects seen (x ∷ xs) e) (sym (collect-passed seen xs x q))
            (λ m. h (f m), λ c. g (k c))
      | inr q ↦ elim (Bool-cases (is_empty x.sender || is_empty x.recipient)) [
        | inl p ↦
            let (h, k) = empty_iff seen xs x e p in
            subst (λ l. Among e l ↔ Collects seen (x ∷ xs) e) (sym (collect-empty seen xs x q p))
              (λ m. h (f' m), λ c. g' (k c))
        | inr p ↦
            let (h, k) = kept_iff seen xs x e q p in
            subst (λ l. Among e l ↔ Collects seen (x ∷ xs) e) (sym (collect-kept seen xs x q p))
              (
                λ m. h (elim m [ inl n ↦ inl n | inr n ↦ inr (f' n) ]),
                λ c. elim (k c) [ inl n ↦ inl n | inr n ↦ inr (g' n) ],
              )
      ]
    ]

-- Two transfers are at two places.
abbrev pub Differ : Transfer → Transfer → Type 0
Differ a b = same_place a b ≡ false

abbrev pub AllDiffer : List Transfer → Type 0
AllDiffer [] = Unit
AllDiffer (e ∷ es) = All (Differ e) es × AllDiffer es

pub collect-unseen :
    (seen logs : List Transfer) → All (λ e. seen_before e seen ≡ false) (collect seen logs)
collect-unseen seen logs =
    All-among _ (collect seen logs) (λ e m. ((collect_iff seen logs e).0 m).2)
