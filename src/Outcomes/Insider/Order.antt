-- ===== src/Outcomes/Insider/Order.antt =====
-- The order of the chain, of transfers that are at places of their own.
use tripwire_launch_auditor.Prelude.{
  ◌≡◌, ◌↔◌, ◌⊎◌, inl, inr, refl, true, false, ◌||◌, List, [], ◌∷◌, All, All-map, if_intro, arith,
  Bool-cases, subst, sym,
}
use tripwire_launch_auditor.Outcomes.Insider.{
  Transfer, seen_before, is_empty, collect, comes_first, insert, in_order,
}
use tripwire_launch_auditor.Outcomes.Insider.Events.{
  Before, IsAscending, Among, IsChainOrder, Differ, AllDiffer, collect_iff, collect-unseen,
  collect-passed, collect-empty, collect-kept,
}

unseen-Differ :
    (x e : Transfer) (seen : List Transfer) → seen_before e (x ∷ seen) ≡ false → Differ x e
unfolding seen_before
unseen-Differ x e seen h = ground (arith, h)

collect-AllDiffer : (seen logs : List Transfer) → AllDiffer (collect seen logs)
unfolding collect
collect-AllDiffer seen [] = tt
collect-AllDiffer seen (x ∷ xs) = elim (Bool-cases (seen_before x seen)) [
  | inl q ↦ subst AllDiffer (sym (collect-passed seen xs x q)) (collect-AllDiffer seen xs)
  | inr q ↦ elim (Bool-cases (is_empty x.sender || is_empty x.recipient)) [
    | inl p ↦ subst AllDiffer (sym (collect-empty seen xs x q p)) (collect-AllDiffer (x ∷ seen) xs)
    | inr p ↦ subst AllDiffer (sym (collect-kept seen xs x q p)) (
      All-map (collect (x ∷ seen) xs) (λ e h. unseen-Differ x e seen h)
          (collect-unseen (x ∷ seen) xs),
      collect-AllDiffer (x ∷ seen) xs,
    )
  ]
]

Before-trans : (a b c : Transfer) → Before a b → Before b c → Before a c
Before-trans a b c h k = ground (arith, h, k)

first-Before : (a b : Transfer) → Differ a b → comes_first a b ≡ true → Before a b
unfolding comes_first
first-Before a b d h = ground (arith, d, h)

later-Before : (a b : Transfer) → Differ a b → comes_first a b ≡ false → Before b a
unfolding comes_first
later-Before a b d h = ground (arith, d, h)

module _ (P : Transfer → Type 0) where
  All-insert : (e : Transfer) (xs : List Transfer) → P e → All P xs → All P (insert e xs)
  unfolding insert
  All-insert e [] p h = (p, tt)
  All-insert e (x ∷ xs) p (q, h) =
      if_intro (All P) (comes_first e x) (e ∷ x ∷ xs) (x ∷ insert e xs) (λ b. (p, (q, h)))
        (λ b. (q, All-insert e xs p h))

  All-in_order : (xs : List Transfer) → All P xs → All P (in_order xs)
  unfolding in_order
  All-in_order [] h = tt
  All-in_order (x ∷ xs) (p, h) = All-insert x (in_order xs) p (All-in_order xs h)

insert-IsAscending :
    (e : Transfer) (xs : List Transfer)
    → All (Differ e) xs
    → IsAscending xs
    → IsAscending (insert e xs)
unfolding insert
insert-IsAscending e [] d h = (tt, tt)
insert-IsAscending e (x ∷ xs) (d, ds) (lo, h) =
    if_intro IsAscending (comes_first e x) (e ∷ x ∷ xs) (x ∷ insert e xs)
      (λ b.
        let first = first-Before e x d b in
        ((first, All-map xs (λ y k. Before-trans e x y first k) lo), (lo, h)))
      (λ b. (All-insert (Before x) e xs (later-Before e x d b) lo, insert-IsAscending e xs ds h))

in_order-IsAscending : (xs : List Transfer) → AllDiffer xs → IsAscending (in_order xs)
unfolding in_order
in_order-IsAscending [] d = tt
in_order-IsAscending (x ∷ xs) (d, ds) =
    insert-IsAscending x (in_order xs) (All-in_order (Differ x) xs d) (in_order-IsAscending xs ds)

Among-insert :
    (e x : Transfer) (xs : List Transfer) → Among e (insert x xs) ↔ ((x ≡ e) ⊎ Among e xs)
unfolding insert
Among-insert e x [] = (λ h. h, λ h. h)
Among-insert e x (y ∷ xs) =
    let (f, g) = Among-insert e x xs in
    if_intro (λ l. Among e l ↔ ((x ≡ e) ⊎ ((y ≡ e) ⊎ Among e xs))) (comes_first x y) (x ∷ y ∷ xs)
      (y ∷ insert x xs) (λ b. (λ h. h, λ h. h))
      (λ b. (
        λ h. elim h [
          | inl q ↦ inr (inl q)
          | inr m ↦ elim (f m) [ inl q ↦ inl q | inr n ↦ inr (inr n) ]
        ],
        λ h. elim h [
          | inl q ↦ inr (g (inl q))
          | inr (inl q) ↦ inl q
          | inr (inr n) ↦ inr (g (inr n))
        ],
      ))

Among-in_order : (e : Transfer) (xs : List Transfer) → Among e (in_order xs) ↔ Among e xs
unfolding in_order
Among-in_order e [] = (λ h. h, λ h. h)
Among-in_order e (x ∷ xs) =
    let (f, g) = Among-in_order e xs in
    let (h, k) = Among-insert e x (in_order xs) in
    (
      λ m. elim (h m) [ inl q ↦ inl q | inr n ↦ inr (f n) ],
      λ m. elim m [ inl q ↦ k (inl q) | inr n ↦ k (inr (g n)) ],
    )

unseen_at_start : (e : Transfer) → seen_before e [] ≡ false
unfolding seen_before
unseen_at_start e = refl

pub events-IsChainOrder : (logs : List Transfer) → IsChainOrder logs (in_order (collect [] logs))
events-IsChainOrder logs = (
  in_order-IsAscending (collect [] logs) (collect-AllDiffer [] logs),
  λ e.
      let (f, g) = Among-in_order e (collect [] logs) in
      let (h, k) = collect_iff [] logs e in
      (λ m. let (a, b, c) = h (f m) in (a, b), λ (a, b). g (k (a, b, unseen_at_start e))),
)
