-- ===== src/Watcher/PrimaryPool/First.antt =====
-- The pool that is chosen ranks first.
use tripwire_launch_auditor.Prelude.{
  ℕ, ◌+◌, ◌*◌, ◌≤◌, ◌<◌, ◌≡◌, ◌⊎◌, refl, Bool, true, false, Option, none, some, List, [], ◌∷◌,
  if◌then◌else◌, arith, if_intro, inl, inr, All, sym, subst, All-map,
}
use tripwire_launch_auditor.Hex.{Hex}
use tripwire_launch_auditor.Watcher.Retry.{Settled, value}
use tripwire_launch_auditor.Watcher.PrimaryPool.{
  PoolCandidate, PoolCreation, PrimaryPoolPick, activity_code, ranks_before, insert_candidate,
  rank_candidates, candidates_of, probed, clamp, pick_from, pick_primary_v4_pool,
}

-- The three tests as a number.
abbrev pub class : PoolCandidate → ℕ
class c =
    4 * (if c.quote_is_known then 0 else 1)
    + 2 * (if c.fee_suspect then 1 else 0)
    + (if c.standard_fee then 0 else 1)

-- The first candidate has the smaller class, or the same one and the larger activity, or both the
-- same and no later block.
abbrev pub Before : PoolCandidate → PoolCandidate → Type 0
Before a b =
    (class a < class b)
    ⊎ ((class a ≡ class b)
        × ((activity_code b.activity < activity_code a.activity)
            ⊎ ((activity_code a.activity ≡ activity_code b.activity)
                × (a.init_block ≤ b.init_block))))

Before-there : (a b : PoolCandidate) → ranks_before a b ≡ true → Before a b
unfolding ranks_before
Before-there a b h = ground arith

Before-back : (a b : PoolCandidate) → Before a b → ranks_before a b ≡ true
unfolding ranks_before
Before-back a b h = ground arith

Before-trans : (a b c : PoolCandidate) → Before a b → Before b c → Before a c
Before-trans a b c h k = ground (arith, h, k)

ranks_before_trans :
    (a b c : PoolCandidate)
    → ranks_before a b ≡ true
    → ranks_before b c ≡ true
    → ranks_before a c ≡ true
ranks_before_trans a b c h k =
    Before-back a c (Before-trans a b c (Before-there a b h) (Before-there b c k))

Before-total : (a b : PoolCandidate) → Before a b ⊎ Before b a
Before-total a b = ground arith

ranks_before-total : (a b : PoolCandidate) → ranks_before a b ≡ false → ranks_before b a ≡ true
ranks_before-total a b h = elim (Before-total a b) [
  | inl k ↦ let t = Before-back a b k in cc
  | inr k ↦ Before-back b a k
]

ranks_before_refl : (a : PoolCandidate) → ranks_before a a ≡ true
ranks_before_refl a = Before-back a a (inr (refl, inr (refl, omega arith)))

abbrev pub IsAmong : PoolCandidate → List PoolCandidate → Type 0
IsAmong c [] = ⊥
IsAmong c (d ∷ ds) = (c ≡ d) ⊎ IsAmong c ds

-- A candidate of the list that ranks before all of them, or none of an empty list.
abbrev pub IsFirst : Option PoolCandidate → List PoolCandidate → Type 0
IsFirst none cands = cands ≡ []
IsFirst (some c) cands = IsAmong c cands × All (λ d. ranks_before c d ≡ true) cands

head_of : List PoolCandidate → Option PoolCandidate
head_of [] = none
head_of (c ∷ cs) = some c

insert-IsFirst :
    (c : PoolCandidate) (ds cands : List PoolCandidate)
    → IsFirst (head_of ds) cands
    → IsFirst (head_of (insert_candidate c ds)) (c ∷ cands)
unfolding insert_candidate head_of
insert-IsFirst c [] cands h =
    (inl refl, (ranks_before_refl c, subst (All (λ d. ranks_before c d ≡ true)) (sym h) tt))
insert-IsFirst c (d ∷ ds) cands (among, first) =
    if_intro (λ l. IsFirst (head_of l) (c ∷ cands)) (ranks_before c d) (c ∷ d ∷ ds)
      (d ∷ insert_candidate c ds)
      (λ q. (
        inl refl,
        (ranks_before_refl c, All-map cands (λ e k. ranks_before_trans c d e q k) first),
      ))
      (λ q. (inr among, (ranks_before-total c d q, first)))

rank_candidates-IsFirst :
    (cands : List PoolCandidate) → IsFirst (head_of (rank_candidates cands)) cands
unfolding rank_candidates head_of
rank_candidates-IsFirst [] = refl
rank_candidates-IsFirst (c ∷ cs) =
    insert-IsFirst c (rank_candidates cs) cs (rank_candidates-IsFirst cs)

-- Such a candidate, by the three tests, the activity and the block themselves.
abbrev pub IsPrimary : Option PoolCandidate → List PoolCandidate → Type 0
IsPrimary none cands = cands ≡ []
IsPrimary (some c) cands = IsAmong c cands × All (λ d. Before c d) cands

primary :
    (o : Option PoolCandidate) (cands : List PoolCandidate) → IsFirst o cands → IsPrimary o cands
primary none cands h = h
primary (some c) cands (among, first) = (among, All-map cands (λ d k. Before-there c d k) first)

pick-chosen :
    (current : Option Hex) (ranked : List PoolCandidate)
    → (pick_from current ranked).chosen ≡ head_of ranked
unfolding pick_from head_of
pick-chosen current [] = refl
pick-chosen current (c ∷ cs) = refl

-- Where the scan answers, up to the head where that is known, the pool that is chosen is one of the
-- candidates that were found, and no other candidate is better: in being paired with a known quote
-- asset, then in a fee below a tenth, then in a standard fee, then in the number of swaps that was
-- noted, then in an earlier block. No pool is chosen exactly where none was found.
pub pick_primary_v4_pool-IsPrimary :
    (known : Hex → Bool) (creations : ℕ → ℕ → Settled (List (Option PoolCreation)))
    (swaps : Hex → ℕ → ℕ → Settled ℕ) (head : Option ℕ) (current : Option Hex)
    (scan_from scan_to activity_from activity_to : ℕ) (logs : List (Option PoolCreation))
    → creations scan_from (clamp head scan_to) ≡ value logs
    → (p : PrimaryPoolPick) × (pick_primary_v4_pool known creations swaps head current scan_from
          scan_to activity_from activity_to
        ≡ value p)
      × IsPrimary p.chosen
          (probed swaps activity_from (clamp head activity_to) (candidates_of known logs []))
unfolding pick_primary_v4_pool
pick_primary_v4_pool-IsPrimary known creations swaps head current scan_from scan_to activity_from
      activity_to logs h =
    let cands = probed swaps activity_from (clamp head activity_to) (candidates_of known logs []) in
    (
      pick_from current (rank_candidates cands),
      ground (arith, h),
      primary _ cands (
          subst (λ o. IsFirst o cands) (sym (pick-chosen current (rank_candidates cands)))
            (rank_candidates-IsFirst cands)),
    )
