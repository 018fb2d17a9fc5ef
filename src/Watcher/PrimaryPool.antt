-- ===== src/Watcher/PrimaryPool.antt =====
-- apps/worker/src/watcher/primary-pool.ts: the choice of a token's main pool. The decoder's results
-- and the two queries of the node are arguments: `creations` gives what the decoder finds in the logs
-- of a range, and `swaps` the number of a pool's swaps in a range, or a failure. Candidates have
-- different ids, so that an activity that is noted on a candidate is found by its id. The text of the
-- reason is left out.
pub mod First
pub mod Examples
use tripwire_launch_auditor.Prelude.{
  ℕ, zero, suc, ◌+◌, Bool, true, false, not, ◌&&◌, ◌||◌, Option, none, some, List, [], ◌∷◌, ◌++◌,
  map, length, take, leb, ltb, ◌==◌, if◌then◌else◌,
}
use tripwire_launch_auditor.Hex.{Hex, hex_eq, to_lower_case}
use tripwire_launch_auditor.Watcher.Retry.{Settled, value, failure}
use tripwire_launch_auditor.Watcher.Cluster.{includes_hex}

abbrev pub fee_suspect_threshold : ℕ
fee_suspect_threshold = 100_000

abbrev standard_fees : List ℕ
standard_fees = 100 ∷ 200 ∷ 300 ∷ 400 ∷ 500 ∷ 2500 ∷ 3000 ∷ 5000 ∷ 10000 ∷ 20000 ∷ 30000 ∷ []

pub is_fee_suspect : Option ℕ → Bool
is_fee_suspect none = false
is_fee_suspect (some fee) = leb fee_suspect_threshold fee

includes_fee : ℕ → List ℕ → Bool
includes_fee fee [] = false
includes_fee fee (x ∷ xs) = (x == fee) || includes_fee fee xs

is_standard_fee : Option ℕ → Bool
unfolding includes_fee
is_standard_fee none = false
is_standard_fee (some fee) = includes_fee fee standard_fees

pub record PoolCandidate : Type 0 where
  pub pool_id : Hex
  pub currency0 : Hex
  pub currency1 : Hex
  pub fee : Option ℕ
  pub tick_spacing : Option ℕ
  pub hooks : Option Hex
  pub init_block : ℕ
  pub quote : Option Hex
  pub quote_is_known : Bool
  pub fee_suspect : Bool
  pub standard_fee : Bool
  pub activity : Option ℕ

-- What the decoder finds in a log.
pub record PoolCreation : Type 0 where
  pub pool_id : Option Hex
  pub token0 : Hex
  pub token1 : Hex
  pub fee : Option ℕ
  pub tick_spacing : Option ℕ
  pub hooks : Option Hex
  pub block : ℕ

lowered : Option Hex → Option Hex
lowered none = none
lowered (some h) = some (to_lower_case h)

known_side : (Hex → Bool) → Hex → Hex → Option Hex
known_side known c0 c1 = if known c0 then some c0 else if known c1 then some c1 else none

is_there : Option Hex → Bool
is_there none = false
is_there (some h) = true

-- `annotate`, on the candidate of a log, whose id is given; `known` are the quote assets.
pub annotate : (Hex → Bool) → Hex → PoolCreation → PoolCandidate
unfolding known_side is_there is_standard_fee lowered
annotate known id pc =
    let c0 = to_lower_case pc.token0 in
    let c1 = to_lower_case pc.token1 in
    let quote = known_side known c0 c1 in
    record {
      pool_id = id;
      currency0 = c0;
      currency1 = c1;
      fee = pc.fee;
      tick_spacing = pc.tick_spacing;
      hooks = lowered pc.hooks;
      init_block = pc.block;
      quote = quote;
      quote_is_known = is_there quote;
      fee_suspect = is_fee_suspect pc.fee;
      standard_fee = is_standard_fee pc.fee;
      activity = none;
    }

pub has_id : Hex → List PoolCandidate → Bool
has_id id [] = false
has_id id (c ∷ cs) = hex_eq c.pool_id id || has_id id cs

-- The first log of each id counts.
add_candidate : (Hex → Bool) → PoolCreation → Option Hex → List PoolCandidate → List PoolCandidate
add_candidate known pc none by_id = by_id
add_candidate known pc (some pool_id) by_id =
    let id = to_lower_case pool_id in
    if has_id id by_id then by_id else by_id ++ annotate known id pc ∷ []

pub candidates_of :
    (Hex → Bool) → List (Option PoolCreation) → List PoolCandidate → List PoolCandidate
unfolding add_candidate
candidates_of known [] by_id = by_id
candidates_of known (none ∷ logs) by_id = candidates_of known logs by_id
candidates_of known (some pc ∷ logs) by_id =
    candidates_of known logs (add_candidate known pc pc.pool_id by_id)

-- An activity that was not probed counts as -1; one is added to all.
pub activity_code : Option ℕ → ℕ
activity_code none = 0
activity_code (some n) = suc n

-- The comparator of the sort is not positive.
pub ranks_before : PoolCandidate → PoolCandidate → Bool
ranks_before a b =
    if a.quote_is_known && not b.quote_is_known
    then true
    else if not a.quote_is_known && b.quote_is_known
    then false
    else if a.fee_suspect && not b.fee_suspect
    then false
    else if not a.fee_suspect && b.fee_suspect
    then true
    else if a.standard_fee && not b.standard_fee
    then true
    else if not a.standard_fee && b.standard_fee
    then false
    else if activity_code a.activity == activity_code b.activity
    then leb a.init_block b.init_block
    else ltb (activity_code b.activity) (activity_code a.activity)

pub insert_candidate : PoolCandidate → List PoolCandidate → List PoolCandidate
insert_candidate c [] = c ∷ []
insert_candidate c (d ∷ ds) = if ranks_before c d then c ∷ d ∷ ds else d ∷ insert_candidate c ds

pub rank_candidates : List PoolCandidate → List PoolCandidate
unfolding insert_candidate
rank_candidates [] = []
rank_candidates (c ∷ cs) = insert_candidate c (rank_candidates cs)

contenders : List PoolCandidate → List PoolCandidate
contenders [] = []
contenders (c ∷ cs) =
    if c.quote_is_known && not c.fee_suspect then c ∷ contenders cs else contenders cs

-- `poolActivity`
pub pool_activity : Settled ℕ → ℕ
pool_activity (value n) = n
pool_activity (failure e) = 0

probe : (Hex → ℕ → ℕ → Settled ℕ) → ℕ → ℕ → List Hex → List PoolCandidate → List PoolCandidate
unfolding pool_activity
probe swaps from to ids [] = []
probe swaps from to ids (c ∷ cs) =
    (if includes_hex c.pool_id ids
      then record c { activity = some (pool_activity (swaps c.pool_id from to)) }
      else c)
    ∷ probe swaps from to ids cs

-- The candidates, with the activity of the first four contenders where there are two at least.
pub probed : (Hex → ℕ → ℕ → Settled ℕ) → ℕ → ℕ → List PoolCandidate → List PoolCandidate
unfolding probe contenders
probed swaps from to cands =
    let some_contenders = contenders (rank_candidates cands) in
    if leb 2 (length some_contenders)
    then probe swaps from to (map PoolCandidate.pool_id (take 4 some_contenders)) cands
    else cands

-- A block that is not past the head, where the head is known.
pub clamp : Option ℕ → ℕ → ℕ
clamp none to = to
clamp (some head) to = if ltb head to then head else to

pub record PrimaryPoolPick : Type 0 where
  pub chosen : Option PoolCandidate
  pub is_changed : Bool
  pub candidates : List PoolCandidate

differs : Option Hex → Hex → Bool
differs none id = true
differs (some current) id = not (hex_eq (to_lower_case current) id)

pick_from : Option Hex → List PoolCandidate → PrimaryPoolPick
unfolding differs
pick_from current [] = record { chosen = none; is_changed = false; candidates = [] }
pick_from current (c ∷ cs) = record {
  chosen = some c;
  is_changed = differs current c.pool_id;
  candidates = c ∷ cs;
}

module _ (known : Hex → Bool) (creations : ℕ → ℕ → Settled (List (Option PoolCreation)))
    (swaps : Hex → ℕ → ℕ → Settled ℕ) where
  pub pick_primary_v4_pool : Option ℕ → Option Hex → ℕ → ℕ → ℕ → ℕ → Settled PrimaryPoolPick
  unfolding candidates_of probed pick_from rank_candidates
  pick_primary_v4_pool head current scan_from scan_to activity_from activity_to =
      elim (creations scan_from (clamp head scan_to)) [
        | failure e ↦ failure e
        | value logs ↦ value (
            pick_from current (
              rank_candidates (
                probed swaps activity_from (clamp head activity_to) (candidates_of known logs []))))
      ]
