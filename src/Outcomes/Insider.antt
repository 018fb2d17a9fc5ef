-- ===== src/Outcomes/Insider.antt =====
-- apps/worker/src/outcomes/resolve-insider.ts: whether the creator's cluster sold out. The logs of the
-- two queries are arguments; addresses are lowered texts, and a transfer whose topics do not give two
-- addresses has an empty one. Signed totals are kept as two sums, what came in and what went out.
pub mod Events
pub mod Order
pub mod Peak
pub mod Examples
use tripwire_launch_auditor.Prelude.{
  ℕ, ◌+◌, ◌-◌, ◌*◌, Bool, true, false, ◌&&◌, ◌||◌, Option, none, some, List, [], ◌∷◌, ◌++◌, length,
  ltb, leb, ◌==◌, if◌then◌else◌,
}
use tripwire_launch_auditor.Hex.{Hex, hex_eq, to_lower_case}

pub record Transfer : Type 0 where
  pub block : ℕ
  pub log_index : ℕ
  pub sender : Hex
  pub recipient : Hex
  pub value : ℕ

pub record Evidence : Type 0 where
  pub peak_holdings : ℕ
  pub sold_to_pool : ℕ
  pub bought_from_pool : ℕ
  pub transfers_replayed : ℕ

pub data Resolution : Type 0 where
  unresolvable : Resolution
  resolved : Bool → Option Evidence → Resolution

abbrev pub max_insider_logs : ℕ
max_insider_logs = 30_000

pub member : Hex → List Hex → Bool
member a [] = false
member a (x ∷ xs) = if hex_eq x a then true else member a xs

-- The key of a log, block and index.
pub seen_before : Transfer → List Transfer → Bool
seen_before e [] = false
seen_before e (x ∷ xs) =
    if (x.block == e.block) && (x.log_index == e.log_index) then true else seen_before e xs

pub is_empty : Hex → Bool
is_empty [] = true
is_empty (c ∷ h) = false

-- The loop that collects the events: the first log of a key counts.
pub collect : List Transfer → List Transfer → List Transfer
unfolding seen_before is_empty
collect seen [] = []
collect seen (e ∷ es) =
    let rest = collect (e ∷ seen) es in
    if seen_before e seen
    then collect seen es
    else if is_empty e.sender || is_empty e.recipient
    then rest
    else e ∷ rest

pub comes_first : Transfer → Transfer → Bool
comes_first a b = if a.block == b.block then leb a.log_index b.log_index else ltb a.block b.block

pub insert : Transfer → List Transfer → List Transfer
unfolding comes_first
insert e [] = e ∷ []
insert e (x ∷ xs) = if comes_first e x then e ∷ x ∷ xs else x ∷ insert e xs

pub in_order : List Transfer → List Transfer
unfolding insert
in_order [] = []
in_order (e ∷ es) = insert e (in_order es)

-- The variables of the replay.
pub record Replay : Type 0 where
  pub in_total : ℕ
  pub out_total : ℕ
  pub peak : ℕ
  pub sold : ℕ
  pub bought : ℕ

add_if : Bool → ℕ → ℕ → ℕ
add_if b v n = if b then n + v else n

-- `if (agg > peak) peak = agg`
raised : ℕ → ℕ → ℕ → ℕ
raised in_total out_total peak =
    if ltb (out_total + peak) in_total then in_total - out_total else peak

module _ (cluster pool_sinks : List Hex) where
  pub replay_one : Transfer → Replay → Replay
  unfolding add_if raised member
  replay_one e r =
      let from_cluster = member e.sender cluster in
      let to_cluster = member e.recipient cluster in
      let out_total = add_if from_cluster e.value r.out_total in
      let in_total = add_if to_cluster e.value r.in_total in
      record {
        in_total = in_total;
        out_total = out_total;
        peak = raised in_total out_total r.peak;
        sold = add_if (from_cluster && member e.recipient pool_sinks) e.value r.sold;
        bought = add_if (to_cluster && member e.sender pool_sinks) e.value r.bought;
      }

  pub replay : List Transfer → Replay → Replay
  unfolding replay_one
  replay [] r = r
  replay (e ∷ es) r = replay es (replay_one e r)

abbrev pub at_launch : Replay
at_launch = record { in_total = 0; out_total = 0; peak = 0; sold = 0; bought = 0 }

-- `netSold * 2n >= peak`
verdict : Replay → ℕ → Resolution
verdict r n =
    if r.peak == 0
    then resolved false none
    else resolved (leb (2 * r.bought + r.peak) (2 * r.sold)) (
        some (record {
          peak_holdings = r.peak;
          sold_to_pool = r.sold;
          bought_from_pool = r.bought;
          transfers_replayed = n;
        }))

pub resolve_insider_exit : List Hex → List Hex → List Transfer → List Transfer → Resolution
unfolding replay verdict collect in_order
resolve_insider_exit [] pool_sinks out_logs in_logs = unresolvable
resolve_insider_exit (w ∷ cluster) pool_sinks out_logs in_logs =
    let events = in_order (collect [] (out_logs ++ in_logs)) in
    if leb max_insider_logs (length out_logs) || leb max_insider_logs (length in_logs)
    then unresolvable
    else verdict (replay (w ∷ cluster) pool_sinks events at_launch) (length events)
