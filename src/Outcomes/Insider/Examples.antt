-- ===== src/Outcomes/Insider/Examples.antt =====
-- A cluster of one wallet that sells to the pool.
use tripwire_launch_auditor.Prelude.{
  ℕ, ◌+◌, ◌*◌, ◌≤◌, ◌<◌, ◌≡◌, ◌↔◌, Bool, true, Option, List, [], ◌∷◌, ◌++◌, arith,
}
use tripwire_launch_auditor.Hex.{Hex}
use tripwire_launch_auditor.Outcomes.Insider.{Transfer, Evidence, resolved, resolve_insider_exit}
use tripwire_launch_auditor.Outcomes.Insider.Events.{IsChainOrder}
use tripwire_launch_auditor.Outcomes.Insider.Peak.{
  IsPeak, bought_from, sold_to, resolve_insider_exit-IsPeak,
}

abbrev wallet : Hex
wallet = 97 ∷ []

abbrev pool : Hex
pool = 98 ∷ []

abbrev buys : List Transfer
buys = record { block = 5; log_index = 1; sender = pool; recipient = wallet; value = 100 } ∷ []

abbrev sells : List Transfer
sells = record { block = 9; log_index = 0; sender = wallet; recipient = pool; value = 100 } ∷ []

resolve_insider_exit-IsPeak_example :
    let cluster = wallet ∷ [] in
    (events : List Transfer) × (peak : ℕ) × (b : Bool) × (evidence : Option Evidence) × IsChainOrder
      (sells ++ buys)
      events
    × IsPeak cluster peak events
    × (resolve_insider_exit cluster (pool ∷ []) sells buys ≡ resolved b evidence)
    × ((b ≡ true) ↔ (
        (0 < peak)
        × (2 * bought_from cluster (pool ∷ []) events + peak
            ≤ 2 * sold_to cluster (pool ∷ []) events)))
resolve_insider_exit-IsPeak_example =
    resolve_insider_exit-IsPeak wallet [] (pool ∷ []) sells buys (omega arith) (omega arith)
