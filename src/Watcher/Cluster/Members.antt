-- ===== src/Watcher/Cluster/Members.antt =====
-- Who is a member of a cluster, and by which rule.
use tripwire_launch_auditor.Prelude.{
  ◌≡◌, refl, sym, ◌∙◌, inl, inr, Bool, false, not, ◌&&◌, ◌||◌, Option, none, some, List, [], ◌∷◌,
  arith, ap, ap₂, length, drop, ◌-◌, Bool-cases, Option-cases,
}
use tripwire_launch_auditor.Hex.{Hex, hex_eq, hex_eq_iff, to_lower_case}
use tripwire_launch_auditor.Watcher.Retry.{Settled}
use tripwire_launch_auditor.Watcher.Cluster.{
  ClusterRule, creator, launch_block_buy, direct_transfer, first_inbound, rule_eq, holds_member,
  add_member, TransferLog, add_logs, add_recipients, given, build_creator_cluster, outsider,
  topic_to_address, funded_by,
}
use tripwire_launch_auditor.Hex.Order.{to_lower_case_idem}
use tripwire_launch_auditor.Watcher.Cluster.Holds.{went_to, holds-add_member, holds-add_logs}
use tripwire_launch_auditor.Watcher.Cluster.Funded.{
  funded, any_funded, IsLowered, outsider-IsLowered, recipients-IsLowered, holds-add_funded,
  any_funded-add_recipients,
}

-- The log's recipient is the address, which is neither the pool nor the creator. A topic ends in the 40
-- digits of an address.
pub got_by : Hex → Hex → Hex → TransferLog → Bool
got_by who liq a log = elim log.recipient_topic [
  | none ↦ false
  | some topic ↦
      hex_eq (to_lower_case (48 ∷ 120 ∷ drop (length topic - 40) topic)) a
      && not (hex_eq a liq)
      && not (hex_eq a who)
]

pub got : Hex → Hex → Hex → List TransferLog → Bool
got who liq a [] = false
got who liq a (log ∷ logs) = got_by who liq a log || got who liq a logs

-- The first transfer to the address came from the creator.
pub first_from : (Hex → Option Hex) → Hex → Hex → Bool
first_from first_funder who a = elim (first_funder a) [
  | none ↦ false
  | some funder ↦ hex_eq (to_lower_case funder) who
]

-- Why an address is a member by a rule: it is the creator; or it is not the pool and not the creator,
-- and got the token from the pool in the launch block, or from the creator within the window; or it
-- got it from the creator, who also made the first transfer to it.
pub belongs :
    (Hex → Option Hex) → Hex → Hex → List TransferLog → List TransferLog → Hex → ClusterRule → Bool
belongs first_funder who liq buys gifts a creator = hex_eq who a
belongs first_funder who liq buys gifts a launch_block_buy = got who liq a buys
belongs first_funder who liq buys gifts a direct_transfer = got who liq a gifts
belongs first_funder who liq buys gifts a first_inbound =
    got who liq a gifts && first_from first_funder who a

-- What a log says of an address, where its recipient is seen as the loop sees it.
seen_as : Hex → Option Hex → Bool
seen_as a seen = elim seen [ none ↦ false | some to ↦ hex_eq (to_lower_case to) a ]

seen-got_by :
    (who liq a : Hex) (log : TransferLog) → seen_as a (outsider who liq log) ≡ got_by who liq a log
unfolding seen_as outsider got_by topic_to_address
seen-got_by who liq a log = elim (Option-cases log.recipient_topic) [
  | inl e ↦ ground (arith, e)
  | inr (topic, e) ↦
      let raw : Hex = 48 ∷ 120 ∷ drop (length topic - 40) topic in
      let to = to_lower_case raw in
      let low : hex_eq (to_lower_case to) a ≡ hex_eq to a =
        ap (λ x. hex_eq x a) (to_lower_case_idem raw) in
      elim (Bool-cases (hex_eq to a)) [
        | inl q ↦
            let same : to ≡ a = (hex_eq_iff to a).0 q in
            let l : hex_eq to liq ≡ hex_eq a liq = ap (λ x. hex_eq x liq) same in
            let w : hex_eq to who ≡ hex_eq a who = ap (λ x. hex_eq x who) same in
            ground (arith, e, low, q, l, w)
        | inr q ↦ ground (arith, e, low, q)
      ]
]

went_to-got :
    (who liq a : Hex) (logs : List TransferLog) → went_to who liq a logs ≡ got who liq a logs
unfolding went_to got seen_as
went_to-got who liq a [] = refl
went_to-got who liq a (log ∷ logs) =
    ap₂ (λ x y. x || y) (seen-got_by who liq a log) (went_to-got who liq a logs)

-- A recipient that the creator funded and that is the address.
funded_as : (Hex → Option Hex) → Hex → Hex → Option Hex → Bool
funded_as first_funder who a seen = elim seen [
  | none ↦ false
  | some to ↦ funded_by first_funder who to && hex_eq (to_lower_case to) a
]

funded_as-seen :
    (first_funder : Hex → Option Hex) (who a : Hex) (seen : Option Hex)
    → ((to : Hex) → seen ≡ some to → IsLowered to)
    → funded_as first_funder who a seen ≡ (seen_as a seen && first_from first_funder who a)
unfolding funded_as seen_as first_from funded_by
funded_as-seen first_funder who a none h = refl
funded_as-seen first_funder who a (some to) h = elim (Bool-cases (hex_eq (to_lower_case to) a)) [
  | inl q ↦
      let same : to ≡ a = sym (h to refl) ∙ (hex_eq_iff (to_lower_case to) a).0 q in
      let f : first_from first_funder who to ≡ first_from first_funder who a =
        ap (first_from first_funder who) same in
      ground (arith, q, f)
  | inr q ↦ ground (arith, q)
]

or_and_both : (x y z : Bool) → ((x && z) || (y && z)) ≡ ((x || y) && z)
or_and_both x y z = ground arith

funded-got :
    (first_funder : Hex → Option Hex) (who liq a : Hex) (logs : List TransferLog)
    → funded first_funder who liq a logs ≡ (got who liq a logs && first_from first_funder who a)
unfolding funded got funded_as
funded-got first_funder who liq a [] = refl
funded-got first_funder who liq a (log ∷ logs) =
    let z = first_from first_funder who a in
    ap₂ (λ x y. x || y)
      (funded_as-seen first_funder who a (outsider who liq log)
          (λ to. outsider-IsLowered who liq to log)
        ∙ ap (λ x. x && z) (seen-got_by who liq a log))
      (funded-got first_funder who liq a logs)
    ∙ or_and_both (got_by who liq a log) (got who liq a logs) z

-- Of the four tests, the one of the rule.
by_rule :
    (first_funder : Hex → Option Hex) (who liq : Hex) (buys gifts : List TransferLog) (a : Hex)
    (rule : ClusterRule)
    → (((hex_eq who a && rule_eq creator rule)
          || (went_to who liq a buys && rule_eq launch_block_buy rule)
          || (went_to who liq a gifts && rule_eq direct_transfer rule))
        || (funded first_funder who liq a gifts && rule_eq first_inbound rule))
      ≡ belongs first_funder who liq buys gifts a rule
unfolding rule_eq belongs
by_rule first_funder who liq buys gifts a creator = ground arith
by_rule first_funder who liq buys gifts a launch_block_buy =
    ground (arith, went_to-got who liq a buys)
by_rule first_funder who liq buys gifts a direct_transfer =
    ground (arith, went_to-got who liq a gifts)
by_rule first_funder who liq buys gifts a first_inbound =
    ground (arith, funded-got first_funder who liq a gifts)

-- A cluster holds an address by a rule exactly where it belongs to it by that rule, on the logs that
-- the two queries gave; a query that failed counts as one without logs.
pub build_creator_cluster-belongs :
    (first_funder : Hex → Option Hex) (creator_address liquidity_source : Hex)
    (buys gifts : Settled (List TransferLog)) (a : Hex) (rule : ClusterRule)
    → holds_member a rule
        (build_creator_cluster first_funder creator_address liquidity_source buys gifts).members
      ≡ belongs first_funder
          (to_lower_case creator_address)
          (to_lower_case liquidity_source)
          (given buys)
          (given gifts)
          a
          rule
unfolding build_creator_cluster holds_member any_funded
build_creator_cluster-belongs first_funder creator_address liquidity_source buys gifts a rule =
    let who = to_lower_case creator_address in
    let liq = to_lower_case liquidity_source in
    let start = add_member [] who creator none in
    let bought = add_logs launch_block_buy who liq (given buys) start in
    let rows = add_logs direct_transfer who liq (given gifts) bought in
    let set = add_recipients who liq (given gifts) [] in
    let e0 = holds-add_member a who rule creator none [] in
    let e1 = holds-add_logs a who liq rule launch_block_buy (given buys) start in
    let e2 = holds-add_logs a who liq rule direct_transfer (given gifts) bought in
    let e3 =
      holds-add_funded first_funder a who rule set rows
        (recipients-IsLowered who liq (given gifts) [] tt) in
    let e4 = any_funded-add_recipients first_funder a who liq (given gifts) [] in
    let e5 : hex_eq (to_lower_case who) a ≡ hex_eq who a =
      ap (λ x. hex_eq x a) (to_lower_case_idem creator_address) in
    let e6 = by_rule first_funder who liq (given buys) (given gifts) a rule in
    ground (arith, e0, e1, e2, e3, e4, e5, e6)
