-- ===== src/Watcher/Cluster.antt =====
-- apps/worker/src/watcher/cluster.ts: the cluster of a token's creator. The two queries for transfers
-- are their answers or a failure, a transfer is the topic of its recipient, where the log
-- has one, and its transaction; a confidence is in hundredths. An address is not empty.
pub mod Holds
pub mod Funded
pub mod Members
pub mod Examples
use tripwire_launch_auditor.Prelude.{
  ℕ, zero, suc, ◌+◌, ◌-◌, Bool, true, false, ◌&&◌, ◌||◌, Option, none, some, List, [], ◌∷◌, ◌++◌,
  length, drop, ◌==◌, if◌then◌else◌,
}
use tripwire_launch_auditor.Hex.{Hex, hex_eq, to_lower_case}
use tripwire_launch_auditor.Watcher.Retry.{Settled, value, failure}

pub data ClusterRule : Type 0 where
  creator launch_block_buy direct_transfer first_inbound : ClusterRule

pub rule_confidence : ClusterRule → ℕ
rule_confidence creator = 100
rule_confidence launch_block_buy = 90
rule_confidence direct_transfer = 70
rule_confidence first_inbound = 85

rule_code : ClusterRule → ℕ
rule_code creator = 0
rule_code launch_block_buy = 1
rule_code direct_transfer = 2
rule_code first_inbound = 3

pub rule_eq : ClusterRule → ClusterRule → Bool
unfolding rule_code
rule_eq a b = rule_code a == rule_code b

pub record ClusterMemberResult : Type 0 where
  pub address : Hex
  pub rule : ClusterRule
  pub evidence_tx : Option Hex
  pub confidence : ℕ

-- `rows.some(...)`
pub holds_member : Hex → ClusterRule → List ClusterMemberResult → Bool
holds_member a rule [] = false
holds_member a rule (r ∷ rs) = (hex_eq r.address a && rule_eq r.rule rule) || holds_member a rule rs

pub add_member :
    List ClusterMemberResult → Hex → ClusterRule → Option Hex → List ClusterMemberResult
add_member rows address rule tx =
    let a = to_lower_case address in
    if holds_member a rule rows
    then rows
    else rows
      ++ record { address = a; rule = rule; evidence_tx = tx; confidence = rule_confidence rule }
        ∷ []

pub record TransferLog : Type 0 where
  pub recipient_topic : Option Hex
  pub transaction_hash : Hex

-- The last 40 characters, lowered.
pub topic_to_address : Hex → Hex
topic_to_address topic = to_lower_case (48 ∷ 120 ∷ drop (length topic - 40) topic)

-- The recipient, where there is one that is neither the pool nor the creator.
pub outsider : Hex → Hex → TransferLog → Option Hex
outsider who liq log = elim log.recipient_topic [
  | none ↦ none
  | some topic ↦
      let to = topic_to_address topic in if hex_eq to liq || hex_eq to who then none else some to
]

-- The members of a loop over logs.
pub add_logs :
    ClusterRule → Hex → Hex → List TransferLog → List ClusterMemberResult → List ClusterMemberResult
add_logs rule who liq [] rows = rows
add_logs rule who liq (log ∷ logs) rows = add_logs rule who liq logs (elim (outsider who liq log) [
  | none ↦ rows
  | some to ↦ add_member rows to rule (some log.transaction_hash)
])

pub includes_hex : Hex → List Hex → Bool
includes_hex a [] = false
includes_hex a (x ∷ xs) = hex_eq x a || includes_hex a xs

-- The set of the recipients.
pub add_recipients : Hex → Hex → List TransferLog → List Hex → List Hex
add_recipients who liq [] set = set
add_recipients who liq (log ∷ logs) set = add_recipients who liq logs (elim (outsider who liq log) [
  | none ↦ set
  | some to ↦ if includes_hex to set then set else set ++ to ∷ []
])

-- The wallet's first transfer came from the creator.
pub funded_by : (Hex → Option Hex) → Hex → Hex → Bool
funded_by first_funder who a = elim (first_funder a) [
  | none ↦ false
  | some funder ↦ hex_eq (to_lower_case funder) who
]

pub add_funded :
    (Hex → Option Hex) → Hex → List Hex → List ClusterMemberResult → List ClusterMemberResult
add_funded first_funder who [] rows = rows
add_funded first_funder who (a ∷ rest) rows = add_funded first_funder who rest (
    if holds_member a first_inbound rows
    then rows
    else if funded_by first_funder who a
    then add_member rows a first_inbound none
    else rows)

pub record ClusterResult : Type 0 where
  pub members : List ClusterMemberResult
  pub size : ℕ
  pub confidence_sum : ℕ
  pub partial : List ClusterRule

-- The logs that a rule's query gave, and the rule where it failed.
pub given : Settled (List TransferLog) → List TransferLog
given (value logs) = logs
given (failure e) = []

failed_rule : ClusterRule → Settled (List TransferLog) → List ClusterRule
failed_rule rule (value logs) = []
failed_rule rule (failure e) = rule ∷ []

-- The distinct addresses.
distinct : List ClusterMemberResult → List Hex → List Hex
distinct [] set = set
distinct (r ∷ rs) set =
    distinct rs (if includes_hex r.address set then set else set ++ r.address ∷ [])

sum_confidence : List ClusterMemberResult → ℕ
sum_confidence [] = 0
sum_confidence (r ∷ rs) = r.confidence + sum_confidence rs

-- The mean of the confidences is their sum over the number of the members.
pub build_creator_cluster :
    (Hex → Option Hex)
    → Hex
    → Hex
    → Settled (List TransferLog)
    → Settled (List TransferLog)
    → ClusterResult
unfolding failed_rule distinct sum_confidence
build_creator_cluster first_funder creator_address liquidity_source buys gifts =
    let who = to_lower_case creator_address in
    let liq = to_lower_case liquidity_source in
    let rows =
      add_logs direct_transfer who liq (given gifts)
        (add_logs launch_block_buy who liq (given buys) (add_member [] who creator none)) in
    let members = add_funded first_funder who (add_recipients who liq (given gifts) []) rows in
    record {
      members = members;
      size = length (distinct members []);
      confidence_sum = sum_confidence members;
      partial = failed_rule launch_block_buy buys ++ failed_rule direct_transfer gifts;
    }
