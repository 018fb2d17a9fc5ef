-- ===== src/Watcher/Cluster/Holds.antt =====
-- Which rows stand in a cluster after the loop over a query's logs.
use tripwire_launch_auditor.Prelude.{
  ◌≡◌, Bool, true, false, ◌&&◌, ◌||◌, Option, none, some, List, [], ◌∷◌, ◌++◌, arith, Bool-cases,
  Option-cases, if_intro, subst, inl, inr,
}
use tripwire_launch_auditor.Hex.{Hex, hex_eq, hex_eq_iff, to_lower_case}
use tripwire_launch_auditor.Watcher.Cluster.{
  ClusterRule, rule_eq, ClusterMemberResult, holds_member, add_member, TransferLog, outsider,
  add_logs,
}

-- Some log's recipient is the address, and neither the pool nor the creator.
unfoldable pub went_to : Hex → Hex → Hex → List TransferLog → Bool
went_to who liq a [] = false
went_to who liq a (log ∷ logs) =
    elim (outsider who liq log) [ none ↦ false | some to ↦ hex_eq (to_lower_case to) a ]
    || went_to who liq a logs

holds-append :
    (a : Hex) (rule : ClusterRule) (rows : List ClusterMemberResult) (r : ClusterMemberResult)
    → holds_member a rule (rows ++ r ∷ [])
      ≡ (holds_member a rule rows || (hex_eq r.address a && rule_eq r.rule rule))
unfolding holds_member
holds-append a rule [] r = ground arith
holds-append a rule (x ∷ rows) r = ground (arith, holds-append a rule rows r)

rule_eq_iff : (p q : ClusterRule) → rule_eq p q ≡ true → p ≡ q
unfolding rule_eq
rule_eq_iff p q h = ground arith

-- What holds already is not added.
pub holds-again :
    (a b : Hex) (rule by : ClusterRule) (rows : List ClusterMemberResult)
    → holds_member b by rows ≡ true
    → holds_member a rule rows ≡ (holds_member a rule rows || (hex_eq b a && rule_eq by rule))
holds-again a b rule by rows h = elim (Bool-cases (hex_eq b a && rule_eq by rule)) [
  | inl q ↦
      let e : b ≡ a = (hex_eq_iff b a).0 (ground arith) in
      let r : by ≡ rule = rule_eq_iff by rule (ground arith) in
      let k : holds_member a rule rows ≡ true =
        subst (λ x. holds_member x rule rows ≡ true) e
          (subst (λ x. holds_member b x rows ≡ true) r h) in
      ground (arith, k, q)
  | inr q ↦ ground (arith, q)
]

pub holds-add_member :
    (a t : Hex) (rule by : ClusterRule) (tx : Option Hex) (rows : List ClusterMemberResult)
    → holds_member a rule (add_member rows t by tx)
      ≡ (holds_member a rule rows || (hex_eq (to_lower_case t) a && rule_eq by rule))
unfolding add_member
holds-add_member a t rule by tx rows =
    if_intro
      (λ l.
        holds_member a rule l
        ≡ (holds_member a rule rows || (hex_eq (to_lower_case t) a && rule_eq by rule)))
      (holds_member (to_lower_case t) by rows) rows _
      (λ h. holds-again a (to_lower_case t) rule by rows h) (λ h. holds-append a rule rows _)

pub or_assoc_and : (h x g r : Bool) → ((h || (x && r)) || (g && r)) ≡ (h || ((x || g) && r))
or_assoc_and h x g r = ground arith

pub holds-add_logs :
    (a who liq : Hex) (rule by : ClusterRule) (logs : List TransferLog)
    (rows : List ClusterMemberResult)
    → holds_member a rule (add_logs by who liq logs rows)
      ≡ (holds_member a rule rows || (went_to who liq a logs && rule_eq by rule))
unfolding add_logs went_to
holds-add_logs a who liq rule by [] rows = ground arith
holds-add_logs a who liq rule by (log ∷ logs) rows = elim (Option-cases (outsider who liq log)) [
  | inl e ↦ ground (arith, e, holds-add_logs a who liq rule by logs rows)
  | inr (to, e) ↦
      let tx = some log.transaction_hash in
      let ih = holds-add_logs a who liq rule by logs (add_member rows to by tx) in
      ground (
        arith,
        e,
        ih,
        holds-add_member a to rule by tx rows,
        or_assoc_and (holds_member a rule rows) (hex_eq (to_lower_case to) a)
            (went_to who liq a logs) (rule_eq by rule),
      )
]
