-- ===== src/Watcher/Cluster/Funded.antt =====
-- Which recipients the creator funded.
use tripwire_launch_auditor.Prelude.{
  ◌≡◌, Bool, true, false, ◌&&◌, ◌||◌, Option, none, some, List, [], ◌∷◌, ◌++◌, if◌then◌else◌, arith,
  Bool-cases, Option-cases, if_intro, ap, subst, ◌∙◌, inl, inr, All, All-append, option_intro,
  length, drop, ◌-◌,
}
use tripwire_launch_auditor.Hex.{Hex, hex_eq, hex_eq_iff, to_lower_case}
use tripwire_launch_auditor.Watcher.Cluster.{
  ClusterRule, first_inbound, rule_eq, topic_to_address, ClusterMemberResult, holds_member,
  add_member, TransferLog, outsider, includes_hex, add_recipients, funded_by, add_funded,
}
use tripwire_launch_auditor.Hex.Order.{to_lower_case_idem}
use tripwire_launch_auditor.Watcher.Cluster.Holds.{holds-again, holds-add_member, or_assoc_and}

-- Some recipient that is neither the pool nor the creator is the address, and the creator funded it.
unfoldable pub funded : (Hex → Option Hex) → Hex → Hex → Hex → List TransferLog → Bool
funded first_funder who liq a [] = false
funded first_funder who liq a (log ∷ logs) =
    elim (outsider who liq log) [
      | none ↦ false
      | some to ↦ funded_by first_funder who to && hex_eq (to_lower_case to) a
    ]
    || funded first_funder who liq a logs

-- Of the recipients that the creator funded.
abbrev pub test : (Hex → Option Hex) → Hex → Hex → Hex → Bool
test first_funder who a x = funded_by first_funder who x && hex_eq (to_lower_case x) a

unfoldable pub any_funded : (Hex → Option Hex) → Hex → Hex → List Hex → Bool
any_funded first_funder who a [] = false
any_funded first_funder who a (x ∷ xs) =
    test first_funder who a x || any_funded first_funder who a xs

abbrev pub IsLowered : Hex → Type 0
IsLowered x = to_lower_case x ≡ x

module _ (first_funder : Hex → Option Hex) (a who : Hex) where
  -- One recipient.
  abbrev after : Hex → List ClusterMemberResult → List ClusterMemberResult
  after x rows =
      if holds_member x first_inbound rows
      then rows
      else if funded_by first_funder who x
      then add_member rows x first_inbound none
      else rows

  holds-after :
      (rule : ClusterRule) (x : Hex) (rows : List ClusterMemberResult)
      → IsLowered x
      → holds_member a rule (after x rows)
        ≡ (holds_member a rule rows || (test first_funder who a x && rule_eq first_inbound rule))
  holds-after rule x rows h =
      let e : hex_eq (to_lower_case x) a ≡ hex_eq x a = ap (λ y. hex_eq y a) h in
      elim (Bool-cases (holds_member x first_inbound rows)) [
        | inl q ↦ ground (arith, q, e, holds-again a x rule first_inbound rows q)
        | inr q ↦ elim (Bool-cases (funded_by first_funder who x)) [
          | inl p ↦ ground (arith, q, p, holds-add_member a x rule first_inbound none rows)
          | inr p ↦ ground (arith, q, p)
        ]
      ]

  pub holds-add_funded :
      (rule : ClusterRule) (xs : List Hex) (rows : List ClusterMemberResult)
      → All IsLowered xs
      → holds_member a rule (add_funded first_funder who xs rows) ≡ (
          holds_member a rule rows
          || (any_funded first_funder who a xs && rule_eq first_inbound rule))
  unfolding add_funded any_funded
  holds-add_funded rule [] rows h = ground arith
  holds-add_funded rule (x ∷ xs) rows (h, hs) =
      holds-add_funded rule xs (after x rows) hs
      ∙ ap (λ b. b || (any_funded first_funder who a xs && rule_eq first_inbound rule))
          (holds-after rule x rows h)
      ∙ or_assoc_and (holds_member a rule rows) (test first_funder who a x)
          (any_funded first_funder who a xs) (rule_eq first_inbound rule)

  includes-funded :
      (x : Hex) (xs : List Hex)
      → includes_hex x xs ≡ true
      → any_funded first_funder who a xs
        ≡ (any_funded first_funder who a xs || test first_funder who a x)
  unfolding includes_hex any_funded
  includes-funded x [] h = cc
  includes-funded x (y ∷ ys) h = elim (Bool-cases (hex_eq y x)) [
    | inl q ↦ let e = ap (test first_funder who a) ((hex_eq_iff y x).0 q) in ground (arith, e)
    | inr q ↦ ground (arith, q, includes-funded x ys)
  ]

  any_funded-append :
      (x : Hex) (xs : List Hex)
      → any_funded first_funder who a (xs ++ x ∷ [])
        ≡ (any_funded first_funder who a xs || test first_funder who a x)
  unfolding any_funded
  any_funded-append x [] = ground arith
  any_funded-append x (y ∷ ys) = ground (arith, any_funded-append x ys)

  pub any_funded-add_recipients :
      (liq : Hex) (logs : List TransferLog) (xs : List Hex)
      → any_funded first_funder who a (add_recipients who liq logs xs)
        ≡ (any_funded first_funder who a xs || funded first_funder who liq a logs)
  unfolding add_recipients funded
  any_funded-add_recipients liq [] xs = ground arith
  any_funded-add_recipients liq (log ∷ logs) xs = elim (Option-cases (outsider who liq log)) [
    | inl e ↦ ground (arith, e, any_funded-add_recipients liq logs xs)
    | inr (to, e) ↦
        let set = if includes_hex to xs then xs else xs ++ to ∷ [] in
        let added : any_funded first_funder who a set
            ≡ (any_funded first_funder who a xs || test first_funder who a to) =
          if_intro
            (λ l.
              any_funded first_funder who a l
              ≡ (any_funded first_funder who a xs || test first_funder who a to))
            (includes_hex to xs) xs (xs ++ to ∷ []) (λ q. includes-funded to xs q)
            (λ q. any_funded-append to xs) in
        ground (arith, e, any_funded-add_recipients liq logs set, added)
  ]

pub outsider-IsLowered :
    (who liq to : Hex) (log : TransferLog) → outsider who liq log ≡ some to → IsLowered to
unfolding outsider topic_to_address
outsider-IsLowered who liq to log h = elim (Option-cases log.recipient_topic) [
  | inl e ↦ ground (arith, e, h)
  | inr (topic, e) ↦
      let t = to_lower_case (48 ∷ 120 ∷ drop (length topic - 40) topic) in
      let same : t ≡ to = ground (arith, e, h) in
      subst IsLowered same (to_lower_case_idem (48 ∷ 120 ∷ drop (length topic - 40) topic))
]

All-last {ℓ κ} :
    {A : Type ℓ} (P : A → Type κ) (xs : List A) (x : A) → All P xs → P x → All P (xs ++ x ∷ [])
All-last P xs x h p = All-append P xs (x ∷ []) h (p, tt)

pub recipients-IsLowered :
    (who liq : Hex) (logs : List TransferLog) (xs : List Hex)
    → All IsLowered xs
    → All IsLowered (add_recipients who liq logs xs)
unfolding add_recipients
recipients-IsLowered who liq [] xs h = h
recipients-IsLowered who liq (log ∷ logs) xs h = recipients-IsLowered who liq logs _ (
    option_intro (All IsLowered) (outsider who liq log) xs
      (λ to. if includes_hex to xs then xs else xs ++ to ∷ []) (λ e. h)
      (λ to e.
        if_intro (All IsLowered) (includes_hex to xs) xs (xs ++ to ∷ []) (λ q. h)
          (λ q. All-last IsLowered xs to h (outsider-IsLowered who liq to log e))))
