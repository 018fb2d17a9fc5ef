-- ===== src/Outcomes/Resolve/Dispatch.antt =====
-- Which outcomes do not apply.
use tripwire_launch_auditor.Prelude.{
  ℕ, ◌≡◌, ◌↔◌, ◌⊎◌, inl, inr, refl, Bool, true, false, not, some, List, [], ◌∷◌, map, if◌then◌else◌,
  Bool-cases, ap, ap₂, sym, ◌∙◌,
}
use tripwire_launch_auditor.Hex.{Hex, to_lower_case}
use tripwire_launch_auditor.Scoring.Outcome.{
  Horizon, OutcomeLabel, insider_exit, sell_impaired, liq_impaired, drawdown_80, trading_alive,
  outcome_key, outcome_applies,
}
use tripwire_launch_auditor.Watcher.Retry.{Settled, value, failure}
use tripwire_launch_auditor.Outcomes.Insider
use tripwire_launch_auditor.Outcomes.Insider.{Transfer, resolve_insider_exit}
use tripwire_launch_auditor.Outcomes.Resolvers.{not_applicable, ResolverContext}
use tripwire_launch_auditor.Outcomes.Resolvers.Applies.{
  Measures, failure-Measures, unresolvable-Measures, resolved-Measures,
  resolve_liq_impaired-Measures, resolve_drawdown-Measures, resolve_sell_impaired-Measures,
  resolve_survival-Measures,
}
use tripwire_launch_auditor.Outcomes.Rows.{na, EnsureOutcomeInput, OutcomeRow, row_of}
use tripwire_launch_auditor.Outcomes.Rows.Grid.{row_of-na}
use tripwire_launch_auditor.Outcomes.Resolve.{Launch}
use tripwire_launch_auditor.Outcomes.Resolve.Run.{
  ResolveState, World, from_insider, insider_verdict, resolve_label, context_of, of_launch, of_row,
  resolve_one_outcome,
}

from_insider-Measures : (r : Insider.Resolution) → Measures (value (from_insider r))
unfolding from_insider
from_insider-Measures Insider.unresolvable = unresolvable-Measures _ _
from_insider-Measures (Insider.resolved b e) = resolved-Measures _ _

insider-Measures :
    (cluster sinks : List Hex) (t : Settled (List Transfer × List Transfer))
    → Measures (insider_verdict cluster sinks t)
unfolding insider_verdict
insider-Measures [] sinks t = from_insider-Measures (resolve_insider_exit [] sinks [] [])
insider-Measures (c ∷ cluster) sinks (failure e) = failure-Measures e
insider-Measures (c ∷ cluster) sinks (value (o, i)) =
    from_insider-Measures (resolve_insider_exit (c ∷ cluster) sinks o i)

if_true {ℓ} : {A : Type ℓ} (b : Bool) (x y : A) → b ≡ true → (if b then x else y) ≡ x
if_true true x y h = refl
if_true false x y h = cc

if_false {ℓ} : {A : Type ℓ} (b : Bool) (x y : A) → b ≡ false → (if b then x else y) ≡ y
if_false true x y h = cc
if_false false x y h = refl

if_first {ℓ κ} :
    {A : Type ℓ} {B : Type κ} (b : Bool) (x y : A × B)
    → (if b then x else y).0 ≡ (if b then x.0 else y.0)
if_first true x y = refl
if_first false x y = refl

-- A label that applies whatever is locked, or a pool whose liquidity is not locked.
abbrev Applies : OutcomeLabel → Horizon → ResolverContext → Type 0
Applies l h ctx = outcome_applies (outcome_key l h) ctx.lp_locked_by_construction ≡ true

open_pool :
    (l : OutcomeLabel) (h : Horizon) (b : Bool)
    → (l ≡ sell_impaired) ⊎ (l ≡ liq_impaired)
    → outcome_applies (outcome_key l h) b ≡ true
    → b ≡ false
unfolding outcome_applies
open_pool l h false e a = refl
open_pool sell_impaired h true e a = cc
open_pool liq_impaired h true e a = cc
open_pool insider_exit h true (inl e) a = cc
open_pool insider_exit h true (inr e) a = cc
open_pool drawdown_80 h true (inl e) a = cc
open_pool drawdown_80 h true (inr e) a = cc
open_pool trading_alive h true (inl e) a = cc
open_pool trading_alive h true (inr e) a = cc

label-Measures :
    (w : World) (launch : Launch) (cluster : List Hex) (l : OutcomeLabel) (h : Horizon)
    (ctx : ResolverContext)
    → Applies l h ctx
    → Measures (resolve_label w launch cluster l ctx)
unfolding resolve_label
label-Measures w launch cluster drawdown_80 h ctx a = resolve_drawdown-Measures ctx
label-Measures w launch cluster sell_impaired h ctx a =
    resolve_sell_impaired-Measures ctx
      (open_pool sell_impaired h ctx.lp_locked_by_construction (inl refl) a)
label-Measures w launch cluster liq_impaired h ctx a =
    resolve_liq_impaired-Measures ctx
      (open_pool liq_impaired h ctx.lp_locked_by_construction (inr refl) a)
label-Measures w launch cluster insider_exit h ctx a = insider-Measures cluster _ _
label-Measures w launch cluster trading_alive h ctx a = resolve_survival-Measures ctx

context-locked :
    (w : World) (row : OutcomeRow) (at : ℕ) (launch : Launch) (s : ResolveState)
    → ResolverContext.lp_locked_by_construction (context_of w row at launch s).0
      ≡ launch.lp_locked_by_construction
unfolding context_of
context-locked w row at launch s = refl

of_found :
    (w : World) (row : OutcomeRow) (s : ResolveState) (id at : ℕ) (launch : Launch)
    → (of_launch w row id at (some launch) s).0 ≡ (
        if not
          (outcome_applies (outcome_key row.label row.horizon) launch.lp_locked_by_construction)
        then value not_applicable
        else resolve_label w launch
            (map to_lower_case (w.members id))
            row.label
            (context_of w row at launch s).0)
unfolding of_launch
of_found w row s id at launch =
    if_first
      (not (outcome_applies (outcome_key row.label row.horizon) launch.lp_locked_by_construction))
      (value not_applicable, s)
      (
        resolve_label w launch (map to_lower_case (w.members id)) row.label
            (context_of w row at launch s).0,
        (context_of w row at launch s).1,
      )

found_launch :
    (w : World) (row : OutcomeRow) (s : ResolveState) (id at : ℕ) (launch : Launch)
    → row.launch_id ≡ some id
    → row.horizon_at ≡ some at
    → w.launches id ≡ some launch
    → (resolve_one_outcome w row s).0 ≡ (
        if not
          (outcome_applies (outcome_key row.label row.horizon) launch.lp_locked_by_construction)
        then value not_applicable
        else resolve_label w launch
            (map to_lower_case (w.members id))
            row.label
            (context_of w row at launch s).0)
unfolding resolve_one_outcome of_row
found_launch w row s id at launch linked due found =
    ap₂ (λ a b. (of_row w row a b s).0) linked due
    ∙ ap (λ l. (of_launch w row id at l s).0) found
    ∙ of_found w row s id at launch

-- An outcome whose launch is known is resolved to the verdict that it does not apply exactly where the
-- row that is made for its cell says so from the start, by the lock on the launch's liquidity.
pub resolve_one_outcome-na :
    (w : World) (row : OutcomeRow) (s : ResolveState) (id at : ℕ) (launch : Launch)
    (input : EnsureOutcomeInput) (n : ℕ)
    → row.launch_id ≡ some id
    → row.horizon_at ≡ some at
    → w.launches id ≡ some launch
    → input.lp_locked_by_construction ≡ launch.lp_locked_by_construction
    → ((resolve_one_outcome w row s).0 ≡ value not_applicable)
      ↔ ((row_of input (outcome_key row.label row.horizon) n).status ≡ na)
resolve_one_outcome-na w row s id at launch input n linked due found locked =
    let key = outcome_key row.label row.horizon in
    let ctx = (context_of w row at launch s).0 in
    let (from_na, to_na) = row_of-na input key n in
    let e = found_launch w row s id at launch linked due found in
    elim (Bool-cases (outcome_applies key launch.lp_locked_by_construction)) [
      | inl a ↦
          let m =
            label-Measures w launch (map to_lower_case (w.members id)) row.label row.horizon ctx
              (ap (outcome_applies key) (context-locked w row at launch s) ∙ a) in
          (
            (λ h. absurd (m.measured (sym (e ∙ if_false _ _ _ (ap not a)) ∙ h))),
            (λ h. cc (from_na h, ap (outcome_applies key) locked)),
          )
      | inr b ↦
          ((λ h. to_na (ap (outcome_applies key) locked ∙ b)), (λ h. e ∙ if_true _ _ _ (ap not b)))
    ]
