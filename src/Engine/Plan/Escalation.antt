-- ===== src/Engine/Plan/Escalation.antt =====
-- Changes that weaken the oversight of an intent make a plan that is handed to a person.
use intent_rebase.Base.{
  ℕ, ◌+◌, ◌≤◌, ◌<◌, String, true, false, Option, List, total, str_eq, str_eq_iff, if◌then◌else◌,
  ◌≡◌, ap, arith, string_eq, option_eq, pair_eq, total_le, sym, subst, ok, ok-injective, ◌⊎◌, inl,
  inr, sym,
}
use intent_rebase.Engine.Types.{ApprovalRuleRef, ActionRef, RiskTier, IntentVersion}
use intent_rebase.Engine.Diff.Types.{IntentVersionDiff}
use intent_rebase.Engine.Diff.Keyed.{Change, removed, changes}
use intent_rebase.Engine.Diff.Conservation.{changes_remove, removed_measure, total-entries}
use intent_rebase.Engine.Diff.Order.{text_le, action_le}
use intent_rebase.Engine.Diff.Defs.{
  approval_rules_equal, approval_rule_diff, rule_key, diff_approval_rules, action_refs_equal,
  action_ref_diff, action_key, diff_action_refs, diff_intent_version, diff_authority,
}
use intent_rebase.Engine.Risk.Types.{
  Float, DiffRiskAnalysis, Severity, critical, default_config, rank,
}
use intent_rebase.Engine.Risk.Analysis.{analyze_diff_risk}
use intent_rebase.Engine.Risk.Sections.{analyze_authority_risk}
use intent_rebase.Engine.Risk.Severity.{severity_greatest, authority_critical}
use intent_rebase.Engine.Plan.Types.{e, RebasePlan}
use intent_rebase.Engine.Plan.Defs.{is_diff_empty, compute_decision_class, compute_risk_level}
use intent_rebase.Engine.Plan.Build.{from_diff_and_risk}
use intent_rebase.Engine.Facade.{risk_of, compute_diff, generate_plan}
use intent_rebase.Engine.Risk.Counts.{removal, rules_removed, actions_removed}

-- One for the rule of an identifier.
abbrev pub is_rule : String → ApprovalRuleRef → ℕ
is_rule id a = if str_eq a.rule_id id then 1 else 0

abbrev pub is_action : String → Option String → ActionRef → ℕ
is_action action target a = if pair_eq.beq (a.action, a.target) (action, target) then 1 else 0

-- The removals in an entry.
abbrev removals : {A : Type 0} → Change A → ℕ
removals (removed b) = 1
removals _ = 0

rules_fall :
    (id : String) (before after : List ApprovalRuleRef)
    → total (is_rule id) before
      ≤ total (is_rule id) after
        + total (λ d. removal d.change_type) (diff_approval_rules before after)
unfolding diff_approval_rules
rules_fall id before after =
    let cs = changes rule_key approval_rules_equal before after in
    omega (
      arith,
      changes_remove rule_key approval_rules_equal (is_rule id) before after
          (λ b a same. ground (arith, str_eq_iff a.rule_id b.rule_id)),
      total_le (removed_measure rule_key approval_rules_equal (is_rule id)) removals cs one,
      total-entries rule_key approval_rules_equal (is_rule id) approval_rule_diff
          (λ x y. text_le x.rule_id y.rule_id) (λ d. removal d.change_type) removals before after
          same_removals,
    )
  where
    one :
        (c : Change ApprovalRuleRef)
        → removed_measure rule_key approval_rules_equal (is_rule id) c ≤ removals c
    one c = ground arith

    same_removals :
        (c : Change ApprovalRuleRef) → removal (approval_rule_diff c).change_type ≡ removals c
    same_removals c = ground arith

actions_fall :
    (action : String) (target : Option String) (before after : List ActionRef)
    → total (is_action action target) before
      ≤ total (is_action action target) after
        + total (λ d. removal d.change_type) (diff_action_refs before after)
unfolding diff_action_refs
actions_fall action target before after =
    let p = is_action action target in
    let cs = changes action_key action_refs_equal before after in
    omega (
      arith,
      changes_remove action_key action_refs_equal p before after (λ b a same.
          ap (λ k. if pair_eq.beq k (action, target) then 1 else 0)
            (sym ((pair_eq.beq_iff (a.action, a.target) (b.action, b.target)).0 same))),
      total_le (removed_measure action_key action_refs_equal p) removals cs one,
      total-entries action_key action_refs_equal p action_ref_diff
          (λ x y. action_le (x.action, x.target) (y.action, y.target)) (λ d. removal d.change_type)
          removals before after same_removals,
    )
  where
    one :
        (c : Change ActionRef)
        → removed_measure action_key action_refs_equal (is_action action target) c ≤ removals c
    one c = ground arith

    same_removals : (c : Change ActionRef) → removal (action_ref_diff c).change_type ≡ removals c
    same_removals c = ground arith

-- The plan leaves the case to a person.
abbrev pub HandedOff : RebasePlan → Type 0
HandedOff plan =
    (plan.decision_class ≡ e)
    × (plan.manual_review_recommended ≡ true)
    × (plan.risk_tier ≡ RiskTier.critical)
    × (plan.risk_level ≡ 5)

critical-HandedOff :
    {W : Type 0} ⦃f : Float W⦄ (diff : IntentVersionDiff) (risk : DiffRiskAnalysis W)
    → is_diff_empty diff ≡ false
    → risk.severity ≡ critical
    → HandedOff (from_diff_and_risk diff risk)
unfolding from_diff_and_risk compute_decision_class compute_risk_level
critical-HandedOff diff risk h k = ground arith

critical_top : (s t : Severity) → t ≡ critical → rank t ≤ rank s → s ≡ critical
critical_top s t h k = ground arith

authority-HandedOff :
    (W : Type 0) ⦃f : Float W⦄ (diff : IntentVersionDiff)
    → 0
      < total (λ d. removal d.change_type) diff.authority.approval_requirements
        + total (λ d. removal d.change_type) diff.authority.forbidden_actions
    → HandedOff (from_diff_and_risk diff (risk_of {W = W} diff))
unfolding is_diff_empty analyze_diff_risk
authority-HandedOff W diff h =
    let found =
      severity_greatest diff.scope diff.constraints diff.acceptance_criteria diff.authority
        (default_config {W = W}) in
    let is_critical = authority_critical diff.authority (
      omega (
        arith,
        rules_removed diff.authority.approval_requirements,
        actions_removed "forbidden_actions" diff.authority.forbidden_actions,
      )) in
    critical-HandedOff diff (risk_of {W = W} diff) (ground arith) (
      critical_top (risk_of {W = W} diff).severity (analyze_authority_risk diff.authority).0
        is_critical found.0.1.1.1.0)

pub compute_diff-ok :
    (from to : IntentVersion) (diff : IntentVersionDiff)
    → compute_diff from to ≡ ok diff
    → diff_intent_version from to ≡ diff
unfolding compute_diff
compute_diff-ok from to diff h = ground arith

pub generate_plan-ok :
    (W : Type 0) ⦃f : Float W⦄ (diff : IntentVersionDiff) (plan : RebasePlan)
    → generate_plan W diff ≡ ok plan
    → from_diff_and_risk diff (risk_of {W = W} diff) ≡ plan
unfolding generate_plan
generate_plan-ok W diff plan h = ok-injective h

-- Where the later version has an approval rule, or a forbidden action, fewer times than the earlier
-- one, for instance not at all, the plan is of class E with manual review recommended, the risk tier
-- is critical and the risk level 5.
pub weaker_oversight-HandedOff :
    (W : Type 0) ⦃f : Float W⦄ (from to : IntentVersion) (diff : IntentVersionDiff)
    (plan : RebasePlan)
    → compute_diff from to ≡ ok diff
    → generate_plan W diff ≡ ok plan
    → ((id : String) × (total (is_rule id) to.payload.authority.approval_requirements
          < total (is_rule id) from.payload.authority.approval_requirements))
      ⊎ ((action : String) × (target : Option String) × (total
              (is_action action target)
              to.payload.authority.forbidden_actions
            < total (is_action action target) from.payload.authority.forbidden_actions))
    → HandedOff plan
unfolding diff_intent_version diff_authority
weaker_oversight-HandedOff W from to diff plan made planned weaker =
    let b = from.payload.authority in
    let c = to.payload.authority in
    let d = diff_intent_version from to in
    subst HandedOff (generate_plan-ok W diff plan planned) (
      subst (λ x. HandedOff (from_diff_and_risk x (risk_of {W = W} x)))
        (compute_diff-ok from to diff made)
        (authority-HandedOff W d (elim weaker [
          | inl (id, less) ↦
              omega (arith, less, rules_fall id b.approval_requirements c.approval_requirements)
          | inr (action, target, less) ↦
              omega
                (arith, less, actions_fall action target b.forbidden_actions c.forbidden_actions)
        ])))
