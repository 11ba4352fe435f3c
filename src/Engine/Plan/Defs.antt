-- ===== src/Engine/Plan/Defs.antt =====
-- The plan of a rebase (crates/rebase-engine/src/planner.rs).
use intent_rebase.Base.{
  is_empty, ℕ, Bool, true, false, not, ◌&&◌, ◌||◌, length, map, filter, any, ltb, leb,
  if◌then◌else◌,
}
use intent_rebase.Engine.Diff.Types.{
  IntentVersionDiff, ScopeDiff, ConstraintsDiff, AcceptanceCriteriaDiff, AuthorityDiff,
}
use intent_rebase.Engine.Risk.Types.{medium, high, critical, severity_eq, Float, DiffRiskAnalysis}
use intent_rebase.Engine.Risk.Sections.{is_high}
use intent_rebase.Engine.Plan.Types.{
  DecisionClass, a, b, c, d, e, ClassificationImpact, direct, transitive, unchanged, AffectedItem,
  AffectedItemsPreview, RevalidationStrategy, full, incremental, drop, ApprovalNeedingRevalidation,
  ApprovalRevalidation, CompensationAction, CompensationReadiness, DeferredFields,
}
use intent_rebase.Engine.Plan.Checkpoints.{with_heuristic}

abbrev pub scope_empty : ScopeDiff → Bool
scope_empty s =
    is_empty s.in_scope.added
    && is_empty s.in_scope.removed
    && is_empty s.out_of_scope.added
    && is_empty s.out_of_scope.removed

abbrev pub constraints_empty : ConstraintsDiff → Bool
constraints_empty s =
    is_empty s.functional
    && is_empty s.non_functional
    && is_empty s.policy
    && is_empty s.budget
    && is_empty s.time

abbrev pub criteria_empty : AcceptanceCriteriaDiff → Bool
criteria_empty s = is_empty s.required && is_empty s.optional

abbrev pub authority_empty : AuthorityDiff → Bool
authority_empty s =
    is_empty s.allowed_actions && is_empty s.forbidden_actions && is_empty s.approval_requirements

unfoldable pub is_diff_empty : IntentVersionDiff → Bool
is_diff_empty diff =
    if not (scope_empty diff.scope)
    then false
    else if not (constraints_empty diff.constraints)
    then false
    else if not (criteria_empty diff.acceptance_criteria)
    then false
    else authority_empty diff.authority

module _ {W : Type 0} where
  unfoldable pub compute_decision_class : IntentVersionDiff → DiffRiskAnalysis W → DecisionClass
  compute_decision_class diff risk =
      let high_count = length (filter (λ s. is_high s.severity) risk.section_risks) in
      let changed_sections = length (filter (λ s. ltb 0 s.change_count) risk.section_risks) in
      if is_diff_empty diff
      then a
      else if severity_eq risk.severity critical
      then e
      else if leb 3 high_count
      then e
      else if severity_eq risk.severity high
      then if risk.manual_review || leb 2 high_count then d else c
      else if severity_eq risk.severity medium
      then if leb 3 changed_sections || risk.manual_review
        then d
        else if leb 2 changed_sections
        then c
        else b
      else b

  unfoldable pub compute_risk_level : ⦃f : Float W⦄ → DecisionClass → DiffRiskAnalysis W → ℕ
  compute_risk_level a risk = 1
  compute_risk_level ⦃f⦄ b risk = if f.lt risk.confidence (f.decimal 5 1) then 3 else 2
  compute_risk_level c risk = 3
  compute_risk_level d risk = 4
  compute_risk_level e risk = 5

abbrev pub is_affecting : ClassificationImpact → Bool
is_affecting direct = true
is_affecting transitive = true
is_affecting unchanged = false

abbrev priority_of : ClassificationImpact → ℕ
priority_of direct = 1
priority_of transitive = 2
priority_of unchanged = 3

abbrev potential_action : AffectedItem → CompensationAction
potential_action item = record {
  id = item.node_id;
  label = item.label;
  description = item.reason;
  reversible = not (is_affecting item.impact);
  priority = priority_of item.impact;
}

unfoldable pub with_side_effects : AffectedItemsPreview → CompensationReadiness
with_side_effects items = record {
  ready = false;
  potential_actions = map potential_action items.side_effects;
  has_irreversible_effects = any (λ item. is_affecting item.impact) items.side_effects;
}

abbrev revalidation_strategy : DecisionClass → RevalidationStrategy
revalidation_strategy a = drop
revalidation_strategy b = drop
revalidation_strategy c = incremental
revalidation_strategy d = full
revalidation_strategy e = full

abbrev pub revalidation_of : AffectedItem → ApprovalNeedingRevalidation
revalidation_of item = record {
  node_id = item.node_id;
  label = item.label;
  original_rule_id = item.external_ref;
  reason = item.reason;
}

unfoldable pub with_affected_approvals : DecisionClass → AffectedItemsPreview → ApprovalRevalidation
with_affected_approvals class items = record {
  ready = false;
  approvals_needing_revalidation = map revalidation_of items.affected_approvals;
  strategy = revalidation_strategy class;
}

unfoldable pub phase1_baseline : DecisionClass → AffectedItemsPreview → DeferredFields
phase1_baseline class items = record {
  checkpoint_selection = with_heuristic class items;
  approval_revalidation = with_affected_approvals class items;
  compensation = with_side_effects items;
}
