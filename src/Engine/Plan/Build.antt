-- ===== src/Engine/Plan/Build.antt =====
-- The decisions on the sections, and `RebasePlan::from_diff_and_risk`
-- (crates/rebase-engine/src/planner.rs).
use intent_rebase.Base.{
  is_empty, ◌+◌, String, Bool, true, false, not, ◌||◌, List, [], ◌∷◌, ◌++◌, length, ltb,
  if◌then◌else◌, Message, lit, int,
}
use intent_rebase.Engine.Diff.Types.{IntentVersionDiff}
use intent_rebase.Engine.Risk.Types.{
  high, critical, severity_eq, to_risk_tier, Float, DiffRiskAnalysis,
}
use intent_rebase.Engine.Plan.Types.{a, class_eq, unavailable_preview, SectionDecision, RebasePlan}
use intent_rebase.Engine.Plan.Defs.{
  scope_empty, compute_decision_class, compute_risk_level, phase1_baseline,
}

-- "{sign}{n} {name}", where there is a change.
abbrev part : {A : Type 0} → String → String → List A → List Message
part sign name xs =
    if is_empty xs then [] else (lit sign ∷ int (length xs) ∷ lit " " ∷ lit name ∷ []) ∷ []

-- `parts.join(", ")`.
abbrev join : List Message → Message
join [] = []
join (m ∷ []) = m
join (m ∷ n ∷ ms) = m ++ (lit ", " ∷ []) ++ join (n ∷ ms)

abbrev pub decide : Bool → String → Message → String → List SectionDecision
decide false name summary action = []
decide true name summary action =
    record { section = name; change_summary = summary; recommended_action = action } ∷ []

unfoldable pub compute_section_decisions : IntentVersionDiff → List SectionDecision
compute_section_decisions diff =
    let s = diff.scope in
    let k = diff.constraints in
    let total_constraints =
      length k.functional
      + length k.non_functional
      + length k.policy
      + length k.budget
      + length k.time in
    let total_ac =
      length diff.acceptance_criteria.required + length diff.acceptance_criteria.optional in
    let u = diff.authority in
    let total_auth =
      length u.allowed_actions + length u.forbidden_actions + length u.approval_requirements in
    decide (not (scope_empty s)) "scope"
      (join (
        part "+" "in_scope" s.in_scope.added
        ++ part "-" "in_scope" s.in_scope.removed
        ++ part "+" "out_of_scope" s.out_of_scope.added
        ++ part "-" "out_of_scope" s.out_of_scope.removed))
      "Review scope deltas before proceeding"
    ++ decide (ltb 0 total_constraints) "constraints"
        (int total_constraints ∷ lit " total constraint changes" ∷ [])
        (if not (is_empty k.policy)
          then "Policy constraint changes — verify against governing policies"
          else "Review constraint changes for impact on execution")
    ++ decide (ltb 0 total_ac) "acceptance_criteria"
        (int total_ac ∷ lit " acceptance criteria changes" ∷ [])
        "Verify acceptance criteria changes maintain success conditions"
    ++ decide (ltb 0 total_auth) "authority" (int total_auth ∷ lit " authority changes" ∷ [])
        "Review authority changes for approval and action implications"

unfoldable pub from_diff_and_risk :
    {W : Type 0} ⦃f : Float W⦄ → IntentVersionDiff → DiffRiskAnalysis W → RebasePlan
from_diff_and_risk diff risk =
    let class = compute_decision_class diff risk in
    record {
      decision_class = class;
      section_decisions = compute_section_decisions diff;
      affected_items = unavailable_preview;
      deferred = phase1_baseline class unavailable_preview;
      manual_review_recommended =
          risk.manual_review
          || severity_eq risk.severity critical
          || severity_eq risk.severity high
          || not (class_eq class a);
      risk_tier = to_risk_tier risk.severity;
      risk_level = compute_risk_level class risk;
    }
