-- ===== src/Orchestrator/Gate.antt =====
-- Between the plan and its application: the changes that weaken the oversight of an intent are not
-- applied on their own.
use intent_rebase.Base.{
  ℕ, ◌<◌, ◌≤◌, String, true, false, Option, List, total, ok, ◌≡◌, ◌⊎◌, arith, is_empty, [],
}
use intent_rebase.Engine.Types.{IntentVersion}
use intent_rebase.Engine.Diff.Types.{IntentVersionDiff}
use intent_rebase.Engine.Risk.Types.{Float, Severity, rank, to_risk_tier}
use intent_rebase.Engine.Plan.Types.{DecisionClass, d, e, RebasePlan}
use intent_rebase.Engine.Plan.Build.{from_diff_and_risk}
use intent_rebase.Engine.Plan.Escalation.{is_rule, is_action, HandedOff, weaker_oversight-HandedOff}
use intent_rebase.Engine.Plan.Classes.{policy_change_reviewed}
use intent_rebase.Engine.Revalidation.{classify_approvals}
use intent_rebase.Engine.Facade.{risk_of, compute_diff, generate_plan}
use intent_rebase.Orchestrator.Pipeline.{
  blocked_manual_review, ApplyOutcome, new_pipeline, evaluate, decision_to_outcome, standard_guard,
  risk_tier_guard,
}

-- What the default pipeline does with a plan.
abbrev pub outcome_of : RebasePlan → ApplyOutcome
outcome_of plan = decision_to_outcome (evaluate new_pipeline plan.risk_tier plan.decision_class)

HandedOff-blocked :
    (plan : RebasePlan) (current : List ℕ)
    → HandedOff plan
    → (outcome_of plan ≡ blocked_manual_review)
      × ((classify_approvals plan current).stale_ids ≡ [])
      × ((classify_approvals plan current).requires_manual_review ≡ true)
unfolding new_pipeline evaluate standard_guard risk_tier_guard decision_to_outcome
    classify_approvals
HandedOff-blocked plan current h = ground arith

-- Where the later version has an approval rule, or a forbidden action, fewer times than the earlier
-- one, the pipeline blocks the plan for a manual review, and no approval is made stale before it.
pub weaker_oversight_blocked :
    (W : Type 0) ⦃f : Float W⦄ (from to : IntentVersion) (diff : IntentVersionDiff)
    (plan : RebasePlan) (current : List ℕ)
    → compute_diff from to ≡ ok diff
    → generate_plan W diff ≡ ok plan
    → ((id : String) × (total (is_rule id) to.payload.authority.approval_requirements
          < total (is_rule id) from.payload.authority.approval_requirements))
      ⊎ ((action : String) × (target : Option String) × (total
              (is_action action target)
              to.payload.authority.forbidden_actions
            < total (is_action action target) from.payload.authority.forbidden_actions))
    → (outcome_of plan ≡ blocked_manual_review)
      × ((classify_approvals plan current).stale_ids ≡ [])
      × ((classify_approvals plan current).requires_manual_review ≡ true)
weaker_oversight_blocked W from to diff plan current made planned weaker =
    HandedOff-blocked plan current
      (weaker_oversight-HandedOff W from to diff plan made planned weaker)

high_blocked :
    (s : Severity) (class : DecisionClass)
    → 2 ≤ rank s
    → (class ≡ d) ⊎ (class ≡ e)
    → decision_to_outcome (evaluate new_pipeline (to_risk_tier s) class) ≡ blocked_manual_review
unfolding new_pipeline evaluate standard_guard risk_tier_guard decision_to_outcome
high_blocked s class h k = ground arith

-- The pipeline blocks the plan of every diff that changes a policy constraint.
pub policy_change_blocked :
    (W : Type 0) ⦃f : Float W⦄ (diff : IntentVersionDiff)
    → is_empty diff.constraints.policy ≡ false
    → outcome_of (from_diff_and_risk diff (risk_of {W = W} diff)) ≡ blocked_manual_review
unfolding from_diff_and_risk
policy_change_blocked W diff h =
    let found = policy_change_reviewed W diff h in
    let plan = from_diff_and_risk diff (risk_of {W = W} diff) in
    high_blocked (risk_of {W = W} diff).severity plan.decision_class found.0 found.3
