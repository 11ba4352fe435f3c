-- ===== src/Engine/Plan/Classes.antt =====
-- When a plan has which class and which risk level.
use intent_rebase.Base.{
  ℕ, ◌≤◌, String, Bool, true, false, not, List, ◌++◌, filter, length, leb, ◌≡◌, ◌↔◌, refl, arith,
  ap, Member, Member-append, Member-nonempty, is_empty, ◌⊎◌, inl, inr,
}
use intent_rebase.Engine.Diff.Types.{IntentVersionDiff, ConstraintsDiff}
use intent_rebase.Engine.Risk.Types.{
  Float, DiffRiskAnalysis, policy_constraint_changed, critical_severity, low_confidence,
  multiple_high_severity_changes, approval_requirement_removed, severity_eq, RiskConfig,
  default_config, rank, Severity, critical,
}
use intent_rebase.Engine.Risk.Sections.{policy_changed, approval_removed, is_high}
use intent_rebase.Engine.Risk.Analysis.{
  should_manual_review, push_if, analyze_diff_risk_with_config, analyze_diff_risk,
}
use intent_rebase.Engine.Risk.Severity.{severity_greatest, constraints_high, severities}
use intent_rebase.Engine.Plan.Types.{DecisionClass, a, d, e}
use intent_rebase.Engine.Plan.Defs.{is_diff_empty, compute_decision_class, compute_risk_level}
use intent_rebase.Engine.Plan.Build.{from_diff_and_risk}
use intent_rebase.Engine.Facade.{risk_of}

abbrev Levels : DecisionClass → ℕ → Type 0
Levels class n = (1 ≤ n) × (n ≤ 5) × ((n ≡ 1) ↔ (class ≡ a)) × ((n ≡ 5) ↔ (class ≡ e))

level_of_class :
    {W : Type 0} ⦃f : Float W⦄ (class : DecisionClass) (risk : DiffRiskAnalysis W)
    → Levels class (compute_risk_level class risk)
unfolding compute_risk_level
level_of_class class risk = ground arith

class_a_iff :
    {W : Type 0} (diff : IntentVersionDiff) (risk : DiffRiskAnalysis W)
    → (compute_decision_class diff risk ≡ a) ↔ (is_diff_empty diff ≡ true)
unfolding compute_decision_class
class_a_iff diff risk = ground arith

-- The risk level is between 1 and 5; it is 1 for class A alone and 5 for class E alone, and class A
-- is that of the empty diff alone.
pub plan_levels :
    {W : Type 0} ⦃f : Float W⦄ (diff : IntentVersionDiff) (risk : DiffRiskAnalysis W)
    → let plan = from_diff_and_risk diff risk in
      (1 ≤ plan.risk_level)
      × (plan.risk_level ≤ 5)
      × ((plan.risk_level ≡ 1) ↔ (plan.decision_class ≡ a))
      × ((plan.risk_level ≡ 5) ↔ (plan.decision_class ≡ e))
      × ((plan.decision_class ≡ a) ↔ (is_diff_empty diff ≡ true))
unfolding from_diff_and_risk
plan_levels diff risk =
    let l = level_of_class (compute_decision_class diff risk) risk in
    (l.0, l.1, l.2, l.3, class_a_iff diff risk)

pushed_third :
    {A : Type 0} (x : A) (us bs cs ds es : List A)
    → Member x cs
    → Member x (us ++ bs ++ cs ++ ds ++ es)
pushed_third x us bs cs ds es h =
    Member-append x (us ++ bs ++ cs ++ ds) es
      (inl (Member-append x (us ++ bs ++ cs) ds (inl (Member-append x (us ++ bs) cs (inr h)))))

-- A policy change is a reason for a manual review.
policy_reason :
    {W : Type 0} ⦃f : Float W⦄ (s : Severity) (confidence : W) (sections : List (String × Severity))
    (policy approval : Bool) (config : RiskConfig W)
    → policy ≡ true
    → let found = should_manual_review s confidence sections policy approval config in
      (found.0 ≡ true) × Member policy_constraint_changed found.1
unfolding should_manual_review
policy_reason ⦃f⦄ s confidence sections policy approval config is =
    let count = length (filter (λ x. is_high x.1) sections) in
    let found =
      pushed_third policy_constraint_changed (push_if (severity_eq s critical) critical_severity)
        (push_if (f.lt confidence config.confidence_threshold)
          (low_confidence confidence config.confidence_threshold))
        (push_if policy policy_constraint_changed)
        (push_if (leb config.max_high_severity_before_manual_review count)
          (multiple_high_severity_changes count))
        (push_if approval approval_requirement_removed) (rw is (inl refl)) in
    (ap not (Member-nonempty policy_constraint_changed _ found), found)

policy_changed_lem : (k : ConstraintsDiff) → is_empty k.policy ≡ false → policy_changed k ≡ true
unfolding policy_changed
policy_changed_lem k h = ground arith

class_of_review :
    {W : Type 0} (diff : IntentVersionDiff) (risk : DiffRiskAnalysis W)
    → is_diff_empty diff ≡ false
    → 2 ≤ rank risk.severity
    → risk.manual_review ≡ true
    → (compute_decision_class diff risk ≡ d) ⊎ (compute_decision_class diff risk ≡ e)
unfolding compute_decision_class
class_of_review diff risk h k r = ground arith

-- Any change of a policy constraint makes the severity high or critical and calls for a manual
-- review with that reason among the others, and the plan has class D or E.
pub policy_change_reviewed :
    (W : Type 0) ⦃f : Float W⦄ (diff : IntentVersionDiff)
    → is_empty diff.constraints.policy ≡ false
    → let risk = risk_of {W = W} diff in
      let plan = from_diff_and_risk diff risk in
      (2 ≤ rank risk.severity)
      × (risk.manual_review ≡ true)
      × Member policy_constraint_changed risk.manual_review_reasons
      × ((plan.decision_class ≡ d) ⊎ (plan.decision_class ≡ e))
unfolding from_diff_and_risk analyze_diff_risk analyze_diff_risk_with_config is_diff_empty
policy_change_reviewed W diff h =
    let risk = risk_of {W = W} diff in
    let top =
      severity_greatest diff.scope diff.constraints diff.acceptance_criteria diff.authority
        (default_config {W = W}) in
    let tall : 2 ≤ rank risk.severity =
      omega (arith, top.0.1.0, constraints_high diff.constraints h) in
    let reason =
      policy_reason risk.severity risk.confidence
        (severities diff.scope diff.constraints diff.acceptance_criteria diff.authority)
        (policy_changed diff.constraints) (approval_removed diff.authority) default_config
        (policy_changed_lem diff.constraints h) in
    (tall, reason.0, reason.1, class_of_review diff risk (ground arith) tall reason.0)
