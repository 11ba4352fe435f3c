-- ===== src/Orchestrator/Pipeline.antt =====
-- The guards of the apply pipeline (crates/rebase-orchestrator/src/apply_pipeline.rs).
use intent_rebase.Base.{String, Bool, true, false, List, [], ◌∷◌, if◌then◌else◌}
use intent_rebase.Engine.Types.{RiskTier, low, medium, high, critical}
use intent_rebase.Engine.Plan.Types.{DecisionClass, a, class_eq}

pub data ApplyOutcome : Type 0 where
  no_op auto_proceeded auto_proceeded_with_notification blocked_manual_review : ApplyOutcome

-- The parts of the reason are listed.
pub data ApplyDecision : Type 0 where
  proceed : Bool → ApplyDecision
  nothing_to_do : ApplyDecision
  blocked : List String → ApplyDecision

abbrev tier_text : RiskTier → String
tier_text low = "Low"
tier_text medium = "Medium"
tier_text high = "High"
tier_text critical = "Critical"

-- The trait `ApplyGuard`.
abbrev pub ApplyGuard : Type 0
ApplyGuard = RiskTier → DecisionClass → ApplyDecision

abbrev blocked_tier : RiskTier → ApplyDecision
blocked_tier tier = blocked (
    tier_text tier
    ∷ " risk_tier requires manual review. Auto-apply not permitted for high/critical risk changes."
    ∷ [])

abbrev by_tier : RiskTier → ApplyDecision
by_tier low = proceed false
by_tier medium = proceed true
by_tier high = blocked_tier high
by_tier critical = blocked_tier critical

unfoldable pub risk_tier_guard : ApplyGuard
risk_tier_guard tier class = if class_eq class a then nothing_to_do else by_tier tier

unfoldable pub high_critical_guard : ApplyGuard
high_critical_guard tier class =
    if class_eq class a
    then blocked ("All changes require manual review (HighCriticalGuard mode)" ∷ [])
    else blocked
        (tier_text tier ∷ " risk_tier requires manual review (HighCriticalGuard mode)" ∷ [])

unfoldable pub standard_guard : ApplyGuard
standard_guard tier class = risk_tier_guard tier class

pub record ApplyPipeline : Type 0 where
  pub guard : ApplyGuard

unfoldable pub new_pipeline : ApplyPipeline
new_pipeline = record { guard = standard_guard }

unfoldable pub with_guard : ApplyGuard → ApplyPipeline
with_guard g = record { guard = g }

unfoldable pub with_high_critical_mode : ApplyPipeline
with_high_critical_mode = record { guard = high_critical_guard }

unfoldable pub evaluate : ApplyPipeline → RiskTier → DecisionClass → ApplyDecision
evaluate pipeline tier class = pipeline.guard tier class

unfoldable pub decision_to_outcome : ApplyDecision → ApplyOutcome
decision_to_outcome nothing_to_do = no_op
decision_to_outcome (proceed notification) =
    if notification then auto_proceeded_with_notification else auto_proceeded
decision_to_outcome (blocked reason) = blocked_manual_review

pub record ApplyResult : Type 0 where
  pub outcome : ApplyOutcome
  pub rationale : String
  pub notification_required : Bool

unfoldable pub noop_result : String → ApplyResult
noop_result rationale = record {
  outcome = no_op;
  rationale = rationale;
  notification_required = false;
}

unfoldable pub auto_proceed_result : Bool → String → ApplyResult
auto_proceed_result notification rationale = record {
  outcome = if notification then auto_proceeded_with_notification else auto_proceeded;
  rationale = rationale;
  notification_required = notification;
}

unfoldable pub blocked_result : String → ApplyResult
blocked_result reason = record {
  outcome = blocked_manual_review;
  rationale = reason;
  notification_required = true;
}
