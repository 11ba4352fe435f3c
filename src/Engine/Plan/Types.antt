-- ===== src/Engine/Plan/Types.antt =====
-- The data of a rebase plan (crates/rebase-engine/src/planner.rs, and the preview of affected items
-- of crates/intent-rebase-types/src/graph.rs). The rationales, which are texts for people, are left
-- out.
use intent_rebase.Base.{ℕ, String, Bool, true, false, Option, List, [], Message}
use intent_rebase.Engine.Types.{RiskTier}
use intent_rebase.Graph.Types.{ExternalRef}

pub data DecisionClass : Type 0 where
  a b c d e : DecisionClass

abbrev pub class_eq : DecisionClass → DecisionClass → Bool
class_eq a a = true
class_eq b b = true
class_eq c c = true
class_eq d d = true
class_eq e e = true
class_eq _ _ = false

pub data ClassificationImpact : Type 0 where
  direct transitive unchanged : ClassificationImpact

pub data AffectedItemsStatus : Type 0 where
  available unavailable : AffectedItemsStatus

pub record AffectedItem : Type 0 where
  pub node_id : ℕ
  pub label : String
  pub impact : ClassificationImpact
  pub reason : String
  pub external_ref : Option ExternalRef

pub record AffectedItemsPreview : Type 0 where
  pub status : AffectedItemsStatus
  pub affected_artifacts : List AffectedItem
  pub affected_approvals : List AffectedItem
  pub side_effects : List AffectedItem

abbrev pub unavailable_preview : AffectedItemsPreview
unavailable_preview = record {
  status = unavailable;
  affected_artifacts = [];
  affected_approvals = [];
  side_effects = [];
}

pub record CheckpointCandidate : Type 0 where
  pub id : String
  pub label : String
  pub description : String
  pub validated : Bool

pub record CheckpointSelection : Type 0 where
  pub ready : Bool
  pub candidates : List CheckpointCandidate
  pub selected : Option CheckpointCandidate

pub data RevalidationStrategy : Type 0 where
  deferred full incremental drop log_notify : RevalidationStrategy

-- `original_rule_id` is the debug text of the reference, or "unknown" where there is none.
pub record ApprovalNeedingRevalidation : Type 0 where
  pub node_id : ℕ
  pub label : String
  pub original_rule_id : Option ExternalRef
  pub reason : String

pub record ApprovalRevalidation : Type 0 where
  pub ready : Bool
  pub approvals_needing_revalidation : List ApprovalNeedingRevalidation
  pub strategy : RevalidationStrategy

pub record CompensationAction : Type 0 where
  pub id : ℕ
  pub label : String
  pub description : String
  pub reversible : Bool
  pub priority : ℕ

pub record CompensationReadiness : Type 0 where
  pub ready : Bool
  pub potential_actions : List CompensationAction
  pub has_irreversible_effects : Bool

pub record DeferredFields : Type 0 where
  pub checkpoint_selection : CheckpointSelection
  pub approval_revalidation : ApprovalRevalidation
  pub compensation : CompensationReadiness

pub record SectionDecision : Type 0 where
  pub section : String
  pub change_summary : Message
  pub recommended_action : String

pub record RebasePlan : Type 0 where
  pub decision_class : DecisionClass
  pub section_decisions : List SectionDecision
  pub affected_items : AffectedItemsPreview
  pub deferred : DeferredFields
  pub manual_review_recommended : Bool
  pub risk_tier : RiskTier
  pub risk_level : ℕ
