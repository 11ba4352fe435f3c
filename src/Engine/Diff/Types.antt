-- ===== src/Engine/Diff/Types.antt =====
-- The diffs of the sections (crates/rebase-engine/src/diff.rs).
use intent_rebase.Base.{ℕ, String, Option, List}
use intent_rebase.Engine.Types.{
  ClauseType, Constraint, AcceptanceCriterion, ActionRef, ApprovalRuleRef,
}

pub data ChangeType : Type 0 where
  added removed modified : ChangeType

pub record ConstraintDiff : Type 0 where
  pub clause_id : Option ℕ
  pub change_type : ChangeType
  pub constraint_type : ClauseType
  pub key : String
  pub after : Option Constraint
  pub before : Option Constraint

pub record ConstraintsDiff : Type 0 where
  pub functional : List ConstraintDiff
  pub non_functional : List ConstraintDiff
  pub policy : List ConstraintDiff
  pub budget : List ConstraintDiff
  pub time : List ConstraintDiff

pub record AcceptanceCriterionDiff : Type 0 where
  pub clause_id : Option ℕ
  pub change_type : ChangeType
  pub priority : String
  pub after : Option AcceptanceCriterion
  pub before : Option AcceptanceCriterion

pub record AcceptanceCriteriaDiff : Type 0 where
  pub required : List AcceptanceCriterionDiff
  pub optional : List AcceptanceCriterionDiff

pub record ActionRefDiff : Type 0 where
  pub change_type : ChangeType
  pub action : String
  pub target : Option String
  pub before : Option ActionRef
  pub after : Option ActionRef

pub record ApprovalRuleDiff : Type 0 where
  pub change_type : ChangeType
  pub rule_id : String
  pub description : String
  pub before : Option ApprovalRuleRef
  pub after : Option ApprovalRuleRef

pub record AuthorityDiff : Type 0 where
  pub allowed_actions : List ActionRefDiff
  pub forbidden_actions : List ActionRefDiff
  pub approval_requirements : List ApprovalRuleDiff

pub record ScopeItemsDiff : Type 0 where
  pub added : List String
  pub removed : List String

pub record ScopeDiff : Type 0 where
  pub in_scope : ScopeItemsDiff
  pub out_of_scope : ScopeItemsDiff

pub record IntentVersionDiff : Type 0 where
  pub scope : ScopeDiff
  pub constraints : ConstraintsDiff
  pub acceptance_criteria : AcceptanceCriteriaDiff
  pub authority : AuthorityDiff
