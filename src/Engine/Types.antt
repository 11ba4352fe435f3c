-- ===== src/Engine/Types.antt =====
-- The sections of an intent version that the rebase engine reads
-- (crates/intent-rebase-types/src/intent.rs). The sections that it does not read are left out of
-- the payload. A `Uuid` is a number, and so is the JSON value of a constraint, which is compared and
-- never looked into.
use intent_rebase.Base.{ℕ, String, Bool, true, false, Option, List}

pub data ClauseType : Type 0 where
  functional non_functional policy budget time : ClauseType

abbrev pub clause_type_eq : ClauseType → ClauseType → Bool
clause_type_eq functional functional = true
clause_type_eq non_functional non_functional = true
clause_type_eq policy policy = true
clause_type_eq budget budget = true
clause_type_eq time time = true
clause_type_eq _ _ = false

pub data ConstraintOperator : Type 0 where
  eq neq lt lte gt gte contains not_contains regex custom : ConstraintOperator

abbrev pub operator_eq : ConstraintOperator → ConstraintOperator → Bool
operator_eq eq eq = true
operator_eq neq neq = true
operator_eq lt lt = true
operator_eq lte lte = true
operator_eq gt gt = true
operator_eq gte gte = true
operator_eq contains contains = true
operator_eq not_contains not_contains = true
operator_eq regex regex = true
operator_eq custom custom = true
operator_eq _ _ = false

pub data ClausePriority : Type 0 where
  must should could : ClausePriority

abbrev pub priority_eq : ClausePriority → ClausePriority → Bool
priority_eq must must = true
priority_eq should should = true
priority_eq could could = true
priority_eq _ _ = false

pub data RiskTier : Type 0 where
  low medium high critical : RiskTier

pub record IntentScope : Type 0 where
  pub in_scope : List String
  pub out_of_scope : List String

pub record Constraint : Type 0 where
  pub clause_id : Option ℕ
  pub constraint_type : ClauseType
  pub key : String
  pub operator : ConstraintOperator
  pub value : ℕ
  pub rationale : Option String
  pub priority : ClausePriority

pub record IntentConstraints : Type 0 where
  pub functional : List Constraint
  pub non_functional : List Constraint
  pub policy : List Constraint
  pub budget : List Constraint
  pub time : List Constraint

pub record AcceptanceCriterion : Type 0 where
  pub clause_id : Option ℕ
  pub description : String
  pub priority : ClausePriority

pub record AcceptanceCriteria : Type 0 where
  pub required : List AcceptanceCriterion
  pub optional : List AcceptanceCriterion

pub record ActionRef : Type 0 where
  pub action : String
  pub target : Option String

pub record ApprovalRuleRef : Type 0 where
  pub rule_id : String
  pub description : String

pub record IntentAuthority : Type 0 where
  pub allowed_actions : List ActionRef
  pub forbidden_actions : List ActionRef
  pub approval_requirements : List ApprovalRuleRef

pub record IntentPayload : Type 0 where
  pub scope : IntentScope
  pub constraints : IntentConstraints
  pub acceptance_criteria : AcceptanceCriteria
  pub authority : IntentAuthority

pub data ChangeChannel : Type 0 where
  user_edit webhook policy_update system_normalization : ChangeChannel

pub data VersionStatus : Type 0 where
  draft active rejected superseded : VersionStatus

pub record ActorRef : Type 0 where
  pub actor_type : String
  pub actor_id : String

pub record IntentVersion : Type 0 where
  pub id : ℕ
  pub intent_id : ℕ
  pub version_number : ℕ
  pub parent_version_id : Option ℕ
  pub created_at : ℕ
  pub created_by : ActorRef
  pub change_reason : String
  pub change_channel : ChangeChannel
  pub status : VersionStatus
  pub hash : String
  pub payload : IntentPayload
