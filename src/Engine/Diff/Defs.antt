-- ===== src/Engine/Diff/Defs.antt =====
-- The diffs of the four sections and of a version (crates/rebase-engine/src/diff.rs). Each list of
-- a section is matched by key, its changes become entries, and the entries are sorted.
use intent_rebase.Base.{
  ℕ, String, Bool, ◌&&◌, Option, some, List, map, ◌==◌, str_eq, option_eq, sort, pair_eq, string_eq,
  nat_eq,
}
use intent_rebase.Engine.Types.{
  Constraint, AcceptanceCriterion, ActionRef, ApprovalRuleRef, IntentConstraints,
  AcceptanceCriteria, IntentAuthority, IntentVersion, ClausePriority, must, should, could,
  clause_type_eq, operator_eq, priority_eq,
}
use intent_rebase.Engine.Diff.Types.{
  ChangeType, ConstraintDiff, ConstraintsDiff, AcceptanceCriterionDiff, AcceptanceCriteriaDiff,
  ActionRefDiff, ApprovalRuleDiff, AuthorityDiff, IntentVersionDiff,
}
use intent_rebase.Engine.Diff.Keyed.{Change, added, removed, modified, changes, before_of, after_of}
use intent_rebase.Engine.Diff.Order.{clause_id_le, text_le, action_le}
use intent_rebase.Engine.Diff.Scope.{diff_scope}

abbrev pub change_type_of : {A : Type 0} → Change A → ChangeType
change_type_of (added a) = ChangeType.added
change_type_of (removed b) = ChangeType.removed
change_type_of (modified b a) = ChangeType.modified

-- The item that an entry is labelled by: the one before where there is one.
abbrev pub label_of : {A : Type 0} → Change A → A
label_of (added a) = a
label_of (removed b) = b
label_of (modified b a) = b

-- What the items are matched by.
abbrev pub constraint_key : Constraint → Option ℕ
constraint_key c = c.clause_id

abbrev pub criterion_key : AcceptanceCriterion → Option ℕ
criterion_key c = c.clause_id

abbrev pub action_key : ActionRef → Option (String × Option String)
action_key a = some (a.action, a.target)

abbrev pub rule_key : ApprovalRuleRef → Option String
rule_key a = some a.rule_id

abbrev option_text_eq : Option String → Option String → Bool
option_text_eq = option_eq.beq

abbrev pub constraints_equal : Constraint → Constraint → Bool
constraints_equal a b =
    str_eq a.key b.key
    && operator_eq a.operator b.operator
    && a.value == b.value
    && clause_type_eq a.constraint_type b.constraint_type
    && priority_eq a.priority b.priority
    && option_text_eq a.rationale b.rationale

abbrev pub constraint_diff : Change Constraint → ConstraintDiff
constraint_diff c = record {
  clause_id = (label_of c).clause_id;
  change_type = change_type_of c;
  constraint_type = (label_of c).constraint_type;
  key = (label_of c).key;
  after = after_of c;
  before = before_of c;
}

unfoldable pub diff_constraints : List Constraint → List Constraint → List ConstraintDiff
diff_constraints before after =
    sort (λ x y. clause_id_le x.clause_id y.clause_id)
      (map constraint_diff (changes constraint_key constraints_equal before after))

unfoldable pub diff_constraints_section : IntentConstraints → IntentConstraints → ConstraintsDiff
diff_constraints_section before after = record {
  functional = diff_constraints before.functional after.functional;
  non_functional = diff_constraints before.non_functional after.non_functional;
  policy = diff_constraints before.policy after.policy;
  budget = diff_constraints before.budget after.budget;
  time = diff_constraints before.time after.time;
}

abbrev pub acceptance_criteria_equal : AcceptanceCriterion → AcceptanceCriterion → Bool
acceptance_criteria_equal a b =
    str_eq a.description b.description && priority_eq a.priority b.priority

-- `format!("{:?}", priority)`.
abbrev pub priority_text : ClausePriority → String
priority_text must = "Must"
priority_text should = "Should"
priority_text could = "Could"

abbrev pub criterion_diff : Change AcceptanceCriterion → AcceptanceCriterionDiff
criterion_diff c = record {
  clause_id = (label_of c).clause_id;
  change_type = change_type_of c;
  priority = priority_text (label_of c).priority;
  after = after_of c;
  before = before_of c;
}

unfoldable pub diff_acceptance_criteria :
    List AcceptanceCriterion → List AcceptanceCriterion → List AcceptanceCriterionDiff
diff_acceptance_criteria before after =
    sort (λ x y. clause_id_le x.clause_id y.clause_id)
      (map criterion_diff (changes criterion_key acceptance_criteria_equal before after))

unfoldable pub diff_acceptance_criteria_section :
    AcceptanceCriteria → AcceptanceCriteria → AcceptanceCriteriaDiff
diff_acceptance_criteria_section before after = record {
  required = diff_acceptance_criteria before.required after.required;
  optional = diff_acceptance_criteria before.optional after.optional;
}

abbrev pub action_refs_equal : ActionRef → ActionRef → Bool
action_refs_equal a b = str_eq a.action b.action && option_text_eq a.target b.target

abbrev pub action_ref_diff : Change ActionRef → ActionRefDiff
action_ref_diff c = record {
  change_type = change_type_of c;
  action = (label_of c).action;
  target = (label_of c).target;
  before = before_of c;
  after = after_of c;
}

unfoldable pub diff_action_refs : List ActionRef → List ActionRef → List ActionRefDiff
diff_action_refs before after =
    sort (λ x y. action_le (x.action, x.target) (y.action, y.target))
      (map action_ref_diff (changes action_key action_refs_equal before after))

abbrev pub approval_rules_equal : ApprovalRuleRef → ApprovalRuleRef → Bool
approval_rules_equal a b = str_eq a.rule_id b.rule_id && str_eq a.description b.description

abbrev pub approval_rule_diff : Change ApprovalRuleRef → ApprovalRuleDiff
approval_rule_diff c = record {
  change_type = change_type_of c;
  rule_id = (label_of c).rule_id;
  description = (label_of c).description;
  before = before_of c;
  after = after_of c;
}

unfoldable pub diff_approval_rules :
    List ApprovalRuleRef → List ApprovalRuleRef → List ApprovalRuleDiff
diff_approval_rules before after =
    sort (λ x y. text_le x.rule_id y.rule_id)
      (map approval_rule_diff (changes rule_key approval_rules_equal before after))

unfoldable pub diff_authority : IntentAuthority → IntentAuthority → AuthorityDiff
diff_authority before after = record {
  allowed_actions = diff_action_refs before.allowed_actions after.allowed_actions;
  forbidden_actions = diff_action_refs before.forbidden_actions after.forbidden_actions;
  approval_requirements =
      diff_approval_rules before.approval_requirements after.approval_requirements;
}

unfoldable pub diff_intent_version : IntentVersion → IntentVersion → IntentVersionDiff
diff_intent_version before after = record {
  scope = diff_scope before.payload.scope after.payload.scope;
  constraints = diff_constraints_section before.payload.constraints after.payload.constraints;
  acceptance_criteria =
      diff_acceptance_criteria_section before.payload.acceptance_criteria
        after.payload.acceptance_criteria;
  authority = diff_authority before.payload.authority after.payload.authority;
}
