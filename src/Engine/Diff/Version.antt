-- ===== src/Engine/Diff/Version.antt =====
-- The diff of a version accounts for every item of the four sections.
use intent_rebase.Base.{ℕ, ◌+◌, String, List, Option, total, measure, ◌≡◌}
use intent_rebase.Engine.Types.{
  IntentVersion, Constraint, AcceptanceCriterion, ActionRef, ApprovalRuleRef,
}
use intent_rebase.Engine.Diff.Types.{
  ConstraintDiff, AcceptanceCriterionDiff, ActionRefDiff, ApprovalRuleDiff, ScopeItemsDiff,
}
use intent_rebase.Engine.Diff.Scope.{diff_scope}
use intent_rebase.Engine.Diff.ScopeConservation.{diff_string_lists_conserve}
use intent_rebase.Engine.Diff.Sections.{
  diff_constraints_conserve, diff_acceptance_criteria_conserve, diff_action_refs_conserve,
  diff_approval_rules_conserve,
}
use intent_rebase.Engine.Diff.Defs.{
  diff_intent_version, diff_constraints_section, diff_acceptance_criteria_section, diff_authority,
}

-- The measure of a list after the change and of what its entries take away adds up to that of the
-- list before it and of what its entries bring.
abbrev pub Balanced :
    {A D : Type 0} → (A → ℕ) → (D → Option A) → (D → Option A) → List A → List A → List D → Type 0
Balanced p bf af before after ds =
    total p after + total (λ d. measure p (bf d)) ds
    ≡ total p before + total (λ d. measure p (af d)) ds

abbrev pub BalancedTexts : (String → ℕ) → List String → List String → ScopeItemsDiff → Type 0
BalancedTexts p before after d =
    total p after + total p d.removed ≡ total p before + total p d.added

abbrev before_constraint : ConstraintDiff → Option Constraint
before_constraint d = d.before

abbrev after_constraint : ConstraintDiff → Option Constraint
after_constraint d = d.after

abbrev before_criterion : AcceptanceCriterionDiff → Option AcceptanceCriterion
before_criterion d = d.before

abbrev after_criterion : AcceptanceCriterionDiff → Option AcceptanceCriterion
after_criterion d = d.after

abbrev before_action : ActionRefDiff → Option ActionRef
before_action d = d.before

abbrev after_action : ActionRefDiff → Option ActionRef
after_action d = d.after

abbrev before_rule : ApprovalRuleDiff → Option ApprovalRuleRef
before_rule d = d.before

abbrev after_rule : ApprovalRuleDiff → Option ApprovalRuleRef
after_rule d = d.after

abbrev pub Conserved :
    IntentVersion
    → IntentVersion
    → (String → ℕ)
    → (Constraint → ℕ)
    → (AcceptanceCriterion → ℕ)
    → (ActionRef → ℕ)
    → (ApprovalRuleRef → ℕ)
    → Type 0
Conserved before after texts constraints criteria actions rules =
    let d = diff_intent_version before after in
    let b = before.payload in
    let c = after.payload in
    BalancedTexts texts b.scope.in_scope c.scope.in_scope d.scope.in_scope
    × BalancedTexts texts b.scope.out_of_scope c.scope.out_of_scope d.scope.out_of_scope
    × Balanced constraints before_constraint after_constraint b.constraints.functional
        c.constraints.functional d.constraints.functional
    × Balanced constraints before_constraint after_constraint b.constraints.non_functional
        c.constraints.non_functional d.constraints.non_functional
    × Balanced constraints before_constraint after_constraint b.constraints.policy
        c.constraints.policy d.constraints.policy
    × Balanced constraints before_constraint after_constraint b.constraints.budget
        c.constraints.budget d.constraints.budget
    × Balanced constraints before_constraint after_constraint b.constraints.time c.constraints.time
        d.constraints.time
    × Balanced criteria before_criterion after_criterion b.acceptance_criteria.required
        c.acceptance_criteria.required d.acceptance_criteria.required
    × Balanced criteria before_criterion after_criterion b.acceptance_criteria.optional
        c.acceptance_criteria.optional d.acceptance_criteria.optional
    × Balanced actions before_action after_action b.authority.allowed_actions
        c.authority.allowed_actions d.authority.allowed_actions
    × Balanced actions before_action after_action b.authority.forbidden_actions
        c.authority.forbidden_actions d.authority.forbidden_actions
    × Balanced rules before_rule after_rule b.authority.approval_requirements
        c.authority.approval_requirements d.authority.approval_requirements

-- Nothing is lost and nothing is invented by the diff of any two versions, whatever keys are missing
-- or repeated: for every measure of the items of each kind, and so for the number of times that any
-- one item stands in a list, the list after the change and what the entries take away add up to the
-- list before it and what the entries bring, in every list of the four sections.
pub diff_intent_version_conserve :
    (before after : IntentVersion) (texts : String → ℕ) (constraints : Constraint → ℕ)
    (criteria : AcceptanceCriterion → ℕ) (actions : ActionRef → ℕ) (rules : ApprovalRuleRef → ℕ)
    → Conserved before after texts constraints criteria actions rules
unfolding diff_intent_version diff_scope diff_constraints_section diff_acceptance_criteria_section
    diff_authority
diff_intent_version_conserve before after texts constraints criteria actions rules =
    let b = before.payload in
    let c = after.payload in
    let k = b.constraints in
    let l = c.constraints in
    let u = b.authority in
    let v = c.authority in
    (
      (diff_string_lists_conserve texts b.scope.in_scope c.scope.in_scope).0,
      (diff_string_lists_conserve texts b.scope.out_of_scope c.scope.out_of_scope).0,
      diff_constraints_conserve constraints k.functional l.functional,
      diff_constraints_conserve constraints k.non_functional l.non_functional,
      diff_constraints_conserve constraints k.policy l.policy,
      diff_constraints_conserve constraints k.budget l.budget,
      diff_constraints_conserve constraints k.time l.time,
      diff_acceptance_criteria_conserve criteria b.acceptance_criteria.required
          c.acceptance_criteria.required,
      diff_acceptance_criteria_conserve criteria b.acceptance_criteria.optional
          c.acceptance_criteria.optional,
      diff_action_refs_conserve actions u.allowed_actions v.allowed_actions,
      diff_action_refs_conserve actions u.forbidden_actions v.forbidden_actions,
      diff_approval_rules_conserve rules u.approval_requirements v.approval_requirements,
    )
