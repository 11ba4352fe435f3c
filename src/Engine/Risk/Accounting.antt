-- ===== src/Engine/Risk/Accounting.antt =====
-- The statistics of the matching account for the entries of a diff.
use intent_rebase.Base.{
  ℕ, ◌+◌, List, length, total, total_zero, refl, ◌≡◌, pair_eq, option_eq, string_eq, ◌∙◌, arith,
}
use intent_rebase.Engine.Types.{IntentVersion, ActionRef}
use intent_rebase.Engine.Diff.Types.{
  ScopeDiff, ConstraintsDiff, AcceptanceCriteriaDiff, AuthorityDiff, IntentVersionDiff,
}
use intent_rebase.Engine.Diff.Keyed.{Change, added, removed, modified, changes}
use intent_rebase.Engine.Diff.Conservation.{total-entries}
use intent_rebase.Engine.Diff.Order.{action_le}
use intent_rebase.Engine.Diff.Defs.{
  diff_intent_version, diff_authority, diff_action_refs, action_ref_diff, action_key,
  action_refs_equal,
}
use intent_rebase.Engine.Risk.Sections.{
  analyze_scope_risk, analyze_constraints_risk, analyze_acceptance_criteria_risk,
  analyze_authority_risk,
}
use intent_rebase.Engine.Risk.Counts.{
  Adds, unclassed, constraint_category-Adds, criterion_category-Adds, rules-Adds, actions-Adds,
}

abbrev pub scope_size : ScopeDiff → ℕ
scope_size d =
    length d.in_scope.added
    + length d.in_scope.removed
    + (length d.out_of_scope.added + length d.out_of_scope.removed)

abbrev pub constraints_size : ConstraintsDiff → ℕ
constraints_size d =
    length d.functional
    + length d.non_functional
    + length d.policy
    + length d.budget
    + length d.time

abbrev pub criteria_size : AcceptanceCriteriaDiff → ℕ
criteria_size d = length d.required + length d.optional

abbrev pub authority_size : AuthorityDiff → ℕ
authority_size d =
    length d.allowed_actions + length d.forbidden_actions + length d.approval_requirements

-- The entries that the diff of two lists of actions makes are all in a class.
actions_classed :
    (before after : List ActionRef) → total unclassed (diff_action_refs before after) ≡ 0
unfolding diff_action_refs
actions_classed before after =
    total-entries action_key action_refs_equal (λ a. 0) action_ref_diff
      (λ x y. action_le (x.action, x.target) (y.action, y.target)) unclassed (λ c. 0) before after
      entry_classed
    ∙ total_zero (λ c. 0) (changes action_key action_refs_equal before after) (λ c. refl)
  where
    entry_classed : (c : Change ActionRef) → unclassed (action_ref_diff c) ≡ 0
    entry_classed (added a) = refl
    entry_classed (removed b) = refl
    entry_classed (modified b a) = refl

scope-Adds : (d : ScopeDiff) → Adds (scope_size d) (analyze_scope_risk d).1
unfolding analyze_scope_risk
scope-Adds d = ground arith

constraints-Adds : (d : ConstraintsDiff) → Adds (constraints_size d) (analyze_constraints_risk d).1
unfolding analyze_constraints_risk
constraints-Adds d = omega (
  arith,
  constraint_category-Adds "functional" d.functional,
  constraint_category-Adds "non_functional" d.non_functional,
  constraint_category-Adds "policy" d.policy,
  constraint_category-Adds "budget" d.budget,
  constraint_category-Adds "time" d.time,
)

criteria-Adds :
    (d : AcceptanceCriteriaDiff) → Adds (criteria_size d) (analyze_acceptance_criteria_risk d).1
unfolding analyze_acceptance_criteria_risk
criteria-Adds d = omega (
  arith,
  criterion_category-Adds "required" d.required,
  criterion_category-Adds "optional" d.optional,
)

authority-Adds :
    (d : AuthorityDiff)
    → total unclassed d.allowed_actions ≡ 0
    → total unclassed d.forbidden_actions ≡ 0
    → Adds (authority_size d) (analyze_authority_risk d).1
unfolding analyze_authority_risk
authority-Adds d h k = omega (
  arith,
  actions-Adds "allowed_actions" d.allowed_actions h,
  actions-Adds "forbidden_actions" d.forbidden_actions k,
  rules-Adds d.approval_requirements,
)

abbrev pub Accounted : IntentVersionDiff → Type 0
Accounted d =
    Adds (scope_size d.scope) (analyze_scope_risk d.scope).1
    × Adds (constraints_size d.constraints) (analyze_constraints_risk d.constraints).1
    × Adds (criteria_size d.acceptance_criteria)
        (analyze_acceptance_criteria_risk d.acceptance_criteria).1
    × Adds (authority_size d.authority) (analyze_authority_risk d.authority).1

-- In the diff of any two versions, the statistics of each section count every entry, and count it
-- once: as a match by a unique key, as ambiguous or as without a match.
pub diff-Accounted : (before after : IntentVersion) → Accounted (diff_intent_version before after)
unfolding diff_intent_version diff_authority
diff-Accounted before after =
    let d = diff_intent_version before after in
    let b = before.payload.authority in
    let c = after.payload.authority in
    (
      scope-Adds d.scope,
      constraints-Adds d.constraints,
      criteria-Adds d.acceptance_criteria,
      authority-Adds d.authority (actions_classed b.allowed_actions c.allowed_actions)
          (actions_classed b.forbidden_actions c.forbidden_actions),
    )
