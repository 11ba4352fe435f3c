-- ===== src/Engine/Risk/Sections.antt =====
-- The risk of each section of a diff (crates/rebase-engine/src/rules.rs).
use intent_rebase.Base.{
  is_empty, ◌+◌, String, Bool, true, false, not, ◌&&◌, ◌||◌, Option, none, some, List, length, any,
  ltb, ◌==◌, if◌then◌else◌, fold_left,
}
use intent_rebase.Engine.Types.{Constraint, priority_eq}
use intent_rebase.Engine.Diff.Types.{
  removed, modified, ConstraintsDiff, AcceptanceCriteriaDiff, AuthorityDiff, ScopeDiff,
}
use intent_rebase.Engine.Risk.Types.{
  Severity, low, medium, high, critical, raise, exceeds, severity_eq, MatchingStats, no_stats,
}
use intent_rebase.Engine.Risk.Rules.{
  change_type_eq, counted, analyze_constraint_category, analyze_acceptance_criterion_category,
  analyze_action_refs_risk, analyze_approval_rules_risk,
}

-- `+=` on the statistics.
abbrev pub add_stats : MatchingStats → MatchingStats → MatchingStats
add_stats s t = record {
  total_changes = s.total_changes + t.total_changes;
  unique_clause_id_match = s.unique_clause_id_match + t.unique_clause_id_match;
  ambiguous_match = s.ambiguous_match + t.ambiguous_match;
  no_match = s.no_match + t.no_match;
  removed = s.removed + t.removed;
}

unfoldable pub analyze_scope_risk : ScopeDiff → Severity × MatchingStats
analyze_scope_risk d =
    let n =
      length d.in_scope.added
      + length d.in_scope.removed
      + (length d.out_of_scope.added + length d.out_of_scope.removed) in
    if n == 0
    then (low, counted n)
    else let s0 = if not (is_empty d.in_scope.added) then medium else low in
      let s1 = if not (is_empty d.in_scope.removed) then medium else s0 in
      (
        if not (is_empty d.out_of_scope.added) || not (is_empty d.out_of_scope.removed)
            then medium
            else s1,
        record (counted n) { ambiguous_match = n },
      )

-- The sum over the categories leaves the removals out.
abbrev add_matches : MatchingStats → MatchingStats → MatchingStats
add_matches s t = record (add_stats s t) { removed = s.removed }

abbrev pub combine : Severity × MatchingStats → Severity × MatchingStats → Severity × MatchingStats
combine (s, stats) (t, more) = (raise s t, add_matches stats more)

unfoldable pub analyze_constraints_risk : ConstraintsDiff → Severity × MatchingStats
analyze_constraints_risk d =
    combine
      (combine
        (combine
          (combine (combine (low, no_stats) (analyze_constraint_category "functional" d.functional))
            (analyze_constraint_category "non_functional" d.non_functional))
          (analyze_constraint_category "policy" d.policy))
        (analyze_constraint_category "budget" d.budget))
      (analyze_constraint_category "time" d.time)

unfoldable pub analyze_acceptance_criteria_risk : AcceptanceCriteriaDiff → Severity × MatchingStats
analyze_acceptance_criteria_risk d =
    combine (combine (low, no_stats) (analyze_acceptance_criterion_category "required" d.required))
      (analyze_acceptance_criterion_category "optional" d.optional)

-- `if test && overall < severity { overall = severity; }`.
abbrev at_least : Bool → Severity → Severity → Severity
at_least test severity overall = if test && exceeds severity overall then severity else overall

unfoldable pub analyze_authority_risk : AuthorityDiff → Severity × MatchingStats
analyze_authority_risk d =
    let (allowed_severity, allowed_stats) =
      analyze_action_refs_risk "allowed_actions" d.allowed_actions in
    let (forbidden_severity, forbidden_stats) =
      analyze_action_refs_risk "forbidden_actions" d.forbidden_actions in
    let (approval_severity, approval_stats) = analyze_approval_rules_risk d.approval_requirements in
    let stats =
      add_stats (add_stats (add_stats no_stats allowed_stats) forbidden_stats) approval_stats in
    let s1 = raise allowed_severity forbidden_severity in
    let s2 = at_least (ltb 0 forbidden_stats.removed) critical s1 in
    let s3 = raise s2 approval_severity in
    let s4 = at_least (ltb 0 approval_stats.removed) critical s3 in
    (at_least (ltb 0 stats.total_changes) high s4, stats)

unfoldable pub compute_overall_severity : List (String × Severity) → Severity
compute_overall_severity sections = fold_left (λ overall x. raise overall x.1) low sections

abbrev pub is_high : Severity → Bool
is_high s = severity_eq s high || severity_eq s critical

-- `priority` of an optional constraint, compared as `Option<&ClausePriority>`.
abbrev same_priority : Option Constraint → Option Constraint → Bool
same_priority none none = true
same_priority (some a) (some b) = priority_eq a.priority b.priority
same_priority _ _ = false

unfoldable pub policy_changed : ConstraintsDiff → Bool
policy_changed d =
    any (λ x. not (change_type_eq x.change_type modified) || not (same_priority x.before x.after))
      d.policy
    || not (is_empty d.policy)

unfoldable pub approval_removed : AuthorityDiff → Bool
approval_removed d = any (λ r. change_type_eq r.change_type removed) d.approval_requirements
