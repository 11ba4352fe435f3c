-- ===== src/Engine/Risk/Rules.antt =====
-- The rules on each list of a diff (crates/rebase-engine/src/rules.rs): a severity and the
-- statistics of the matching.
use text.Mathlib.Text.{find?}
use intent_rebase.Base.{
  ℕ, suc, String, Bool, true, false, not, ◌&&◌, ◌||◌, Option, none, some, List, length, ltb,
  if◌then◌else◌, fold_left, is_empty, str_eq,
}
use intent_rebase.Engine.Types.{must, priority_eq, Constraint}
use intent_rebase.Engine.Diff.Types.{
  ChangeType, added, removed, modified, ConstraintDiff, AcceptanceCriterionDiff, ActionRefDiff,
  ApprovalRuleDiff,
}
use intent_rebase.Engine.Risk.Types.{
  Severity, low, medium, high, critical, raise, exceeds, MatchingStats, no_stats,
}

abbrev pub is_some : {A : Type 0} → Option A → Bool
is_some none = false
is_some (some a) = true

abbrev pub change_type_eq : ChangeType → ChangeType → Bool
change_type_eq added added = true
change_type_eq removed removed = true
change_type_eq modified modified = true
change_type_eq _ _ = false

abbrev pub counted : ℕ → MatchingStats
counted n = record no_stats { total_changes = n }

abbrev pub one_unique : MatchingStats → MatchingStats
one_unique s = record s { unique_clause_id_match = suc s.unique_clause_id_match }

abbrev pub one_ambiguous : MatchingStats → MatchingStats
one_ambiguous s = record s { ambiguous_match = suc s.ambiguous_match }

abbrev pub one_no_match : MatchingStats → MatchingStats
one_no_match s = record s { no_match = suc s.no_match }

abbrev pub one_removed : MatchingStats → MatchingStats
one_removed s = record s { removed = suc s.removed }

-- The locals of the loops.
pub record Tally : Type 0 where
  pub severity : Severity
  pub stats : MatchingStats
  pub high_priority_changes : ℕ

abbrev pub tally_of : ℕ → Tally
tally_of n = record { severity = low; stats = counted n; high_priority_changes = 0 }

abbrev is_must : Option Constraint → Bool
is_must none = false
is_must (some c) = priority_eq c.priority must

abbrev or_option : {A : Type 0} → Option A → Option A → Option A
or_option none b = b
or_option (some a) b = some a

abbrev pub compute_constraint_severity : ConstraintDiff → Severity
compute_constraint_severity d = elim d.change_type [
  | added ↦ if is_must d.after then high else medium
  | removed ↦ medium
  | modified ↦ if is_must d.after then high else medium
]

abbrev constraint_stats : ConstraintDiff → MatchingStats → MatchingStats
constraint_stats d s =
    if is_some d.clause_id && change_type_eq d.change_type modified
    then one_unique s
    else if not (is_some d.clause_id)
    then one_ambiguous s
    else if change_type_eq d.change_type added || change_type_eq d.change_type removed
    then one_no_match s
    else s

abbrev pub constraint_turn : Tally → ConstraintDiff → Tally
constraint_turn t d = record {
  severity = raise t.severity (compute_constraint_severity d);
  stats = constraint_stats d t.stats;
  high_priority_changes =
      if is_must (or_option d.before d.after)
      then suc t.high_priority_changes
      else t.high_priority_changes;
}

-- "Policy changes elevate to at least High", "Critical: policy changes with Must priority".
abbrev policy_severity : Bool → Bool → ℕ → Severity → Severity
policy_severity policy empty musts s =
    let s1 = if policy && not empty && exceeds high s then high else s in
    if policy && ltb 0 musts then critical else s1

unfoldable pub analyze_constraint_category : String → List ConstraintDiff → Severity × MatchingStats
analyze_constraint_category category_name diffs =
    let t = fold_left constraint_turn (tally_of (length diffs)) diffs in
    (
      policy_severity (str_eq category_name "policy") (is_empty diffs) t.high_priority_changes
          t.severity,
      t.stats,
    )

-- `text.contains(part)`.
abbrev text_contains : String → String → Bool
text_contains text part = is_some (find? text part)

abbrev pub compute_acceptance_criterion_severity : AcceptanceCriterionDiff → Severity
compute_acceptance_criterion_severity d = elim d.change_type [
  | added ↦ if text_contains d.priority "Must" then high else medium
  | removed ↦ medium
  | modified ↦ elim d.after [
    | none ↦ medium
    | some after ↦ if priority_eq after.priority must then high else medium
  ]
]

abbrev criterion_stats : AcceptanceCriterionDiff → MatchingStats → MatchingStats
criterion_stats d s =
    if is_some d.clause_id && change_type_eq d.change_type modified
    then one_unique s
    else if not (is_some d.clause_id)
    then one_ambiguous s
    else one_no_match s

abbrev pub criterion_turn : Tally → AcceptanceCriterionDiff → Tally
criterion_turn t d = record t {
  severity = raise t.severity (compute_acceptance_criterion_severity d);
  stats = criterion_stats d t.stats;
}

unfoldable pub analyze_acceptance_criterion_category :
    String → List AcceptanceCriterionDiff → Severity × MatchingStats
analyze_acceptance_criterion_category category_name diffs =
    let t = fold_left criterion_turn (tally_of (length diffs)) diffs in
    (
      if str_eq category_name "required" && not (is_empty diffs) && exceeds medium t.severity
          then medium
          else t.severity,
      t.stats,
    )

abbrev pub action_ref_severity : String → ChangeType → Severity
action_ref_severity section_name added = medium
action_ref_severity section_name removed =
    if str_eq section_name "forbidden_actions" then critical else high
action_ref_severity section_name modified = medium

abbrev action_ref_stats : ActionRefDiff → MatchingStats → MatchingStats
action_ref_stats d s =
    let s1 =
      if change_type_eq d.change_type modified
      then one_unique s
      else if not (is_some d.before) || not (is_some d.after)
      then one_no_match s
      else s in
    if change_type_eq d.change_type removed then one_removed s1 else s1

abbrev pub action_ref_turn : String → Tally → ActionRefDiff → Tally
action_ref_turn section_name t d = record t {
  severity = raise t.severity (action_ref_severity section_name d.change_type);
  stats = action_ref_stats d t.stats;
}

unfoldable pub analyze_action_refs_risk : String → List ActionRefDiff → Severity × MatchingStats
analyze_action_refs_risk section_name diffs =
    let t = fold_left (action_ref_turn section_name) (tally_of (length diffs)) diffs in
    (t.severity, t.stats)

abbrev pub approval_rule_severity : ChangeType → Severity
approval_rule_severity added = medium
approval_rule_severity removed = critical
approval_rule_severity modified = high

abbrev approval_rule_stats : ApprovalRuleDiff → MatchingStats → MatchingStats
approval_rule_stats d s =
    let s1 = if change_type_eq d.change_type modified then one_unique s else one_no_match s in
    if change_type_eq d.change_type removed then one_removed s1 else s1

abbrev pub approval_rule_turn : Tally → ApprovalRuleDiff → Tally
approval_rule_turn t d = record t {
  severity = raise t.severity (approval_rule_severity d.change_type);
  stats = approval_rule_stats d t.stats;
}

unfoldable pub analyze_approval_rules_risk : List ApprovalRuleDiff → Severity × MatchingStats
analyze_approval_rules_risk diffs =
    let t = fold_left approval_rule_turn (tally_of (length diffs)) diffs in (t.severity, t.stats)
