-- ===== src/Engine/Risk/Counts.antt =====
-- What the loops over the lists of a diff count.
use intent_rebase.Base.{
  ℕ, ◌+◌, String, ◌&&◌, List, [], ◌∷◌, length, total, fold_left, if◌then◌else◌, ◌≡◌, arith,
}
use intent_rebase.Engine.Diff.Types.{
  ChangeType, removed, modified, ConstraintDiff, AcceptanceCriterionDiff, ActionRefDiff,
  ApprovalRuleDiff,
}
use intent_rebase.Engine.Risk.Types.{MatchingStats}
use intent_rebase.Engine.Risk.Rules.{
  Tally, is_some, change_type_eq, tally_of, constraint_turn, criterion_turn, action_ref_turn,
  approval_rule_turn, analyze_constraint_category, analyze_acceptance_criterion_category,
  analyze_action_refs_risk, analyze_approval_rules_risk,
}

abbrev pub removal : ChangeType → ℕ
removal t = if change_type_eq t removed then 1 else 0

rule_removals :
    (t : Tally) (ds : List ApprovalRuleDiff)
    → (fold_left approval_rule_turn t ds).stats.removed
      ≡ t.stats.removed + total (λ d. removal d.change_type) ds
rule_removals t [] = omega arith
rule_removals t (d ∷ ds) = ground (arith, rule_removals (approval_rule_turn t d) ds)

action_removals :
    (name : String) (t : Tally) (ds : List ActionRefDiff)
    → (fold_left (action_ref_turn name) t ds).stats.removed
      ≡ t.stats.removed + total (λ d. removal d.change_type) ds
action_removals name t [] = omega arith
action_removals name t (d ∷ ds) = ground (arith, action_removals name (action_ref_turn name t d) ds)

-- The three kinds of match together.
abbrev pub classed : MatchingStats → ℕ
classed s = s.unique_clause_id_match + s.ambiguous_match + s.no_match

-- Every change is in one class, and the total is the number of the changes.
abbrev pub Adds : ℕ → MatchingStats → Type 0
Adds n s = (classed s ≡ n) × (s.total_changes ≡ n)

constraint_classed :
    (t : Tally) (ds : List ConstraintDiff)
    → (classed (fold_left constraint_turn t ds).stats ≡ classed t.stats + length ds)
      × ((fold_left constraint_turn t ds).stats.total_changes ≡ t.stats.total_changes)
constraint_classed t [] = omega arith
constraint_classed t (d ∷ ds) = ground (arith, constraint_classed (constraint_turn t d) ds)

criterion_classed :
    (t : Tally) (ds : List AcceptanceCriterionDiff)
    → (classed (fold_left criterion_turn t ds).stats ≡ classed t.stats + length ds)
      × ((fold_left criterion_turn t ds).stats.total_changes ≡ t.stats.total_changes)
criterion_classed t [] = omega arith
criterion_classed t (d ∷ ds) = ground (arith, criterion_classed (criterion_turn t d) ds)

rule_classed :
    (t : Tally) (ds : List ApprovalRuleDiff)
    → (classed (fold_left approval_rule_turn t ds).stats ≡ classed t.stats + length ds)
      × ((fold_left approval_rule_turn t ds).stats.total_changes ≡ t.stats.total_changes)
rule_classed t [] = omega arith
rule_classed t (d ∷ ds) = ground (arith, rule_classed (approval_rule_turn t d) ds)

-- An entry with both Sides that is no modification is in no class.
abbrev pub unclassed : ActionRefDiff → ℕ
unclassed d =
    if change_type_eq d.change_type modified
    then 0
    else if is_some d.before && is_some d.after
    then 1
    else 0

action_classed :
    (name : String) (t : Tally) (ds : List ActionRefDiff)
    → (classed (fold_left (action_ref_turn name) t ds).stats + total unclassed ds
        ≡ classed t.stats + length ds)
      × ((fold_left (action_ref_turn name) t ds).stats.total_changes ≡ t.stats.total_changes)
action_classed name t [] = omega arith
action_classed name t (d ∷ ds) = ground (arith, action_classed name (action_ref_turn name t d) ds)

pub constraint_category-Adds :
    (name : String) (ds : List ConstraintDiff)
    → Adds (length ds) (analyze_constraint_category name ds).1
unfolding analyze_constraint_category
constraint_category-Adds name ds = omega (arith, constraint_classed (tally_of (length ds)) ds)

pub criterion_category-Adds :
    (name : String) (ds : List AcceptanceCriterionDiff)
    → Adds (length ds) (analyze_acceptance_criterion_category name ds).1
unfolding analyze_acceptance_criterion_category
criterion_category-Adds name ds = omega (arith, criterion_classed (tally_of (length ds)) ds)

pub rules-Adds : (ds : List ApprovalRuleDiff) → Adds (length ds) (analyze_approval_rules_risk ds).1
unfolding analyze_approval_rules_risk
rules-Adds ds = omega (arith, rule_classed (tally_of (length ds)) ds)

pub actions-Adds :
    (name : String) (ds : List ActionRefDiff)
    → total unclassed ds ≡ 0
    → Adds (length ds) (analyze_action_refs_risk name ds).1
unfolding analyze_action_refs_risk
actions-Adds name ds h = ground (arith, action_classed name (tally_of (length ds)) ds)

pub rules_removed :
    (ds : List ApprovalRuleDiff)
    → (analyze_approval_rules_risk ds).1.removed ≡ total (λ d. removal d.change_type) ds
unfolding analyze_approval_rules_risk
rules_removed ds = omega (arith, rule_removals (tally_of (length ds)) ds)

pub actions_removed :
    (name : String) (ds : List ActionRefDiff)
    → (analyze_action_refs_risk name ds).1.removed ≡ total (λ d. removal d.change_type) ds
unfolding analyze_action_refs_risk
actions_removed name ds = omega (arith, action_removals name (tally_of (length ds)) ds)
