-- ===== src/Engine/Diff/Sections.antt =====
-- The diffs of the lists of constraints, criteria, actions and rules account for every item.
use intent_rebase.Base.{
  ℕ, ◌+◌, Bool, true, false, ◌&&◌, Option, none, some, List, ◌==◌, ==_iff, str_eq, str_eq_iff,
  option_eq, pair_eq, string_eq, nat_eq, total, measure, ◌≡◌, refl, ap, arith, option_beq_iff,
}
use intent_rebase.Engine.Types.{
  Constraint, AcceptanceCriterion, ActionRef, ApprovalRuleRef, ClauseType, ConstraintOperator,
  ClausePriority, clause_type_eq, operator_eq, priority_eq,
}
use intent_rebase.Engine.Diff.Matching.{same_key}
use intent_rebase.Engine.Diff.Conservation.{entries_conserve}
use intent_rebase.Engine.Diff.Order.{clause_id_le, text_le, action_le}
use intent_rebase.Engine.Diff.Defs.{
  constraints_equal, constraint_diff, constraint_key, diff_constraints, acceptance_criteria_equal,
  criterion_diff, criterion_key, diff_acceptance_criteria, action_refs_equal, action_ref_diff,
  action_key, diff_action_refs, approval_rules_equal, approval_rule_diff, rule_key,
  diff_approval_rules,
}

clause_type_eq_sound : (a b : ClauseType) → clause_type_eq a b ≡ true → a ≡ b
clause_type_eq_sound a b h = ground arith

operator_eq_sound : (a b : ConstraintOperator) → operator_eq a b ≡ true → a ≡ b
operator_eq_sound a b h = ground arith

priority_eq_sound : (a b : ClausePriority) → priority_eq a b ≡ true → a ≡ b
priority_eq_sound a b h = ground arith

-- Two identifiers that the matching takes for one.
has_key-same :
    (j k : Option ℕ)
    → (elim j [ none ↦ false | some x ↦ elim k [ none ↦ false | some y ↦ y == x ] ]) ≡ true
    → j ≡ k
has_key-same none k h = ground arith
has_key-same (some x) none h = ground arith
has_key-same (some x) (some y) h = ground arith

all_six :
    (a b c d e f : Bool)
    → (a && b && c && d && e && f) ≡ true
    → a ≡ true × b ≡ true × c ≡ true × d ≡ true × e ≡ true × f ≡ true
all_six a b c d e f h = ground arith

-- Equal items of one key are the same item: the key is the only part that the test leaves out.
constraint_determined :
    (b a : Constraint) → same_key constraint_key b a ≡ true → constraints_equal b a ≡ true → b ≡ a
constraint_determined b a same h =
    let t =
      all_six (str_eq b.key a.key) (operator_eq b.operator a.operator) (b.value == a.value)
        (clause_type_eq b.constraint_type a.constraint_type) (priority_eq b.priority a.priority)
        (option_eq.beq b.rationale a.rationale) h in
    λ i. record {
      clause_id = has_key-same b.clause_id a.clause_id same i;
      constraint_type = clause_type_eq_sound b.constraint_type a.constraint_type t.3 i;
      key = (str_eq_iff b.key a.key).0 t.0 i;
      operator = operator_eq_sound b.operator a.operator t.1 i;
      value = (==_iff b.value a.value).0 t.2 i;
      rationale = (option_beq_iff b.rationale a.rationale).0 t.5 i;
      priority = priority_eq_sound b.priority a.priority t.4 i;
    }

criterion_determined :
    (b a : AcceptanceCriterion)
    → same_key criterion_key b a ≡ true
    → acceptance_criteria_equal b a ≡ true
    → b ≡ a
criterion_determined b a same h = ground (
  arith,
  has_key-same b.clause_id a.clause_id same,
  str_eq_iff b.description a.description,
  priority_eq_sound b.priority a.priority,
)

action_determined : (b a : ActionRef) → action_refs_equal b a ≡ true → b ≡ a
action_determined b a h =
    ground (arith, str_eq_iff b.action a.action, option_beq_iff b.target a.target)

rule_determined : (b a : ApprovalRuleRef) → approval_rules_equal b a ≡ true → b ≡ a
rule_determined b a h =
    ground (arith, str_eq_iff b.rule_id a.rule_id, str_eq_iff b.description a.description)

-- Every measure of the constraints after the change and of those that the entries of diff_constraints take
-- away adds up to that of the constraints before it and of those that the entries bring: no item is
-- lost and none is invented, whatever keys are missing or repeated.
pub diff_constraints_conserve :
    (p : Constraint → ℕ) (before after : List Constraint)
    → let ds = diff_constraints before after in
      total p after + total (λ d. measure p d.before) ds
      ≡ total p before + total (λ d. measure p d.after) ds
unfolding diff_constraints
diff_constraints_conserve p before after =
    entries_conserve constraint_key constraints_equal p constraint_diff
      (λ x y. clause_id_le x.clause_id y.clause_id) (λ d. d.before) (λ d. d.after) (λ c. refl)
      (λ c. refl) before after (λ b a same equal. ap p (constraint_determined b a same equal))

-- Every measure of the criteria after the change and of those that the entries of diff_acceptance_criteria take
-- away adds up to that of the criteria before it and of those that the entries bring: no item is
-- lost and none is invented, whatever keys are missing or repeated.
pub diff_acceptance_criteria_conserve :
    (p : AcceptanceCriterion → ℕ) (before after : List AcceptanceCriterion)
    → let ds = diff_acceptance_criteria before after in
      total p after + total (λ d. measure p d.before) ds
      ≡ total p before + total (λ d. measure p d.after) ds
unfolding diff_acceptance_criteria
diff_acceptance_criteria_conserve p before after =
    entries_conserve criterion_key acceptance_criteria_equal p criterion_diff
      (λ x y. clause_id_le x.clause_id y.clause_id) (λ d. d.before) (λ d. d.after) (λ c. refl)
      (λ c. refl) before after (λ b a same equal. ap p (criterion_determined b a same equal))

-- Every measure of the actions after the change and of those that the entries of diff_action_refs take
-- away adds up to that of the actions before it and of those that the entries bring: no item is
-- lost and none is invented, whatever keys are missing or repeated.
pub diff_action_refs_conserve :
    (p : ActionRef → ℕ) (before after : List ActionRef)
    → let ds = diff_action_refs before after in
      total p after + total (λ d. measure p d.before) ds
      ≡ total p before + total (λ d. measure p d.after) ds
unfolding diff_action_refs
diff_action_refs_conserve p before after =
    entries_conserve action_key action_refs_equal p action_ref_diff
      (λ x y. action_le (x.action, x.target) (y.action, y.target)) (λ d. d.before) (λ d. d.after)
      (λ c. refl) (λ c. refl) before after (λ b a same equal. ap p (action_determined b a equal))

-- Every measure of the rules after the change and of those that the entries of diff_approval_rules take
-- away adds up to that of the rules before it and of those that the entries bring: no item is
-- lost and none is invented, whatever keys are missing or repeated.
pub diff_approval_rules_conserve :
    (p : ApprovalRuleRef → ℕ) (before after : List ApprovalRuleRef)
    → let ds = diff_approval_rules before after in
      total p after + total (λ d. measure p d.before) ds
      ≡ total p before + total (λ d. measure p d.after) ds
unfolding diff_approval_rules
diff_approval_rules_conserve p before after =
    entries_conserve rule_key approval_rules_equal p approval_rule_diff
      (λ x y. text_le x.rule_id y.rule_id) (λ d. d.before) (λ d. d.after) (λ c. refl) (λ c. refl)
      before after (λ b a same equal. ap p (rule_determined b a equal))
