-- ===== src/Engine/Plan/Trivial.antt =====
-- A new version with the same content has nothing to rebase.
use Prim.Native.Nat.{Ordering}
use Prim.Native.String.{compare}
use intent_rebase.Base.{
  ℕ, zero, suc, String, true, List, [], ◌∷◌, sort, length, str_eq_iff, option_eq, option_beq_iff,
  pair_eq, string_eq, nat_eq, ok, ◌+◌, ◌≡◌, refl, sym, arith, subst,
}
use intent_rebase.Engine.Types.{
  IntentVersion, IntentPayload, Constraint, AcceptanceCriterion, ActionRef, ApprovalRuleRef,
  ClauseType, ConstraintOperator, ClausePriority, clause_type_eq, operator_eq, priority_eq,
}
use intent_rebase.Engine.Diff.Types.{IntentVersionDiff}
use intent_rebase.Engine.Diff.Keyed.{ambiguous}
use intent_rebase.Engine.Diff.Unchanged.{changes_none}
use intent_rebase.Engine.Diff.Scope.{Walk, walk_turn, walk, walked, diff_string_lists, diff_scope}
use intent_rebase.Engine.Diff.Defs.{
  constraints_equal, constraint_key, diff_constraints, acceptance_criteria_equal, criterion_key,
  diff_acceptance_criteria, action_refs_equal, action_key, diff_action_refs, approval_rules_equal,
  rule_key, diff_approval_rules, diff_constraints_section, diff_acceptance_criteria_section,
  diff_authority, diff_intent_version,
}
use intent_rebase.Engine.Diff.Order.{text_le}
use intent_rebase.Engine.Risk.Types.{Float}
use intent_rebase.Engine.Plan.Types.{a, RebasePlan}
use intent_rebase.Engine.Plan.Defs.{is_diff_empty}
use intent_rebase.Engine.Plan.Build.{from_diff_and_risk}
use intent_rebase.Engine.Plan.Classes.{plan_levels}
use intent_rebase.Engine.Plan.Escalation.{compute_diff-ok, generate_plan-ok}
use intent_rebase.Engine.Facade.{risk_of, compute_diff, generate_plan}

constraints_equal_refl : (b : Constraint) → constraints_equal b b ≡ true
constraints_equal_refl b =
    rw
      (
        (str_eq_iff b.key b.key).1 refl,
        operator_eq_refl b.operator,
        (nat_eq.beq_iff b.value b.value).1 refl,
        clause_type_eq_refl b.constraint_type,
        priority_eq_refl b.priority,
        (option_beq_iff b.rationale b.rationale).1 refl,
      )
      refl
  where
    operator_eq_refl : (o : ConstraintOperator) → operator_eq o o ≡ true
    operator_eq_refl o = ground arith

    clause_type_eq_refl : (t : ClauseType) → clause_type_eq t t ≡ true
    clause_type_eq_refl t = ground arith

    priority_eq_refl : (p : ClausePriority) → priority_eq p p ≡ true
    priority_eq_refl p = ground arith

criteria_equal_refl : (b : AcceptanceCriterion) → acceptance_criteria_equal b b ≡ true
criteria_equal_refl b = ground (arith, str_eq_iff b.description b.description)

actions_equal_refl : (b : ActionRef) → action_refs_equal b b ≡ true
actions_equal_refl b =
    ground (arith, str_eq_iff b.action b.action, option_beq_iff b.target b.target)

rules_equal_refl : (b : ApprovalRuleRef) → approval_rules_equal b b ≡ true
rules_equal_refl b =
    ground (arith, str_eq_iff b.rule_id b.rule_id, str_eq_iff b.description b.description)

constraints_none :
    (xs : List Constraint) → ambiguous constraint_key xs ≡ [] → diff_constraints xs xs ≡ []
unfolding diff_constraints
constraints_none xs h =
    rw (changes_none constraint_key constraints_equal constraints_equal_refl xs h) refl

criteria_none :
    (xs : List AcceptanceCriterion)
    → ambiguous criterion_key xs ≡ []
    → diff_acceptance_criteria xs xs ≡ []
unfolding diff_acceptance_criteria
criteria_none xs h =
    rw (changes_none criterion_key acceptance_criteria_equal criteria_equal_refl xs h) refl

actions_none : (xs : List ActionRef) → ambiguous action_key xs ≡ [] → diff_action_refs xs xs ≡ []
unfolding diff_action_refs
actions_none xs h = rw (changes_none action_key action_refs_equal actions_equal_refl xs h) refl

rules_none :
    (xs : List ApprovalRuleRef) → ambiguous rule_key xs ≡ [] → diff_approval_rules xs xs ≡ []
unfolding diff_approval_rules
rules_none xs h = rw (changes_none rule_key approval_rules_equal rules_equal_refl xs h) refl

abbrev same_walk : List String → Walk
same_walk xs = record { before = xs; after = xs; added = []; removed = [] }

compare_same : (s : String) → compare s s ≡ Ordering.eq
compare_same s = ground (arith, str_eq_iff s s)

turn_same : (x : String) (xs : List String) → walk_turn (same_walk (x ∷ xs)) ≡ same_walk xs
turn_same x xs = rw (compare_same x) refl

-- A walk along one list finds nothing.
walk_same :
    (n : ℕ) (xs : List String)
    → ((walk n (same_walk xs)).added ≡ []) × ((walk n (same_walk xs)).removed ≡ [])
unfolding walk
walk_same zero xs = (refl, refl)
walk_same (suc n) [] = walk_same n []
walk_same (suc n) (x ∷ xs) = rw (turn_same x xs, walk) (walk_same n xs)

texts_none :
    (xs : List String)
    → ((diff_string_lists xs xs).added ≡ []) × ((diff_string_lists xs xs).removed ≡ [])
unfolding diff_string_lists walked
texts_none xs = walk_same (length xs + length xs) (sort text_le xs)

-- Each constraint and criterion has a clause identifier of its own in its list, each action and
-- each rule stands once in its list.
pub record IsKeyed (p : IntentPayload) : Type 0 where
  pub functional : ambiguous constraint_key p.constraints.functional ≡ []
  pub non_functional : ambiguous constraint_key p.constraints.non_functional ≡ []
  pub policy : ambiguous constraint_key p.constraints.policy ≡ []
  pub budget : ambiguous constraint_key p.constraints.budget ≡ []
  pub time : ambiguous constraint_key p.constraints.time ≡ []
  pub required : ambiguous criterion_key p.acceptance_criteria.required ≡ []
  pub optional : ambiguous criterion_key p.acceptance_criteria.optional ≡ []
  pub allowed : ambiguous action_key p.authority.allowed_actions ≡ []
  pub forbidden : ambiguous action_key p.authority.forbidden_actions ≡ []
  pub rules : ambiguous rule_key p.authority.approval_requirements ≡ []

diff_empty :
    (from to : IntentVersion)
    → from.payload ≡ to.payload
    → IsKeyed from.payload
    → is_diff_empty (diff_intent_version from to) ≡ true
unfolding diff_intent_version diff_scope diff_constraints_section diff_acceptance_criteria_section
    diff_authority is_diff_empty
diff_empty from to same k =
    let p = from.payload in
    let in_scope = texts_none p.scope.in_scope in
    let out_of_scope = texts_none p.scope.out_of_scope in
    rw
      (
        sym same,
        in_scope.0,
        in_scope.1,
        out_of_scope.0,
        out_of_scope.1,
        constraints_none p.constraints.functional k.functional,
        constraints_none p.constraints.non_functional k.non_functional,
        constraints_none p.constraints.policy k.policy,
        constraints_none p.constraints.budget k.budget,
        constraints_none p.constraints.time k.time,
        criteria_none p.acceptance_criteria.required k.required,
        criteria_none p.acceptance_criteria.optional k.optional,
        actions_none p.authority.allowed_actions k.allowed,
        actions_none p.authority.forbidden_actions k.forbidden,
        rules_none p.authority.approval_requirements k.rules,
      )
      refl

-- A later version with the same four sections, in which every item has a key of its own, has
-- nothing to rebase: the plan is of class A with the risk level 1.
pub unchanged_class_a :
    (W : Type 0) ⦃f : Float W⦄ (from to : IntentVersion) (diff : IntentVersionDiff)
    (plan : RebasePlan)
    → compute_diff from to ≡ ok diff
    → generate_plan W diff ≡ ok plan
    → from.payload ≡ to.payload
    → IsKeyed from.payload
    → (plan.decision_class ≡ a) × (plan.risk_level ≡ 1)
unfolding from_diff_and_risk
unchanged_class_a W from to diff plan made planned same keyed =
    let d = diff_intent_version from to in
    let levels = plan_levels d (risk_of {W = W} d) in
    let class = levels.4.1 (diff_empty from to same keyed) in
    subst (λ p. (p.decision_class ≡ a) × (p.risk_level ≡ 1)) (generate_plan-ok W diff plan planned)
      (subst
        (λ x.
          let p = from_diff_and_risk x (risk_of {W = W} x) in
          (p.decision_class ≡ a) × (p.risk_level ≡ 1))
        (compute_diff-ok from to diff made) (class, levels.2.1 class))
