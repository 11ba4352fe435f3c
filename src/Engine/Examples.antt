-- ===== src/Engine/Examples.antt =====
-- Two versions of an intent, and the theorems of the engine at them. A float is a number of
-- thousandths.
use Prim.Native.Nat.{◌/◌, ◌^◌, min, max}
use intent_rebase.Base.{
  ℕ, ◌*◌, ◌+◌, String, true, Option, none, some, List, [], ◌∷◌, ok, ltb, leb, ◌≡◌, refl, ◌↔◌, ◌≢◌,
  ◌⊎◌, ◌≤◌, All, map,
}
use intent_rebase.Engine.Types.{
  IntentVersion, ChangeChannel, VersionStatus, IntentPayload, Constraint, ActionRef,
  ApprovalRuleRef, ClauseType, ConstraintOperator, ClausePriority, RiskTier,
}
use intent_rebase.Engine.Diff.Types.{IntentVersionDiff}
use intent_rebase.Engine.Diff.Defs.{diff_intent_version}
use intent_rebase.Engine.Diff.Version.{diff_intent_version_conserve, Conserved}
use intent_rebase.Engine.Risk.Types.{Float, RiskConfig, Severity, rank}
use intent_rebase.Engine.Risk.Analysis.{analyze_diff_risk_with_config}
use intent_rebase.Engine.Risk.Severity.{severity_greatest, severities, Attained}
use intent_rebase.Engine.Risk.Accounting.{diff-Accounted, Accounted}
use intent_rebase.Engine.Plan.Classes.{plan_levels}
use intent_rebase.Engine.Plan.Sections.{sections_agree}
use intent_rebase.Engine.Plan.Trivial.{unchanged_class_a, IsKeyed}
use intent_rebase.Engine.Plan.Escalation.{is_rule}
use intent_rebase.Engine.Plan.Defs.{is_diff_empty}
use intent_rebase.Engine.Revalidation.{classify_approvals, classify_approvals_lem, contains}
use intent_rebase.Engine.Plan.Types.{RebasePlan, a, d, e, drop}
use intent_rebase.Engine.Plan.Build.{from_diff_and_risk, compute_section_decisions}
use intent_rebase.Engine.Facade.{risk_of, compute_diff, generate_plan}

instance abbrev pub thousandths : Float ℕ
thousandths = record {
  of_usize = λ n. n * 1000;
  decimal = λ m n. m * 1000 / (10 ^ n);
  add = λ x y. x + y;
  mul = λ x y. x * y / 1000;
  div = λ x y. x * 1000 / y;
  clamp = λ x low high. max low (min x high);
  lt = ltb;
  ge = λ x y. leb y x;
}

abbrev rule : String → ApprovalRuleRef
rule id = record { rule_id = id; description = "two reviewers" }

abbrev constraint_at : Option ℕ → String → ℕ → Constraint
constraint_at id key value = record {
  clause_id = id;
  constraint_type = ClauseType.policy;
  key = key;
  operator = ConstraintOperator.lte;
  value = value;
  rationale = none;
  priority = ClausePriority.should;
}

abbrev action : String → ActionRef
action name = record { action = name; target = some "prod" }

abbrev payload_of :
    List String → List Constraint → List ActionRef → List ApprovalRuleRef → IntentPayload
payload_of scope policy forbidden rules = record {
  scope = record { in_scope = scope; out_of_scope = [] };
  constraints = record {
    functional = [];
    non_functional = [];
    policy = policy;
    budget = [];
    time = [];
  };
  acceptance_criteria = record {
    required =
        record { clause_id = some 4; description = "green"; priority = ClausePriority.must } ∷ [];
    optional = [];
  };
  authority = record {
    allowed_actions = action "deploy" ∷ [];
    forbidden_actions = forbidden;
    approval_requirements = rules;
  };
}

abbrev version_of : ℕ → IntentPayload → IntentVersion
version_of n payload = record {
  id = 100 + n;
  intent_id = 7;
  version_number = n;
  parent_version_id = none;
  created_at = 50 + n;
  created_by = record { actor_type = "user"; actor_id = "u1" };
  change_reason = "edit";
  change_channel = ChangeChannel.user_edit;
  status = VersionStatus.active;
  hash = "h";
  payload = payload;
}

abbrev pub first_payload : IntentPayload
first_payload =
    payload_of ("api" ∷ "web" ∷ []) (constraint_at (some 1) "retention" 30 ∷ [])
      (action "drop" ∷ []) (rule "r1" ∷ rule "r2" ∷ [])

abbrev pub first : IntentVersion
first = version_of 1 first_payload

-- Without the rule "r1", with another value of the policy and another scope.
abbrev pub second : IntentVersion
second = version_of 2 (
    payload_of ("web" ∷ "cli" ∷ []) (constraint_at (some 1) "retention" 90 ∷ [])
      (action "drop" ∷ []) (rule "r2" ∷ []))

abbrev pub renewed : IntentVersion
renewed = version_of 2 first_payload

abbrev pub first_diff : IntentVersionDiff
first_diff = diff_intent_version first second

abbrev pub first_plan : RebasePlan
first_plan = from_diff_and_risk first_diff (risk_of {W = ℕ} first_diff)

pub first_made : compute_diff first second ≡ ok first_diff
unfolding compute_diff
first_made = refl

pub first_planned : generate_plan ℕ first_diff ≡ ok first_plan
unfolding generate_plan
first_planned = refl

diff_intent_version_conserve_example :
    Conserved first second (λ t. 1) (λ c. c.value) (λ c. 1) (λ x. 1) (is_rule "r1")
diff_intent_version_conserve_example =
    diff_intent_version_conserve first second (λ t. 1) (λ c. c.value) (λ c. 1) (λ x. 1)
      (is_rule "r1")

abbrev one : String → ℕ
one t = 1

diff-Accounted_example : Accounted first_diff
diff-Accounted_example = diff-Accounted first second

abbrev first_sections : List (String × Severity)
first_sections =
    severities first_diff.scope first_diff.constraints first_diff.acceptance_criteria
      first_diff.authority

abbrev strict : RiskConfig ℕ
strict = record { confidence_threshold = 900; max_high_severity_before_manual_review = 1 }

severity_greatest_example :
    let s =
      (analyze_diff_risk_with_config first_diff.scope first_diff.constraints
        first_diff.acceptance_criteria first_diff.authority strict).severity in
    All (λ x. rank x.1 ≤ rank s) first_sections × Attained s first_sections
severity_greatest_example =
    severity_greatest first_diff.scope first_diff.constraints first_diff.acceptance_criteria
      first_diff.authority strict

plan_levels_example :
    (1 ≤ first_plan.risk_level)
    × (first_plan.risk_level ≤ 5)
    × ((first_plan.risk_level ≡ 1) ↔ (first_plan.decision_class ≡ a))
    × ((first_plan.risk_level ≡ 5) ↔ (first_plan.decision_class ≡ e))
    × ((first_plan.decision_class ≡ a) ↔ (is_diff_empty first_diff ≡ true))
plan_levels_example = plan_levels first_diff (risk_of {W = ℕ} first_diff)

sections_agree_example :
    map (λ x. x.section) (compute_section_decisions first_diff)
    ≡ map (λ x. x.section) (risk_of {W = ℕ} first_diff).section_risks
sections_agree_example = sections_agree ℕ first second

abbrev renewed_diff : IntentVersionDiff
renewed_diff = diff_intent_version first renewed

abbrev renewed_plan : RebasePlan
renewed_plan = from_diff_and_risk renewed_diff (risk_of {W = ℕ} renewed_diff)

first_IsKeyed : IsKeyed first_payload
first_IsKeyed = record {
  functional = refl;
  non_functional = refl;
  policy = refl;
  budget = refl;
  time = refl;
  required = refl;
  optional = refl;
  allowed = refl;
  forbidden = refl;
  rules = refl;
}

renewed_made : compute_diff first renewed ≡ ok renewed_diff
unfolding compute_diff
renewed_made = refl

renewed_planned : generate_plan ℕ renewed_diff ≡ ok renewed_plan
unfolding generate_plan
renewed_planned = refl

unchanged_class_a_example : (renewed_plan.decision_class ≡ a) × (renewed_plan.risk_level ≡ 1)
unchanged_class_a_example =
    unchanged_class_a ℕ first renewed renewed_diff renewed_plan renewed_made renewed_planned refl
      first_IsKeyed

classify_approvals_lem_example :
    let r = classify_approvals first_plan (5 ∷ 6 ∷ []) in
    All (λ id. contains id (5 ∷ 6 ∷ []) ≡ true) r.stale_ids
    × (r.strategy ≢ drop)
    × ((r.requires_manual_review ≡ true) ↔ (
        (first_plan.decision_class ≡ e)
        ⊎ (first_plan.risk_tier ≡ RiskTier.critical)
        ⊎ ((first_plan.decision_class ≡ d) × (first_plan.risk_tier ≡ RiskTier.high))))
classify_approvals_lem_example = classify_approvals_lem first_plan (5 ∷ 6 ∷ [])
