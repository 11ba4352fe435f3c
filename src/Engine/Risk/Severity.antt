-- ===== src/Engine/Risk/Severity.antt =====
-- How the severities of the sections rise, and what they make of the whole.
use intent_rebase.Base.{
  ◌+◌, ◌≤◌, ◌<◌, String, false, List, [], ◌∷◌, fold_left, ◌≡◌, refl, arith, is_empty, ◌⊎◌, inl, inr,
  All, sym, ◌∙◌,
}
use intent_rebase.Engine.Diff.Types.{
  ScopeDiff, ConstraintsDiff, AcceptanceCriteriaDiff, AuthorityDiff, ConstraintDiff,
}
use intent_rebase.Engine.Risk.Types.{Severity, low, critical, rank, raise, Float, RiskConfig}
use intent_rebase.Engine.Risk.Rules.{
  analyze_constraint_category, analyze_action_refs_risk, analyze_approval_rules_risk,
}
use intent_rebase.Engine.Risk.Sections.{
  analyze_scope_risk, analyze_constraints_risk, analyze_acceptance_criteria_risk,
  analyze_authority_risk, compute_overall_severity,
}
use intent_rebase.Engine.Risk.Analysis.{analyze_diff_risk_with_config}

pub rank-injective : (s t : Severity) → rank s ≡ rank t → s ≡ t
rank-injective s t h = ground arith

pub raise-rank : (s t : Severity) → (rank s ≤ rank (raise s t)) × (rank t ≤ rank (raise s t))
raise-rank s t = ground arith

-- The sections of an analysis, as it names them.
abbrev pub severities :
    ScopeDiff → ConstraintsDiff → AcceptanceCriteriaDiff → AuthorityDiff → List (String × Severity)
severities scope constraints criteria authority =
    ("scope", (analyze_scope_risk scope).0)
    ∷ ("constraints", (analyze_constraints_risk constraints).0)
    ∷ ("acceptance_criteria", (analyze_acceptance_criteria_risk criteria).0)
    ∷ ("authority", (analyze_authority_risk authority).0)
    ∷ []

-- A severity that one of the sections has, or the lowest where there is none.
abbrev pub Attained : Severity → List (String × Severity) → Type 0
Attained s [] = s ≡ low
Attained s (x ∷ xs) = (x.1 ≡ s) ⊎ Attained s xs

raise-cases : (s t : Severity) → (raise s t ≡ s) ⊎ (raise s t ≡ t)
raise-cases s t = ground arith

fold_greatest :
    (s : Severity) (xs : List (String × Severity))
    → let top = fold_left (λ overall x. raise overall x.1) s xs in
      (rank s ≤ rank top) × All (λ x. rank x.1 ≤ rank top) xs
fold_greatest s [] = (omega arith, tt)
fold_greatest s (x ∷ xs) =
    let rest = fold_greatest (raise s x.1) xs in
    (omega (arith, raise-rank s x.1, rest.0), (omega (arith, raise-rank s x.1, rest.0), rest.1))

fold-Attained :
    (s : Severity) (xs : List (String × Severity))
    → let top = fold_left (λ overall x. raise overall x.1) s xs in (top ≡ s) ⊎ Attained top xs
fold-Attained s [] = inl refl
fold-Attained s (x ∷ xs) = elim (fold-Attained (raise s x.1) xs) [
  | inr one ↦ inr (inr one)
  | inl e ↦ elim (raise-cases s x.1) [
    | inl old ↦ inl (e ∙ old)
    | inr new ↦ inr (inl (sym (e ∙ new)))
  ]
]

Attained-low : (xs : List (String × Severity)) → (s : Severity) → s ≡ low → Attained s xs
Attained-low [] s e = e
Attained-low (x ∷ xs) s e = inr (Attained-low xs s e)

-- The overall severity of the analysis is the greatest of the four sections: none exceeds it, and
-- one of them has it.
pub severity_greatest :
    {W : Type 0} ⦃f : Float W⦄ (scope : ScopeDiff) (constraints : ConstraintsDiff)
    (criteria : AcceptanceCriteriaDiff) (authority : AuthorityDiff) (config : RiskConfig W)
    → let s =
        (analyze_diff_risk_with_config scope constraints criteria authority config).severity in
      let sections = severities scope constraints criteria authority in
      All (λ x. rank x.1 ≤ rank s) sections × Attained s sections
unfolding compute_overall_severity analyze_diff_risk_with_config
severity_greatest scope constraints criteria authority config =
    let sections = severities scope constraints criteria authority in
    (
      (fold_greatest low sections).1,
      elim (fold-Attained low sections) [
        | inl e ↦ Attained-low sections (compute_overall_severity sections) e
        | inr one ↦ one
      ],
    )

pub authority_critical :
    (d : AuthorityDiff)
    → 0
      < (analyze_approval_rules_risk d.approval_requirements).1.removed
        + (analyze_action_refs_risk "forbidden_actions" d.forbidden_actions).1.removed
    → (analyze_authority_risk d).0 ≡ critical
unfolding analyze_authority_risk
authority_critical d h = ground arith

-- A change of a policy is at least of high severity.
policy_high :
    (ds : List ConstraintDiff)
    → is_empty ds ≡ false
    → 2 ≤ rank (analyze_constraint_category "policy" ds).0
unfolding analyze_constraint_category
policy_high ds h = ground arith

pub constraints_high :
    (d : ConstraintsDiff) → is_empty d.policy ≡ false → 2 ≤ rank (analyze_constraints_risk d).0
unfolding analyze_constraints_risk
constraints_high d h =
    let policy = (analyze_constraint_category "policy" d.policy).0 in
    let budget = (analyze_constraint_category "budget" d.budget).0 in
    let time = (analyze_constraint_category "time" d.time).0 in
    let s0 =
      raise (raise low (analyze_constraint_category "functional" d.functional).0)
        (analyze_constraint_category "non_functional" d.non_functional).0 in
    omega (
      arith,
      policy_high d.policy h,
      raise-rank s0 policy,
      raise-rank (raise s0 policy) budget,
      raise-rank (raise (raise s0 policy) budget) time,
    )
