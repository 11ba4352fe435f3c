-- ===== src/Engine/Plan/Sections.antt =====
-- The planner and the analysis list the same sections.
use intent_rebase.Base.{
  String, Bool, not, List, [], ◌∷◌, ◌++◌, map, filter, ltb, if◌then◌else◌, ◌≡◌, refl, sym, ◌∙◌,
  Message, arith,
}
use intent_rebase.Engine.Types.{IntentVersion}
use intent_rebase.Engine.Diff.Types.{ScopeDiff}
use intent_rebase.Engine.Diff.Defs.{diff_intent_version}
use intent_rebase.Engine.Risk.Types.{Float, SectionRisk}
use intent_rebase.Engine.Risk.Accounting.{
  diff-Accounted, scope_size, constraints_size, criteria_size, authority_size,
}
use intent_rebase.Engine.Risk.Sections.{
  analyze_scope_risk, analyze_constraints_risk, analyze_acceptance_criteria_risk,
  analyze_authority_risk,
}
use intent_rebase.Engine.Risk.Analysis.{
  section_risk, unmatched, analyze_diff_risk_with_config, analyze_diff_risk,
}
use intent_rebase.Engine.Plan.Defs.{scope_empty}
use intent_rebase.Engine.Plan.Build.{decide, compute_section_decisions}
use intent_rebase.Engine.Facade.{risk_of}

scope_empty-size : (s : ScopeDiff) → not (scope_empty s) ≡ ltb 0 (scope_size s)
scope_empty-size s = ground arith

abbrev names : Bool → Bool → Bool → Bool → List String
names t1 t2 t3 t4 =
    let n4 = if t4 then "authority" ∷ [] else [] in
    let n3 = if t3 then "acceptance_criteria" ∷ n4 else n4 in
    let n2 = if t2 then "constraints" ∷ n3 else n3 in if t1 then "scope" ∷ n2 else n2

decided :
    (t1 t2 t3 t4 : Bool) (m1 m2 m3 m4 : Message) (r1 r2 r3 r4 : String)
    → map
        (λ x. x.section)
        (decide t1 "scope" m1 r1
          ++ decide t2 "constraints" m2 r2
          ++ decide t3 "acceptance_criteria" m3 r3
          ++ decide t4 "authority" m4 r4)
      ≡ names t1 t2 t3 t4
decided t1 t2 t3 t4 m1 m2 m3 m4 r1 r2 r3 r4 = ground arith

-- A risk of each section, in order.
listed :
    (r1 r2 r3 r4 : SectionRisk)
    → r1.section ≡ "scope"
    → r2.section ≡ "constraints"
    → r3.section ≡ "acceptance_criteria"
    → r4.section ≡ "authority"
    → map (λ x. x.section) (filter (λ r. ltb 0 r.change_count) (r1 ∷ r2 ∷ r3 ∷ r4 ∷ []))
      ≡ names
          (ltb 0 r1.change_count)
          (ltb 0 r2.change_count)
          (ltb 0 r3.change_count)
          (ltb 0 r4.change_count)
listed r1 r2 r3 r4 e1 e2 e3 e4 = ground arith

-- In the diff of any two versions, the plan has a decision for exactly the sections that the
-- analysis lists a risk for, in the same order.
pub sections_agree :
    (W : Type 0) ⦃f : Float W⦄ (before after : IntentVersion)
    → let diff = diff_intent_version before after in
      map (λ x. x.section) (compute_section_decisions diff)
      ≡ map (λ x. x.section) (risk_of {W = W} diff).section_risks
unfolding compute_section_decisions analyze_diff_risk analyze_diff_risk_with_config
sections_agree W before after =
    let diff = diff_intent_version before after in
    let (c1, c2, c3, c4) = diff-Accounted before after in
    let x1 = analyze_scope_risk diff.scope in
    let x2 = analyze_constraints_risk diff.constraints in
    let x3 = analyze_acceptance_criteria_risk diff.acceptance_criteria in
    let x4 = analyze_authority_risk diff.authority in
    let same_tests : names (not (scope_empty diff.scope))
          (ltb 0 (constraints_size diff.constraints))
          (ltb 0 (criteria_size diff.acceptance_criteria)) (ltb 0 (authority_size diff.authority))
        ≡ names (ltb 0 x1.1.total_changes) (ltb 0 x2.1.total_changes) (ltb 0 x3.1.total_changes)
            (ltb 0 x4.1.total_changes) =
      rw (scope_empty-size diff.scope, c1.1, c2.1, c3.1, c4.1) refl in
    decided (not (scope_empty diff.scope)) (ltb 0 (constraints_size diff.constraints))
      (ltb 0 (criteria_size diff.acceptance_criteria)) (ltb 0 (authority_size diff.authority)) _ _ _
      _ _ _ _ _
    ∙ same_tests
    ∙ sym (
        listed (section_risk "scope" x1.0 x1.1 0)
          (section_risk "constraints" x2.0 x2.1 (unmatched x2.1))
          (section_risk "acceptance_criteria" x3.0 x3.1 (unmatched x3.1))
          (section_risk "authority" x4.0 x4.1 (unmatched x4.1)) refl refl refl refl)
