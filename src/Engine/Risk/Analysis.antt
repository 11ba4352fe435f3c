-- ===== src/Engine/Risk/Analysis.antt =====
-- The risk of a whole diff (crates/rebase-engine/src/rules.rs). The parts of
-- the rationale are listed, and the code joins them with "; ".
use intent_rebase.Base.{
  is_empty, ℕ, ◌-◌, String, Bool, true, false, not, ◌&&◌, Option, some, List, [], ◌∷◌, ◌++◌, length,
  filter, any, ltb, leb, ◌==◌, if◌then◌else◌,
}
use intent_rebase.Engine.Diff.Types.{
  ConstraintsDiff, AcceptanceCriteriaDiff, AuthorityDiff, ScopeDiff,
}
use intent_rebase.Engine.Risk.Types.{
  Severity, low, medium, high, critical, severity_eq, Float, MatchingStats, no_stats,
  ManualReviewReason, critical_severity, low_confidence, policy_constraint_changed,
  multiple_high_severity_changes, approval_requirement_removed, SectionRisk, DiffRiskAnalysis,
  RiskConfig, default_config,
}
use intent_rebase.Engine.Risk.Sections.{
  add_stats, analyze_scope_risk, analyze_constraints_risk, analyze_acceptance_criteria_risk,
  analyze_authority_risk, compute_overall_severity, is_high, policy_changed, approval_removed,
}

abbrev pub section_risk : String → Severity → MatchingStats → ℕ → SectionRisk
section_risk name severity stats high_priority = record {
  section = name;
  severity = severity;
  change_count = stats.total_changes;
  high_priority_changes = high_priority;
}

abbrev pub unmatched : MatchingStats → ℕ
unmatched s = s.total_changes - s.unique_clause_id_match

abbrev all_low : List (String × Severity) → Bool
all_low sections = not (any (λ x. not (severity_eq x.1 low)) sections)

abbrev severity_text : Severity → String
severity_text critical = "critical severity changes detected"
severity_text high = "high severity changes in authority or constraints"
severity_text medium = "moderate changes to scope or acceptance criteria"
severity_text low = "minor or clarification changes"

module _ {W : Type 0} ⦃f : Float W⦄ where
  unfoldable pub compute_confidence : MatchingStats → W
  compute_confidence stats =
      let n = f.of_usize stats.total_changes in
      let unique_ratio = f.div (f.of_usize stats.unique_clause_id_match) n in
      let ambiguous_ratio = f.div (f.of_usize stats.ambiguous_match) n in
      let no_match_ratio = f.div (f.of_usize stats.no_match) n in
      if stats.total_changes == 0
      then f.decimal 1 0
      else f.clamp
          (f.add
            (f.add (f.mul unique_ratio (f.decimal 1 0)) (f.mul ambiguous_ratio (f.decimal 5 1)))
            (f.mul no_match_ratio (f.decimal 8 1)))
          (f.decimal 0 0) (f.decimal 1 0)

  abbrev pub push_if : Bool → ManualReviewReason W → List (ManualReviewReason W)
  push_if true reason = reason ∷ []
  push_if false reason = []

  unfoldable pub should_manual_review :
      Severity
      → W
      → List (String × Severity)
      → Bool
      → Bool
      → RiskConfig W
      → Bool × List (ManualReviewReason W)
  should_manual_review severity confidence sections policy approval config =
      let count = length (filter (λ x. is_high x.1) sections) in
      let reasons =
        push_if (severity_eq severity critical) critical_severity
        ++ push_if (f.lt confidence config.confidence_threshold)
            (low_confidence confidence config.confidence_threshold)
        ++ push_if policy policy_constraint_changed
        ++ push_if (leb config.max_high_severity_before_manual_review count)
            (multiple_high_severity_changes count)
        ++ push_if approval approval_requirement_removed in
      (not (is_empty reasons), reasons)

  unfoldable pub generate_rationale : Severity → W → List (String × Severity) → Option (List String)
  generate_rationale severity confidence sections =
      if all_low sections && f.ge confidence (f.decimal 95 2)
      then some ("No semantic changes detected - identical content with matching clause IDs" ∷ [])
      else some (
          severity_text severity
          ∷ (if f.lt confidence (f.decimal 7 1)
              then "low confidence due to ambiguous clause matching" ∷ []
              else []))

  unfoldable pub analyze_diff_risk_with_config :
      ScopeDiff
      → ConstraintsDiff
      → AcceptanceCriteriaDiff
      → AuthorityDiff
      → RiskConfig W
      → DiffRiskAnalysis W
  analyze_diff_risk_with_config scope constraints criteria authority config =
      let (s1, t1) = analyze_scope_risk scope in
      let (s2, t2) = analyze_constraints_risk constraints in
      let (s3, t3) = analyze_acceptance_criteria_risk criteria in
      let (s4, t4) = analyze_authority_risk authority in
      let sections =
        ("scope", s1)
        ∷ ("constraints", s2)
        ∷ ("acceptance_criteria", s3)
        ∷ ("authority", s4)
        ∷ [] in
      let risks =
        section_risk "scope" s1 t1 0
        ∷ section_risk "constraints" s2 t2 (unmatched t2)
        ∷ section_risk "acceptance_criteria" s3 t3 (unmatched t3)
        ∷ section_risk "authority" s4 t4 (unmatched t4)
        ∷ [] in
      let stats = add_stats (add_stats (add_stats (add_stats no_stats t1) t2) t3) t4 in
      let severity = compute_overall_severity sections in
      let confidence = compute_confidence stats in
      let (manual_review, reasons) =
        should_manual_review severity confidence sections (policy_changed constraints)
          (approval_removed authority) config in
      record {
        severity = severity;
        confidence = confidence;
        manual_review = manual_review;
        manual_review_reasons = reasons;
        section_risks = filter (λ r. ltb 0 r.change_count) risks;
        rationale = generate_rationale severity confidence sections;
      }

  unfoldable pub analyze_diff_risk :
      ScopeDiff → ConstraintsDiff → AcceptanceCriteriaDiff → AuthorityDiff → DiffRiskAnalysis W
  analyze_diff_risk scope constraints criteria authority =
      analyze_diff_risk_with_config scope constraints criteria authority default_config
