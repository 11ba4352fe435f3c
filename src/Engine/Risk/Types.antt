-- ===== src/Engine/Risk/Types.antt =====
-- The data of the risk analysis (crates/rebase-engine/src/risk.rs and `MatchingStats` of rules.rs).
-- What the code does with an `f64` is the record `Float`.
use intent_rebase.Base.{ℕ, String, Bool, true, false, List, ltb, if◌then◌else◌, Option}
use intent_rebase.Engine.Types.{RiskTier}

pub data Severity : Type 0 where
  low medium high critical : Severity

-- The derived order of the variants.
abbrev pub rank : Severity → ℕ
rank low = 0
rank medium = 1
rank high = 2
rank critical = 3

-- `a > b`.
abbrev pub exceeds : Severity → Severity → Bool
exceeds a b = ltb (rank b) (rank a)

-- `if severity > overall { overall = severity; }`.
abbrev pub raise : Severity → Severity → Severity
raise overall severity = if exceeds severity overall then severity else overall

abbrev pub severity_eq : Severity → Severity → Bool
severity_eq low low = true
severity_eq medium medium = true
severity_eq high high = true
severity_eq critical critical = true
severity_eq _ _ = false

abbrev pub to_risk_tier : Severity → RiskTier
to_risk_tier low = RiskTier.low
to_risk_tier medium = RiskTier.medium
to_risk_tier high = RiskTier.high
to_risk_tier critical = RiskTier.critical

-- `decimal m n` is the literal m / 10 ^ n.
pub record Float (W : Type 0) : Type 0 where
  pub of_usize : ℕ → W
  pub decimal : ℕ → ℕ → W
  pub add : W → W → W
  pub mul : W → W → W
  pub div : W → W → W
  pub clamp : W → W → W → W
  pub lt : W → W → Bool
  pub ge : W → W → Bool

pub record MatchingStats : Type 0 where
  pub total_changes : ℕ
  pub unique_clause_id_match : ℕ
  pub ambiguous_match : ℕ
  pub no_match : ℕ
  pub removed : ℕ

abbrev pub no_stats : MatchingStats
no_stats = record {
  total_changes = 0;
  unique_clause_id_match = 0;
  ambiguous_match = 0;
  no_match = 0;
  removed = 0;
}

pub data ManualReviewReason (W : Type 0) : Type 0 where
  critical_severity : ManualReviewReason W
  high_severity_authority_change : ManualReviewReason W
  low_confidence : W → W → ManualReviewReason W
  policy_constraint_changed : ManualReviewReason W
  multiple_high_severity_changes : ℕ → ManualReviewReason W
  approval_requirement_removed : ManualReviewReason W

pub record SectionRisk : Type 0 where
  pub section : String
  pub severity : Severity
  pub change_count : ℕ
  pub high_priority_changes : ℕ

pub record DiffRiskAnalysis (W : Type 0) : Type 0 where
  pub severity : Severity
  pub confidence : W
  pub manual_review : Bool
  pub manual_review_reasons : List (ManualReviewReason W)
  pub section_risks : List SectionRisk
  pub rationale : Option (List String)

pub record RiskConfig (W : Type 0) : Type 0 where
  pub confidence_threshold : W
  pub max_high_severity_before_manual_review : ℕ

abbrev pub default_config : {W : Type 0} ⦃f : Float W⦄ → RiskConfig W
default_config ⦃f⦄ = record {
  confidence_threshold = f.decimal 7 1;
  max_high_severity_before_manual_review = 3;
}
