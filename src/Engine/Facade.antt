-- ===== src/Engine/Facade.antt =====
-- The entry points of the engine (crates/rebase-engine/src/lib.rs). The version number is the
-- 32-bit pattern of an `i32`. The raw variants, which decode JSON first, are left out.
use intent_rebase.Base.{
  ℕ, not, ◌==◌, if◌then◌else◌, ◌∷◌, [], Result, ok, err, Message, lit, int, invalid_intent_version,
}
use intent_rebase.Base.Int32.{geb}
use intent_rebase.Engine.Types.{IntentVersion}
use intent_rebase.Engine.Diff.Types.{IntentVersionDiff}
use intent_rebase.Engine.Diff.Defs.{diff_intent_version}
use intent_rebase.Engine.Risk.Types.{Float, DiffRiskAnalysis}
use intent_rebase.Engine.Risk.Analysis.{analyze_diff_risk}
use intent_rebase.Engine.Plan.Types.{RebasePlan}
use intent_rebase.Engine.Plan.Build.{from_diff_and_risk}

abbrev order_message : ℕ → ℕ → Message
order_message to from =
    lit "to_version ("
    ∷ int to
    ∷ lit ") must be greater than from_version ("
    ∷ int from
    ∷ lit ")"
    ∷ []

unfoldable pub compute_diff : IntentVersion → IntentVersion → Result IntentVersionDiff
compute_diff from to =
    if geb from.version_number to.version_number
    then err (invalid_intent_version (order_message to.version_number from.version_number))
    else if not (from.intent_id == to.intent_id)
    then err (invalid_intent_version (lit "Cannot diff versions from different intents" ∷ []))
    else ok (diff_intent_version from to)

module _ {W : Type 0} ⦃f : Float W⦄ where
  abbrev pub risk_of : IntentVersionDiff → DiffRiskAnalysis W
  risk_of diff =
      analyze_diff_risk diff.scope diff.constraints diff.acceptance_criteria diff.authority

  unfoldable pub compute_diff_with_risk :
      IntentVersion → IntentVersion → Result (IntentVersionDiff × DiffRiskAnalysis W)
  compute_diff_with_risk from to = elim (compute_diff from to) [
    | ok diff ↦ ok (diff, risk_of diff)
    | err e ↦ err e
  ]

unfoldable pub generate_plan : (W : Type 0) ⦃f : Float W⦄ → IntentVersionDiff → Result RebasePlan
generate_plan W diff = ok (from_diff_and_risk {W = W} diff (risk_of diff))
