-- ===== src/Compensation/Executor.antt =====
-- The four bounded executors (crates/compensation-service/src/rollback_executor.rs,
-- counter_action_executor.rs, followup_notice_executor.rs and escalation_executor.rs). They have one
-- body, but for the strategy, the feasibility, the class of side effect and the words: these are the
-- parameter `Kind`. Of the `SideEffectRepository` they read `get`, which is a function.
use intent_rebase.Base.{
  ℕ, String, Bool, true, not, Option, some, none, [], ◌∷◌, ◌==◌, if◌then◌else◌, Result, ok, err,
  lit, uuid, said, debug,
}
use intent_rebase.Compensation.SideEffect.{
  SideEffect, SideEffectClass, s2_external_reversible, s3_external_partially_reversible,
  s4_irreversible, class_eq, class_debug,
}
use intent_rebase.Compensation.Action.{
  CompensationAction, ExecutionResult, CompensationFeasibility, StrategyType, automatic,
  semi_automatic, manual_only, not_possible, rollback, counter_action, followup_notice, escalation,
  strategy_eq, feasibility_eq, strategy_debug, feasibility_debug, execution_success,
  execution_failure,
}

pub record Kind : Type 0 where
  pub strategy : StrategyType
  pub feasibility : CompensationFeasibility
  -- `none` where the executor does not look at the class.
  pub effect_class : Option SideEffectClass
  pub noun : String  -- "counter-action"
  pub title : String  -- "Counter-action"
  pub opening : String  -- "Counter-action for "

abbrev pub rollback_kind : Kind
rollback_kind = record {
  strategy = rollback;
  feasibility = automatic;
  effect_class = none;
  noun = "rollback";
  title = "Rollback";
  opening = "Rollback of ";
}

abbrev pub counter_action_kind : Kind
counter_action_kind = record {
  strategy = counter_action;
  feasibility = semi_automatic;
  effect_class = some s2_external_reversible;
  noun = "counter-action";
  title = "Counter-action";
  opening = "Counter-action for ";
}

abbrev pub followup_notice_kind : Kind
followup_notice_kind = record {
  strategy = followup_notice;
  feasibility = manual_only;
  effect_class = some s3_external_partially_reversible;
  noun = "followup notice";
  title = "FollowupNotice";
  opening = "FollowupNotice for ";
}

abbrev pub escalation_kind : Kind
escalation_kind = record {
  strategy = escalation;
  feasibility = not_possible;
  effect_class = some s4_irreversible;
  noun = "escalation";
  title = "Escalation";
  opening = "Escalation for ";
}

abbrev class_fits : Option SideEffectClass → SideEffectClass → Bool
class_fits none c = true
class_fits (some d) c = class_eq c d

abbrev expected : Option SideEffectClass → String
expected none = ""
expected (some d) = class_debug d

unsupported_strategy : ℕ → Kind → CompensationAction → ExecutionResult
unfolding execution_failure
unsupported_strategy now k a =
    execution_failure now
      (lit "Unsupported strategy type: "
        ∷ lit (strategy_debug a.strategy_type)
        ∷ lit ". Only "
        ∷ lit (strategy_debug k.strategy)
        ∷ lit " is supported in this slice."
        ∷ [])
      "UNSUPPORTED_STRATEGY_TYPE"
      (some (
        said (
          lit "Strategy "
          ∷ lit (strategy_debug a.strategy_type)
          ∷ lit " requires Batch 1+ executor implementation"
          ∷ [])))

unsupported_feasibility : ℕ → Kind → CompensationAction → ExecutionResult
unfolding execution_failure
unsupported_feasibility now k a =
    execution_failure now
      (lit "Unsupported feasibility: "
        ∷ lit (feasibility_debug a.feasibility)
        ∷ lit ". Only "
        ∷ lit (feasibility_debug k.feasibility)
        ∷ lit " is supported in this slice."
        ∷ [])
      "UNSUPPORTED_FEASIBILITY"
      (some (
        said (
          lit "Feasibility "
          ∷ lit (feasibility_debug a.feasibility)
          ∷ lit " requires human intervention or is not executable"
          ∷ [])))

mismatch : ℕ → String → String → String → String → ℕ → ℕ → ExecutionResult
unfolding execution_failure
mismatch now summary code action_label effect_label x y =
    execution_failure now (lit summary ∷ []) code
      (some (said (lit action_label ∷ uuid x ∷ lit effect_label ∷ uuid y ∷ [])))

wrong_class : ℕ → Kind → SideEffect → ExecutionResult
unfolding execution_failure
wrong_class now k e =
    execution_failure now
      (lit "Invalid side effect class for "
        ∷ lit k.noun
        ∷ lit ": "
        ∷ lit (class_debug e.effect_class)
        ∷ lit ". Expected "
        ∷ lit (expected k.effect_class)
        ∷ lit "."
        ∷ [])
      "INVALID_SIDE_EFFECT_CLASS"
      (some (
        said (
          lit k.title
          ∷ lit " is only valid for "
          ∷ lit (expected k.effect_class)
          ∷ lit " effects, got "
          ∷ lit (class_debug e.effect_class)
          ∷ [])))

acknowledged : ℕ → Kind → SideEffect → ExecutionResult
unfolding execution_success
acknowledged now k e = execution_success now (
    lit k.opening
    ∷ lit e.effect_type
    ∷ lit " targeting "
    ∷ lit e.target
    ∷ lit " acknowledged (side_effect_id="
    ∷ uuid e.id
    ∷ lit ", effect_class="
    ∷ lit (class_debug e.effect_class)
    ∷ lit ")"
    ∷ [])

-- The checks on the side effect, in the order of the source.
check_side_effect : ℕ → Kind → CompensationAction → SideEffect → ExecutionResult
unfolding mismatch wrong_class acknowledged
check_side_effect now k a e =
    if not (e.tenant_id == a.tenant_id)
    then mismatch now "Side effect tenant_id mismatch" "TENANT_MISMATCH" "Action tenant="
        ", side effect tenant=" a.tenant_id e.tenant_id
    else if not (e.intent_id == a.intent_id)
    then mismatch now "Side effect intent_id mismatch" "INTENT_MISMATCH" "Action intent="
        ", side effect intent=" a.intent_id e.intent_id
    else if not (class_fits k.effect_class e.effect_class)
    then wrong_class now k e
    else acknowledged now k e

unfoldable pub execute_impl :
    ℕ → Kind → (ℕ → Result SideEffect) → CompensationAction → Result ExecutionResult
unfolding unsupported_strategy unsupported_feasibility check_side_effect execution_failure
execute_impl now k side_effect a =
    if not (strategy_eq a.strategy_type k.strategy)
    then ok (unsupported_strategy now k a)
    else if not (feasibility_eq a.feasibility k.feasibility)
    then ok (unsupported_feasibility now k a)
    else elim (side_effect a.side_effect_id) [
      | ok e ↦ ok (check_side_effect now k a e)
      | err f ↦ ok (
          execution_failure now
            (lit "Side effect "
              ∷ uuid a.side_effect_id
              ∷ lit " not found: cannot validate "
              ∷ lit k.noun
              ∷ lit " target"
              ∷ [])
            "SIDE_EFFECT_NOT_FOUND" (some (debug f)))
    ]

unfoldable pub rollback_execute :
    ℕ → (ℕ → Result SideEffect) → CompensationAction → Result ExecutionResult
unfolding execute_impl
rollback_execute now = execute_impl now rollback_kind

unfoldable pub counter_action_execute :
    ℕ → (ℕ → Result SideEffect) → CompensationAction → Result ExecutionResult
unfolding execute_impl
counter_action_execute now = execute_impl now counter_action_kind

unfoldable pub followup_notice_execute :
    ℕ → (ℕ → Result SideEffect) → CompensationAction → Result ExecutionResult
unfolding execute_impl
followup_notice_execute now = execute_impl now followup_notice_kind

unfoldable pub escalation_execute :
    ℕ → (ℕ → Result SideEffect) → CompensationAction → Result ExecutionResult
unfolding execute_impl
escalation_execute now = execute_impl now escalation_kind
