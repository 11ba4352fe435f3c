-- ===== src/Compensation/Action/Types.antt =====
-- The data of crates/compensation-service/src/compensation_action.rs, `CompensationAction::new` and
-- `from_side_effect`, and the tests on the strategy and the feasibility. The generated identifier
-- and the clock are arguments.
use intent_rebase.Base.{ℕ, String, Bool, true, false, Option, some, none, Message, Text}
use intent_rebase.Compensation.SideEffect.{
  SideEffect, SideEffectClass, s0_pure_read, s1_internal_reversible, s2_external_reversible,
  s3_external_partially_reversible, s4_irreversible,
}

pub record RebaseContext : Type 0 where
  pub intent_id : ℕ
  pub from_version : ℕ  -- i32
  pub to_version : ℕ  -- i32
  pub workflow_id : ℕ

pub record ExecutionResult : Type 0 where
  pub success : Bool
  pub summary : Message
  pub error_code : Option String
  pub error_detail : Option Text
  pub completed_at : ℕ

pub data CompensationFeasibility : Type 0 where
  automatic semi_automatic manual_only not_possible : CompensationFeasibility

pub data StrategyType : Type 0 where
  rollback counter_action followup_notice quarantine escalation : StrategyType

pub data CompensationStatus : Type 0 where
  pending approved executed failed waived : CompensationStatus

pub record CompensationAction : Type 0 where
  pub id : ℕ
  pub tenant_id : ℕ
  pub side_effect_id : ℕ
  pub intent_id : ℕ
  pub trigger_context : RebaseContext
  pub execution_result_payload : Option ExecutionResult
  pub feasibility : CompensationFeasibility
  pub strategy_type : StrategyType
  pub rationale : Message
  pub status : CompensationStatus
  pub attempt_count : ℕ  -- i32
  pub max_retries : ℕ  -- i32
  pub lock_version : ℕ  -- i32
  pub generated_at : ℕ
  pub approved_at : Option ℕ
  pub approved_by : Option String
  pub waived_at : Option ℕ
  pub waived_by : Option String
  pub executed_at : Option ℕ
  pub executed_by : Option String
  pub failed_at : Option ℕ

-- `==` on the derived `PartialEq`s.
abbrev pub status_eq : CompensationStatus → CompensationStatus → Bool
status_eq pending pending = true
status_eq approved approved = true
status_eq executed executed = true
status_eq failed failed = true
status_eq waived waived = true
status_eq _ _ = false

abbrev pub strategy_eq : StrategyType → StrategyType → Bool
strategy_eq rollback rollback = true
strategy_eq counter_action counter_action = true
strategy_eq followup_notice followup_notice = true
strategy_eq quarantine quarantine = true
strategy_eq escalation escalation = true
strategy_eq _ _ = false

abbrev pub feasibility_eq : CompensationFeasibility → CompensationFeasibility → Bool
feasibility_eq automatic automatic = true
feasibility_eq semi_automatic semi_automatic = true
feasibility_eq manual_only manual_only = true
feasibility_eq not_possible not_possible = true
feasibility_eq _ _ = false

-- `{:?}`.
abbrev pub status_debug : CompensationStatus → String
status_debug pending = "Pending"
status_debug approved = "Approved"
status_debug executed = "Executed"
status_debug failed = "Failed"
status_debug waived = "Waived"

abbrev pub strategy_debug : StrategyType → String
strategy_debug rollback = "Rollback"
strategy_debug counter_action = "CounterAction"
strategy_debug followup_notice = "FollowupNotice"
strategy_debug quarantine = "Quarantine"
strategy_debug escalation = "Escalation"

abbrev pub feasibility_debug : CompensationFeasibility → String
feasibility_debug automatic = "Automatic"
feasibility_debug semi_automatic = "SemiAutomatic"
feasibility_debug manual_only = "ManualOnly"
feasibility_debug not_possible = "NotPossible"

unfoldable pub execution_success : ℕ → Message → ExecutionResult
execution_success now summary = record {
  success = true;
  summary = summary;
  error_code = none;
  error_detail = none;
  completed_at = now;
}

unfoldable pub execution_failure : ℕ → Message → String → Option Text → ExecutionResult
execution_failure now summary error_code error_detail = record {
  success = false;
  summary = summary;
  error_code = some error_code;
  error_detail = error_detail;
  completed_at = now;
}

abbrev pub default_max_retries : ℕ
default_max_retries = 3

unfoldable pub new_action :
    ℕ
    → ℕ
    → ℕ
    → ℕ
    → ℕ
    → RebaseContext
    → CompensationFeasibility
    → StrategyType
    → Message
    → CompensationAction
new_action id now tenant_id side_effect_id intent_id trigger_context feasibility strategy_type
      rationale =
    record {
      id = id;
      tenant_id = tenant_id;
      side_effect_id = side_effect_id;
      intent_id = intent_id;
      trigger_context = trigger_context;
      execution_result_payload = none;
      feasibility = feasibility;
      strategy_type = strategy_type;
      rationale = rationale;
      status = pending;
      attempt_count = 0;
      max_retries = default_max_retries;
      lock_version = 0;
      generated_at = now;
      approved_at = none;
      approved_by = none;
      waived_at = none;
      waived_by = none;
      executed_at = none;
      executed_by = none;
      failed_at = none;
    }

abbrev pub feasibility_of : SideEffectClass → CompensationFeasibility
feasibility_of s0_pure_read = not_possible
feasibility_of s1_internal_reversible = automatic
feasibility_of s2_external_reversible = semi_automatic
feasibility_of s3_external_partially_reversible = manual_only
feasibility_of s4_irreversible = not_possible

-- The two constructors of the source write the same record, but for the feasibility.
unfoldable pub from_side_effect :
    ℕ → ℕ → ℕ → SideEffect → RebaseContext → StrategyType → Message → CompensationAction
unfolding new_action
from_side_effect id now tenant_id side_effect trigger_context strategy rationale =
    new_action id now tenant_id side_effect.id side_effect.intent_id trigger_context
      (feasibility_of side_effect.effect_class) strategy rationale

unfoldable pub is_auto_executable : CompensationAction → Bool
is_auto_executable a = feasibility_eq a.feasibility automatic

abbrev pub executable_combo : StrategyType → CompensationFeasibility → Bool
executable_combo rollback automatic = true
executable_combo counter_action semi_automatic = true
executable_combo followup_notice manual_only = true
executable_combo escalation not_possible = true
executable_combo _ _ = false

unfoldable pub is_service_executable : CompensationAction → Bool
is_service_executable a = executable_combo a.strategy_type a.feasibility

abbrev terminal : CompensationStatus → Bool
terminal executed = true
terminal waived = true
terminal _ = false

unfoldable pub is_terminal : CompensationStatus → Bool
is_terminal s = terminal s
