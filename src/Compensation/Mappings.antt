-- ===== src/Compensation/Mappings.antt =====
-- The texts of the enumerations of the compensations in the database
-- (crates/compensation-service/src/compensation_action_repo.rs, rollback_record.rs and
-- orchestration_run_repo.rs).
use intent_rebase.Base.{
  String, List, [], ◌∷◌, Result, ok, decode, decode_exact, ◌≡◌, ◌↔◌, refl, Option, none, some,
  str_eq, if◌then◌else◌, arith, str_eq_iff, subst,
}
use intent_rebase.Compensation.Action.{CompensationFeasibility, StrategyType, CompensationStatus}
use intent_rebase.Compensation.Service.{RollbackRecordResult}
use intent_rebase.Compensation.Run.{RunStatus}

abbrev pub compensation_feasibility_to_string : CompensationFeasibility → String
compensation_feasibility_to_string CompensationFeasibility.automatic = "automatic"
compensation_feasibility_to_string CompensationFeasibility.semi_automatic = "semi_automatic"
compensation_feasibility_to_string CompensationFeasibility.manual_only = "manual_only"
compensation_feasibility_to_string CompensationFeasibility.not_possible = "not_possible"

abbrev compensation_feasibility_table : List (String × CompensationFeasibility)
compensation_feasibility_table =
    ("automatic", CompensationFeasibility.automatic)
    ∷ ("semi_automatic", CompensationFeasibility.semi_automatic)
    ∷ ("manual_only", CompensationFeasibility.manual_only)
    ∷ ("not_possible", CompensationFeasibility.not_possible)
    ∷ []

abbrev pub compensation_feasibility_from_string : String → Result CompensationFeasibility
compensation_feasibility_from_string =
    decode "unknown compensation feasibility: " compensation_feasibility_table

compensation_feasibility_read :
    (x : CompensationFeasibility)
    → compensation_feasibility_from_string (compensation_feasibility_to_string x) ≡ ok x
compensation_feasibility_read CompensationFeasibility.automatic = refl
compensation_feasibility_read CompensationFeasibility.semi_automatic = refl
compensation_feasibility_read CompensationFeasibility.manual_only = refl
compensation_feasibility_read CompensationFeasibility.not_possible = refl

abbrev pub strategy_type_to_string : StrategyType → String
strategy_type_to_string StrategyType.rollback = "rollback"
strategy_type_to_string StrategyType.counter_action = "counter_action"
strategy_type_to_string StrategyType.followup_notice = "followup_notice"
strategy_type_to_string StrategyType.quarantine = "quarantine"
strategy_type_to_string StrategyType.escalation = "escalation"

abbrev strategy_type_table : List (String × StrategyType)
strategy_type_table =
    ("rollback", StrategyType.rollback)
    ∷ ("counter_action", StrategyType.counter_action)
    ∷ ("followup_notice", StrategyType.followup_notice)
    ∷ ("quarantine", StrategyType.quarantine)
    ∷ ("escalation", StrategyType.escalation)
    ∷ []

abbrev pub strategy_type_from_string : String → Result StrategyType
strategy_type_from_string = decode "unknown strategy type: " strategy_type_table

strategy_type_read :
    (x : StrategyType) → strategy_type_from_string (strategy_type_to_string x) ≡ ok x
strategy_type_read StrategyType.rollback = refl
strategy_type_read StrategyType.counter_action = refl
strategy_type_read StrategyType.followup_notice = refl
strategy_type_read StrategyType.quarantine = refl
strategy_type_read StrategyType.escalation = refl

abbrev pub compensation_status_to_string : CompensationStatus → String
compensation_status_to_string CompensationStatus.pending = "pending"
compensation_status_to_string CompensationStatus.approved = "approved"
compensation_status_to_string CompensationStatus.executed = "executed"
compensation_status_to_string CompensationStatus.failed = "failed"
compensation_status_to_string CompensationStatus.waived = "waived"

abbrev compensation_status_table : List (String × CompensationStatus)
compensation_status_table =
    ("pending", CompensationStatus.pending)
    ∷ ("approved", CompensationStatus.approved)
    ∷ ("executed", CompensationStatus.executed)
    ∷ ("failed", CompensationStatus.failed)
    ∷ ("waived", CompensationStatus.waived)
    ∷ []

abbrev pub compensation_status_from_string : String → Result CompensationStatus
compensation_status_from_string = decode "unknown compensation status: " compensation_status_table

compensation_status_read :
    (x : CompensationStatus)
    → compensation_status_from_string (compensation_status_to_string x) ≡ ok x
compensation_status_read CompensationStatus.pending = refl
compensation_status_read CompensationStatus.approved = refl
compensation_status_read CompensationStatus.executed = refl
compensation_status_read CompensationStatus.failed = refl
compensation_status_read CompensationStatus.waived = refl

abbrev pub run_status_to_string : RunStatus → String
run_status_to_string RunStatus.run_pending = "pending"
run_status_to_string RunStatus.running = "running"
run_status_to_string RunStatus.run_completed = "completed"
run_status_to_string RunStatus.completed_with_errors = "completed_with_errors"
run_status_to_string RunStatus.run_failed = "failed"

abbrev run_status_table : List (String × RunStatus)
run_status_table =
    ("pending", RunStatus.run_pending)
    ∷ ("running", RunStatus.running)
    ∷ ("completed", RunStatus.run_completed)
    ∷ ("completed_with_errors", RunStatus.completed_with_errors)
    ∷ ("failed", RunStatus.run_failed)
    ∷ []

abbrev pub run_status_from_string : String → Result RunStatus
run_status_from_string = decode "unknown run status: " run_status_table

run_status_read : (x : RunStatus) → run_status_from_string (run_status_to_string x) ≡ ok x
run_status_read RunStatus.run_pending = refl
run_status_read RunStatus.running = refl
run_status_read RunStatus.run_completed = refl
run_status_read RunStatus.completed_with_errors = refl
run_status_read RunStatus.run_failed = refl

abbrev pub as_str : RollbackRecordResult → String
as_str RollbackRecordResult.success = "success"
as_str RollbackRecordResult.failure = "failure"
as_str RollbackRecordResult.waiver = "waived"

abbrev pub from_db_str : String → Option RollbackRecordResult
from_db_str s =
    if str_eq s "success"
    then some RollbackRecordResult.success
    else if str_eq s "failure"
    then some RollbackRecordResult.failure
    else if str_eq s "waived"
    then some RollbackRecordResult.waiver
    else none

result_read : (r : RollbackRecordResult) → from_db_str (as_str r) ≡ some r
result_read RollbackRecordResult.success = refl
result_read RollbackRecordResult.failure = refl
result_read RollbackRecordResult.waiver = refl

from_db_str-as_str : (s : String) (r : RollbackRecordResult) → from_db_str s ≡ some r → as_str r ≡ s
from_db_str-as_str s r h =
    ground (arith, str_eq_iff s "success", str_eq_iff s "failure", str_eq_iff s "waived")

from_db_str_exact :
    (s : String) (r : RollbackRecordResult) → (from_db_str s ≡ some r) ↔ (as_str r ≡ s)
from_db_str_exact s r =
    (from_db_str-as_str s r, λ e. subst (λ t. from_db_str t ≡ some r) e (result_read r))

-- A text is read as a variant just when it is the text that the variant is written as, for
-- feasibilities, strategies, statuses of actions, statuses of runs and results of rollback records:
-- writing and reading are inverse, and every other text is refused, with an error or, for the
-- results, with none.
pub compensation_round_trip :
    (s : String) (feasibility : CompensationFeasibility) (strategy : StrategyType)
    (status : CompensationStatus) (run : RunStatus) (result : RollbackRecordResult)
    → ((compensation_feasibility_from_string s ≡ ok feasibility)
        ↔ (compensation_feasibility_to_string feasibility ≡ s))
      × ((strategy_type_from_string s ≡ ok strategy) ↔ (strategy_type_to_string strategy ≡ s))
      × ((compensation_status_from_string s ≡ ok status)
          ↔ (compensation_status_to_string status ≡ s))
      × ((run_status_from_string s ≡ ok run) ↔ (run_status_to_string run ≡ s))
      × ((from_db_str s ≡ some result) ↔ (as_str result ≡ s))
compensation_round_trip s feasibility strategy status run result = (
  decode_exact "unknown compensation feasibility: " compensation_feasibility_to_string
      compensation_feasibility_table (refl, (refl, (refl, (refl, tt))))
      compensation_feasibility_read s feasibility,
  decode_exact "unknown strategy type: " strategy_type_to_string strategy_type_table
      (refl, (refl, (refl, (refl, (refl, tt))))) strategy_type_read s strategy,
  decode_exact "unknown compensation status: " compensation_status_to_string
      compensation_status_table (refl, (refl, (refl, (refl, (refl, tt))))) compensation_status_read
      s status,
  decode_exact "unknown run status: " run_status_to_string run_status_table
      (refl, (refl, (refl, (refl, (refl, tt))))) run_status_read s run,
  from_db_str_exact s result,
)
