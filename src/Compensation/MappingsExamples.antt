-- ===== src/Compensation/MappingsExamples.antt =====
-- The round trip of the texts of the database, at one text.
use intent_rebase.Base.{ok, some, ◌≡◌, ◌↔◌}
use intent_rebase.Compensation.Action.{CompensationFeasibility, StrategyType, CompensationStatus}
use intent_rebase.Compensation.Service.{RollbackRecordResult}
use intent_rebase.Compensation.Run.{RunStatus}
use intent_rebase.Compensation.Mappings.{
  compensation_round_trip, compensation_feasibility_from_string, compensation_feasibility_to_string,
  strategy_type_from_string, strategy_type_to_string, compensation_status_from_string,
  compensation_status_to_string, run_status_from_string, run_status_to_string, from_db_str, as_str,
}

compensation_round_trip_example :
    ((compensation_feasibility_from_string "failed" ≡ ok CompensationFeasibility.automatic)
      ↔ (compensation_feasibility_to_string CompensationFeasibility.automatic ≡ "failed"))
    × ((strategy_type_from_string "failed" ≡ ok StrategyType.rollback)
        ↔ (strategy_type_to_string StrategyType.rollback ≡ "failed"))
    × ((compensation_status_from_string "failed" ≡ ok CompensationStatus.failed)
        ↔ (compensation_status_to_string CompensationStatus.failed ≡ "failed"))
    × ((run_status_from_string "failed" ≡ ok RunStatus.run_failed)
        ↔ (run_status_to_string RunStatus.run_failed ≡ "failed"))
    × ((from_db_str "failed" ≡ some RollbackRecordResult.failure)
        ↔ (as_str RollbackRecordResult.failure ≡ "failed"))
compensation_round_trip_example =
    compensation_round_trip "failed" CompensationFeasibility.automatic StrategyType.rollback
      CompensationStatus.failed RunStatus.run_failed RollbackRecordResult.failure
