-- ===== src/Compensation/Service/Defs.antt =====
-- The calls of the service. The clock is an argument; trace contexts and logging are left out.
use intent_rebase.Base.{
  ℕ, String, not, Option, some, none, List, [], ◌∷◌, if◌then◌else◌, Result, ok, Act, ◌>>=◌, ◌>>◌,
  pure, fail, require, of_result, Error, internal, Message, lit, int, uuid,
  compensation_action_not_executable, compensation_action_not_reapprovable,
  invalid_compensation_action_transition, filter, length,
}
use intent_rebase.Base.Int32.{geb}
use intent_rebase.Compensation.SideEffect.{SideEffect}
use intent_rebase.Compensation.Action.{
  CompensationAction, CompensationStatus, CompensationFeasibility, StrategyType, ExecutionResult,
  RebaseContext, automatic, semi_automatic, manual_only, not_possible, rollback, counter_action,
  followup_notice, escalation, pending, approved, failed, waived, status_eq, status_debug,
  strategy_debug, feasibility_debug, executable_combo, execution_success, execution_failure,
  is_service_executable,
}
use intent_rebase.Compensation.Action.Retry.{
  is_dlq_candidate, can_be_reapproved, reapproval_denial_reason,
}
use intent_rebase.Compensation.Action.Transition.{can_transition_to}
use intent_rebase.Compensation.Repo.{
  ActionRepo, create, find, update_status, record_result, reapprove, list_by_status,
}
use intent_rebase.Compensation.Executor.{
  rollback_execute, counter_action_execute, followup_notice_execute, escalation_execute,
}
use intent_rebase.Compensation.Planner.{plan_from_side_effects}
pub use intent_rebase.Compensation.Service.Types.{
  AuditPayload, planned, started, completed, failure_reported, AuditEvent, RollbackRecordResult,
  success, failure, waiver, RollbackRecord, SideEffectRepo, Service, World, on_repo, emit, note,
  event_of,
}
unfoldable pub use intent_rebase.Compensation.Service.Types.{emitted, noted}

planned_counts : CompensationFeasibility → ℕ → ℕ → AuditPayload
planned_counts automatic from to = planned from to 1 0 0
planned_counts semi_automatic from to = planned from to 0 1 0
planned_counts manual_only from to = planned from to 0 1 0
planned_counts not_possible from to = planned from to 0 0 1

abbrev pub system_actor : String
system_actor = "compensation-service/system"

unfoldable pub create_action : Service → CompensationAction → Act World CompensationAction
unfolding planned_counts create emitted
create_action svc a = do
  created ← on_repo (create a)
  emit svc (
      event_of a system_actor
        (planned_counts a.feasibility a.trigger_context.from_version a.trigger_context.to_version))
  pure created

create_all : Service → List CompensationAction → Act World (List CompensationAction)
unfolding create_action
create_all svc [] = pure []
create_all svc (a ∷ as') = do
  created ← create_action svc a
  rest ← create_all svc as'
  pure (created ∷ rest)

abbrev no_side_effect_repo : Error
no_side_effect_repo =
    internal (lit "side_effect_repo is required for bounded compensation planning" ∷ [])

unfoldable pub plan_compensation_actions :
    Service → (ℕ → ℕ) → ℕ → ℕ → ℕ → RebaseContext → Act World (List CompensationAction)
unfolding create_all
plan_compensation_actions svc new_id now intent_id tenant_id c = elim svc.side_effect_repo [
  | none ↦ fail no_side_effect_repo
  | some repo ↦ do
    effects ← of_result (repo.list_by_intent intent_id tenant_id)
    create_all svc (plan_from_side_effects new_id now c effects tenant_id)
]

abbrev reason_or_default : Option Message → Message
reason_or_default none = []
reason_or_default (some m) = m

-- The validation that opens `approve_action` and `waive_action`.
unfoldable pub validate : CompensationAction → CompensationStatus → Act World (Unit {0})
unfolding can_transition_to
validate a target =
    let v = can_transition_to a.status target in
    require v.allowed (
      invalid_compensation_action_transition (status_debug a.status) (status_debug target)
        (reason_or_default v.reason))

unfoldable pub approve_action : ℕ → ℕ → ℕ → Option String → Act World CompensationAction
unfolding find update_status validate
approve_action now action_id lock_version approved_by = do
  a ← on_repo (find action_id)
  validate a approved
  on_repo (update_status now action_id approved lock_version approved_by none)

unfoldable pub waiver_record : ℕ → CompensationAction → Option String → RollbackRecord
waiver_record now a waived_by = record {
  tenant_id = a.tenant_id;
  compensation_action_id = a.id;
  side_effect_id = a.side_effect_id;
  intent_id = a.intent_id;
  result = waiver;
  summary = lit "Compensation action waived" ∷ [];
  error_code = none;
  error_detail = none;
  recorded_by = waived_by;
  recorded_at = now;
  lock_version = 0;
}

unfoldable pub waive_action : Service → ℕ → ℕ → ℕ → Option String → Act World CompensationAction
unfolding find update_status validate waiver_record noted
waive_action svc now action_id lock_version waived_by = do
  a ← on_repo (find action_id)
  validate a waived
  updated ← on_repo (update_status now action_id waived lock_version none waived_by)
  note svc (waiver_record now a waived_by)
  pure updated

-- The two fallbacks for a pair of strategy and feasibility that no executor takes.
unsupported_combo : ℕ → CompensationAction → ExecutionResult
unfolding execution_failure
unsupported_combo now a =
    execution_failure now
      (lit "Unsupported strategy/feasibility combo: "
        ∷ lit (strategy_debug a.strategy_type)
        ∷ lit " + "
        ∷ lit (feasibility_debug a.feasibility)
        ∷ [])
      "UNSUPPORTED_COMBO" none

dispatch :
    StrategyType
    → CompensationFeasibility
    → ℕ
    → (ℕ → Result SideEffect)
    → CompensationAction
    → Result ExecutionResult
unfolding rollback_execute counter_action_execute followup_notice_execute escalation_execute
    unsupported_combo
dispatch rollback automatic now get a = rollback_execute now get a
dispatch counter_action semi_automatic now get a = counter_action_execute now get a
dispatch followup_notice manual_only now get a = followup_notice_execute now get a
dispatch escalation not_possible now get a = escalation_execute now get a
dispatch _ _ now get a = ok (unsupported_combo now a)

-- Without a side effect repository each supported pair succeeds.
stub : ℕ → CompensationAction → ExecutionResult
unfolding execution_success unsupported_combo
stub now a =
    if executable_combo a.strategy_type a.feasibility
    then execution_success now (
        lit "Stub: executed "
        ∷ lit (strategy_debug a.strategy_type)
        ∷ lit " for action "
        ∷ uuid a.id
        ∷ [])
    else unsupported_combo now a

unfoldable pub run_executor : Service → ℕ → CompensationAction → Result ExecutionResult
unfolding dispatch stub
run_executor svc now a = elim svc.side_effect_repo [
  | none ↦ ok (stub now a)
  | some repo ↦ dispatch a.strategy_type a.feasibility now repo.find_effect a
]

unfoldable pub outcome_payload : ExecutionResult → ℕ → AuditPayload
outcome_payload result action_id =
    if result.success then completed else failure_reported action_id result.summary

abbrev pub actor_or_system : Option String → String
actor_or_system none = system_actor
actor_or_system (some actor) = actor

abbrev code_or_unknown : Option String → String
code_or_unknown none = "UNKNOWN_ERROR"
code_or_unknown (some code) = code

unfoldable pub execution_record :
    ℕ → ExecutionResult → CompensationAction → Option String → RollbackRecord
execution_record now result a executed_by = record {
  tenant_id = a.tenant_id;
  compensation_action_id = a.id;
  side_effect_id = a.side_effect_id;
  intent_id = a.intent_id;
  result = if result.success then success else failure;
  summary = result.summary;
  error_code = if result.success then none else some (code_or_unknown result.error_code);
  error_detail = if result.success then none else result.error_detail;
  recorded_by = executed_by;
  recorded_at = now;
  lock_version = 0;
}

unfoldable pub execute_action : Service → ℕ → ℕ → Option String → Act World CompensationAction
unfolding find record_result run_executor outcome_payload execution_record emitted noted
execute_action svc now action_id executed_by = do
  a ← on_repo (find action_id)
  require (status_eq a.status approved) (compensation_action_not_executable action_id)
  require (executable_combo a.strategy_type a.feasibility)
      (compensation_action_not_executable action_id)
  result ← of_result (run_executor svc now a)
  emit svc (event_of a (actor_or_system executed_by) started)
  updated ← on_repo (record_result action_id result a.lock_version executed_by)
  emit svc (event_of a (actor_or_system executed_by) (outcome_payload result action_id))
  note svc (execution_record now result a executed_by)
  pure updated

-- The denial of the third gate.
abbrev pub deny : ℕ → Option Message → Act World (Unit {0})
deny action_id none = pure tt
deny action_id (some reason) = fail (compensation_action_not_reapprovable action_id reason)

unfoldable pub reapprove_action : ℕ → ℕ → Act World CompensationAction
unfolding find reapprove reapproval_denial_reason
reapprove_action action_id lock_version = do
  a ← on_repo (find action_id)
  require (status_eq a.status failed) (
      invalid_compensation_action_transition (status_debug a.status) "Pending"
        (lit "Only Failed actions can be reapproved" ∷ []))
  require (not (geb a.attempt_count a.max_retries)) (
      compensation_action_not_reapprovable action_id (
        lit "Retry budget exhausted: "
        ∷ int a.attempt_count
        ∷ lit " attempts made (max="
        ∷ int a.max_retries
        ∷ lit ")"
        ∷ []))
  deny action_id (reapproval_denial_reason a)
  on_repo (reapprove action_id lock_version)

unfoldable pub list_dlq_candidates : ℕ → ActionRepo → List CompensationAction
list_dlq_candidates tenant_id r = filter is_dlq_candidate (list_by_status tenant_id failed r)

unfoldable pub get_dlq_candidate_count : ℕ → ActionRepo → ℕ
unfolding list_dlq_candidates
get_dlq_candidate_count tenant_id r = length (list_dlq_candidates tenant_id r)

pub record BatchCandidates : Type 0 where
  pub pending_approval_candidates : List CompensationAction
  pub approved_service_executable_candidates : List CompensationAction
  pub retryable_failed_candidates : List CompensationAction
  pub dlq_candidates : List CompensationAction

unfoldable pub list_batch_candidates : ℕ → ActionRepo → BatchCandidates
list_batch_candidates tenant_id r = record {
  pending_approval_candidates = list_by_status tenant_id pending r;
  approved_service_executable_candidates =
      filter is_service_executable (list_by_status tenant_id approved r);
  retryable_failed_candidates = filter can_be_reapproved (list_by_status tenant_id failed r);
  dlq_candidates = filter is_dlq_candidate (list_by_status tenant_id failed r);
}
