-- ===== src/Compensation/Runtime/Failures.antt =====
-- What a run makes of an execution that fails (`handle_approved_action`), and of an action that it may
-- not see.
use intent_rebase.Base.{ℕ, true, false, some, none, ◌≡◌, refl, arith, get, get-insert, ok}
use intent_rebase.Compensation.Action.{
  CompensationAction, ExecutionResult, approved, failed, is_service_executable,
}
use intent_rebase.Compensation.Repo.{find, with_result}
use intent_rebase.Compensation.Run.{RunItemResult, execute}
use intent_rebase.Compensation.Service.{Service, World, execute_action, run_executor}
use intent_rebase.Compensation.Service.Failing.{execute_action_executable}
use intent_rebase.Compensation.Runtime.Defs.{
  process_single_action, handle, handle_approved_action, item_of,
}

process_approved :
    (svc : Service) (now t id : ℕ) (w : World) (a : CompensationAction)
    → get id w.repo.actions ≡ some a
    → a.id ≡ id
    → a.tenant_id ≡ t
    → a.status ≡ approved
    → is_service_executable a ≡ true
    → let x = execute_action svc now id none w in
      process_single_action svc now t id w
      ≡ (ok (item_of a execute "Action executed successfully" x.0), x.1)
unfolding process_single_action find handle handle_approved_action
process_approved svc now t id w a e n same p c = ground arith

-- An execution that fails is reported by the run as a success: for an approved action of the tenant that
-- the service can execute, and whose executor ends with a failing result, the item says `success`, while
-- the action is stored as failed.
pub failed_execution_reported_as_success :
    (svc : Service) (now t id : ℕ) (w : World) (a : CompensationAction) (result : ExecutionResult)
    → get id w.repo.actions ≡ some a
    → a.id ≡ id
    → a.tenant_id ≡ t
    → a.status ≡ approved
    → is_service_executable a ≡ true
    → run_executor svc now a ≡ ok result
    → result.success ≡ false
    → let x = process_single_action svc now t id w in
      (i : RunItemResult) × (x.0 ≡ ok i)
      × (i.success ≡ true)
      × (i.action_taken ≡ execute)
      × ((b : CompensationAction) × (get id x.1.repo.actions ≡ some b) × (b.status ≡ failed))
unfolding with_result
failed_execution_reported_as_success svc now t id w a result e n same p c f bad =
    let (same_result, same_repo) = execute_action_executable svc now none id w a result e p c f in
    let h = process_approved svc now t id w a e n same p c in
    let b = with_result result none a in
    (
      item_of a execute "Action executed successfully" (ok b),
      ground (arith, h, same_result),
      refl,
      refl,
      (b, ground (arith, h, same_repo, get-insert id id b w.repo.actions), ground arith),
    )
