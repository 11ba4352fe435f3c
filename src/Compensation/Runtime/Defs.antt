-- ===== src/Compensation/Runtime/Defs.antt =====
-- A run over explicit actions: each is approved, executed, reapproved or skipped by its status.
use intent_rebase.Base.{
  ℕ, String, Bool, true, false, Option, some, none, List, [], ◌∷◌, ◌==◌, if◌then◌else◌, Map, Result,
  ok, err, Act, ◌>>=◌, ◌>>◌, pure, require, attempt, compensation_action_not_found, Message, lit,
  Text, said, display,
}
use intent_rebase.Compensation.Action.{
  CompensationAction, CompensationStatus, pending, approved, executed, failed, waived, status_debug,
  strategy_debug, feasibility_debug, is_service_executable,
}
use intent_rebase.Compensation.Action.Retry.{can_be_reapproved, reapproval_denial_reason}
use intent_rebase.Compensation.Repo.{find}
use intent_rebase.Compensation.Service.{
  Service, World, on_repo, approve_action, execute_action, reapprove_action,
}
use intent_rebase.Compensation.Run.{
  OrchestrationRun, RunItemResult, Decision, approve, reapprove, execute, skip, new_run,
  mark_started, mark_completed, record_success, record_failure, record_not_found, create_run_entry,
  get_run, update_run,
}

abbrev pub item : CompensationAction → Decision → Bool → Text → String → RunItemResult
item a decision success reason resulting_status = record {
  action_id = a.id;
  action_taken = decision;
  success = success;
  reason = reason;
  resulting_status = resulting_status;
}

-- The item of a service call: its error is an item that failed, never an error of the run.
abbrev pub item_of :
    CompensationAction → Decision → String → Result CompensationAction → RunItemResult
item_of a decision done (ok b) = item a decision true (said (lit done ∷ [])) (status_debug b.status)
item_of a decision done (err e) = item a decision false (display e) (status_debug a.status)

unfoldable pub handle_pending_action : ℕ → CompensationAction → Act World RunItemResult
unfolding approve_action
handle_pending_action now a = do
  r ← attempt (approve_action now a.id a.lock_version none)
  pure (item_of a approve "Action approved successfully" r)

unfoldable pub handle_approved_action : Service → ℕ → CompensationAction → Act World RunItemResult
unfolding execute_action is_service_executable
handle_approved_action svc now a =
    if is_service_executable a
    then (do
      r ← attempt (execute_action svc now a.id none)
      pure (item_of a execute "Action executed successfully" r))
    else pure (
        item a skip true
          (said (
            lit "Action requires manual execution or is unsupported ("
            ∷ lit (feasibility_debug a.feasibility)
            ∷ lit ", "
            ∷ lit (strategy_debug a.strategy_type)
            ∷ lit ")"
            ∷ []))
          (status_debug a.status))

abbrev denial_or_default : Option Message → Message
denial_or_default none = lit "DLQ candidate or non-retryable error" ∷ []
denial_or_default (some m) = m

unfoldable pub handle_failed_action : CompensationAction → Act World RunItemResult
unfolding reapprove_action can_be_reapproved
handle_failed_action a =
    if can_be_reapproved a
    then (do
      r ← attempt (reapprove_action a.id a.lock_version)
      pure (item_of a reapprove "Action reapproved successfully" r))
    else pure (
        item a skip true (said (denial_or_default (reapproval_denial_reason a)))
          (status_debug a.status))

terminal_item : ℕ → CompensationAction → RunItemResult
terminal_item action_id a = record {
  action_id = action_id;
  action_taken = skip;
  success = true;
  reason = said (lit "Action is in " ∷ lit (status_debug a.status) ∷ lit " status (terminal)" ∷ []);
  resulting_status = status_debug a.status;
}

unfoldable pub handle :
    CompensationStatus → Service → ℕ → ℕ → CompensationAction → Act World RunItemResult
unfolding handle_pending_action handle_approved_action handle_failed_action terminal_item
handle pending svc now action_id a = handle_pending_action now a
handle approved svc now action_id a = handle_approved_action svc now a
handle failed svc now action_id a = handle_failed_action a
handle executed svc now action_id a = pure (terminal_item action_id a)
handle waived svc now action_id a = pure (terminal_item action_id a)

unfoldable pub process_single_action : Service → ℕ → ℕ → ℕ → Act World RunItemResult
unfolding handle
process_single_action svc now tenant_id action_id = do
  a ← on_repo (find action_id)
  require (a.tenant_id == tenant_id) (compensation_action_not_found action_id)
  handle a.status svc now action_id a

-- How the outcome of one action is recorded.
abbrev pub recorded : ℕ → Result RunItemResult → OrchestrationRun → OrchestrationRun
recorded action_id (ok i) run =
    if i.success
    then record_success action_id i.action_taken i.reason i.resulting_status run
    else record_failure action_id i.action_taken i.reason i.resulting_status run
recorded action_id (err (compensation_action_not_found _)) run = record_not_found action_id run
recorded action_id (err e) run = record_failure action_id skip (display e) "error" run

-- The service's state with the repository of runs.
pub record RuntimeWorld : Type 0 where
  pub world : World
  pub runs : Map OrchestrationRun

abbrev pub on_runs : {A : Type 0} → Act (Map OrchestrationRun) A → Act RuntimeWorld A
on_runs m w = let (r, s) = m w.runs in (r, record w { runs = s })

abbrev pub on_world : {A : Type 0} → Act World A → Act RuntimeWorld A
on_world m w = let (r, s) = m w.world in (r, record w { world = s })

-- The pass over the actions, with an update of the stored run after each.
unfoldable pub run_items :
    Service → ℕ → ℕ → List ℕ → OrchestrationRun → Act RuntimeWorld OrchestrationRun
unfolding process_single_action update_run
run_items svc now tenant_id [] run = pure run
run_items svc now tenant_id (action_id ∷ rest) run = do
  r ← on_world (attempt (process_single_action svc now tenant_id action_id))
  updated ← on_runs (update_run (recorded action_id r run))
  run_items svc now tenant_id rest updated

unfoldable pub execute_existing_run : Service → ℕ → ℕ → Act RuntimeWorld OrchestrationRun
unfolding get_run update_run run_items mark_started mark_completed
execute_existing_run svc now run_id = do
  run ← on_runs (get_run run_id)
  begun ← on_runs (update_run (mark_started now run))
  passed ← run_items svc now run.tenant_id begun.action_ids begun
  on_runs (update_run (mark_completed now passed))

unfoldable pub execute_run :
    Service → ℕ → ℕ → ℕ → List ℕ → Option String → Option ℕ → Act RuntimeWorld OrchestrationRun
unfolding create_run_entry new_run execute_existing_run
execute_run svc id now tenant_id action_ids initiated_by intent_id = do
  run ← on_runs (create_run_entry (new_run id now tenant_id action_ids initiated_by intent_id))
  execute_existing_run svc now run.id
