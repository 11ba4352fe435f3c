-- ===== src/Compensation/Service/Failing.antt =====
-- What `execute_action` returns.
use intent_rebase.Base.{
  ℕ, inl, inr, Result-cases, String, true, Option, some, ◌≡◌, arith, get, ok, ==_refl,
}
use intent_rebase.Compensation.Executor.{
  rollback_execute, counter_action_execute, followup_notice_execute, escalation_execute,
  execute_impl,
}
use intent_rebase.Compensation.Action.{
  CompensationAction, ExecutionResult, approved, is_service_executable,
}
use intent_rebase.Compensation.Repo.{ActionRepo, find, record_result, store, with_result}
use intent_rebase.Compensation.Service.Defs.{
  Service, World, emitted, noted, execute_action, run_executor,
}

record_result-current :
    (id : ℕ) (result : ExecutionResult) (by : Option String) (a : CompensationAction)
    (r : ActionRepo)
    → get id r.actions ≡ some a
    → record_result id result a.lock_version by r
      ≡ (ok (with_result result by a), store id a (with_result result by a) r)
unfolding record_result
record_result-current id result by a r e = ground (arith, ==_refl a.lock_version)

-- An approved action that the service can execute is returned with the result of its executor, also
-- where the result is a failure.
pub execute_action_executable :
    (svc : Service) (now : ℕ) (by : Option String) (id : ℕ) (w : World) (a : CompensationAction)
    (result : ExecutionResult)
    → get id w.repo.actions ≡ some a
    → a.status ≡ approved
    → is_service_executable a ≡ true
    → run_executor svc now a ≡ ok result
    → let x = execute_action svc now id by w in
      (x.0 ≡ ok (with_result result by a))
      × (x.1.repo ≡ store id a (with_result result by a) w.repo)
unfolding execute_action find emitted noted is_service_executable
execute_action_executable svc now by id w a result e p c f =
    let written = record_result-current id result by a w.repo e in (ground arith, ground arith)

-- An executor ends with a result in every case, its failures included.
pub run_executor_returns :
    (svc : Service) (now : ℕ) (a : CompensationAction)
    → (result : ExecutionResult) × (run_executor svc now a ≡ ok result)
unfolding run_executor rollback_execute counter_action_execute followup_notice_execute
    escalation_execute execute_impl
run_executor_returns svc now a = elim (Result-cases (run_executor svc now a)) [
  | inl found ↦ found
  | inr (e, f) ↦ absurd (ground (arith, f))
]
