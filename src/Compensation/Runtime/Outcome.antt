-- ===== src/Compensation/Runtime/Outcome.antt =====
-- `OrchestrationRuntime::execute_run`: what a run over explicit actions returns and what it does to them.
use intent_rebase.Base.{
  ℕ, ◌+◌, insert, String, true, Option, some, List, map, ◌≡◌, ◌≢◌, ◌↔◌, arith, get, get-insert,
  length, ok,
}
use intent_rebase.Compensation.Action.{CompensationAction, is_terminal}
use intent_rebase.Compensation.Run.{
  OrchestrationRun, run_completed, mark_completed, new_run, create_run_entry,
}
use intent_rebase.Compensation.Service.{Service}
use intent_rebase.Compensation.Service.Lifecycle.{AllInBudget}
use intent_rebase.Compensation.Runtime.Defs.{RuntimeWorld, execute_run}
use intent_rebase.Compensation.Runtime.Effects.{
  RepoPath-AllInBudget, RepoPath-terminal, RepoPath-Spares, Keyed,
}
use intent_rebase.Compensation.Runtime.Counts.{Counted}
use intent_rebase.Compensation.Runtime.Passes.{Executed, execute_existing_run-Executed}

execute_run-Executed :
    (svc : Service) (id now t : ℕ) (ids : List ℕ) (by : Option String) (intent : Option ℕ)
    (w : RuntimeWorld)
    → Executed now
        (new_run id now t ids by intent)
        (record w { runs = insert id (new_run id now t ids by intent) w.runs })
        (execute_run svc id now t ids by intent w)
unfolding execute_run create_run_entry new_run
execute_run-Executed svc id now t ids by intent w =
    execute_existing_run-Executed svc now (new_run id now t ids by intent)
      (record w { runs = insert id (new_run id now t ids by intent) w.runs })
      (ground (arith, get-insert id id (new_run id now t ids by intent) w.runs))

-- What a run reports about the actions `ids`.
pub record Reported (ids : List ℕ) (run : OrchestrationRun) : Type 0 where
  pub each : map (λ i. i.action_id) run.item_results ≡ ids
  pub sum : run.succeeded_count + run.failed_count + run.not_found_count ≡ length ids
  pub total : run.total_count ≡ length ids
  pub none_skipped : run.skipped_count ≡ 0
  pub completed : (run.status ≡ run_completed) ↔ (run.succeeded_count ≡ length ids)

completed_Reported :
    (id now t : ℕ) (ids : List ℕ) (by : Option String) (intent : Option ℕ) (run : OrchestrationRun)
    → Counted ids (new_run id now t ids by intent) run
    → Reported ids (mark_completed now run)
unfolding mark_completed new_run
completed_Reported id now t ids by intent run c = record {
  each = c.items;
  sum = omega (arith, c.sum);
  total = c.total;
  none_skipped = c.skipped;
  completed = (λ e. ground (arith, c.sum), λ e. ground (arith, c.sum));
}

-- A run over any list of actions, in any state, ends and returns a run: the one stored under its
-- identifier, with one item for each listed action in the order of the list. Every action is counted
-- as succeeded, failed or not found, never as skipped, and the run is completed, without errors,
-- exactly when every action is counted as succeeded.
pub execute_run_reports :
    (svc : Service) (id now t : ℕ) (ids : List ℕ) (by : Option String) (intent : Option ℕ)
    (w : RuntimeWorld)
    → let x = execute_run svc id now t ids by intent w in
      (run : OrchestrationRun) × (x.0 ≡ ok run) × (get id x.1.runs ≡ some run) × Reported ids run
unfolding new_run
execute_run_reports svc id now t ids by intent w =
    let x = execute_run-Executed svc id now t ids by intent w in
    (
      mark_completed now x.passed,
      x.returns,
      x.stored,
      completed_Reported id now t ids by intent x.passed x.counted,
    )

-- A run keeps every action within its retry budget.
pub execute_run-AllInBudget :
    (svc : Service) (id now t : ℕ) (ids : List ℕ) (by : Option String) (intent : Option ℕ)
    (w : RuntimeWorld)
    → AllInBudget w.world.repo
    → AllInBudget (execute_run svc id now t ids by intent w).1.world.repo
execute_run-AllInBudget svc id now t ids by intent w =
    RepoPath-AllInBudget (execute_run-Executed svc id now t ids by intent w).path

-- A run leaves every executed or waived action as it is, listed or not.
pub execute_run_terminal :
    (svc : Service) (id now t : ℕ) (ids : List ℕ) (by : Option String) (intent : Option ℕ)
    (w : RuntimeWorld) (k : ℕ) (a : CompensationAction)
    → get k w.world.repo.actions ≡ some a
    → is_terminal a.status ≡ true
    → get k (execute_run svc id now t ids by intent w).1.world.repo.actions ≡ some a
execute_run_terminal svc id now t ids by intent w =
    RepoPath-terminal (execute_run-Executed svc id now t ids by intent w).path

-- A run leaves the actions of the other tenants as they are, listed or not, in a repository that stores
-- every action under its identifier.
pub execute_run_isolated :
    (svc : Service) (id now t : ℕ) (ids : List ℕ) (by : Option String) (intent : Option ℕ)
    (w : RuntimeWorld)
    → Keyed w.world.repo
    → (k : ℕ) (a : CompensationAction) → get k w.world.repo.actions ≡ some a
    → a.tenant_id ≢ t
    → get k (execute_run svc id now t ids by intent w).1.world.repo.actions ≡ some a
unfolding new_run
execute_run_isolated svc id now t ids by intent w =
    RepoPath-Spares (execute_run-Executed svc id now t ids by intent w).path
