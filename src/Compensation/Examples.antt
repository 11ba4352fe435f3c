-- ===== src/Compensation/Examples.antt =====
-- Concrete inputs: an internal effect with its planned rollback, the repository that holds it, a
-- service with every collaborator, and the theorems at them.
use intent_rebase.Base.{
  ℕ, true, some, none, List, [], ◌∷◌, ◌≡◌, ◌↔◌, refl, subst, arith, ◌==◌, get, insert, length,
  filter, map, ok, err, if◌then◌else◌, side_effect_not_found, concurrency_conflict,
}
use mathlib.Core.Option
use intent_rebase.Compensation.SideEffect.{SideEffect, s0_pure_read, s1_internal_reversible}
use intent_rebase.Compensation.Action.{
  CompensationAction, RebaseContext, ExecutionResult, approved, executed, failed, waived,
  is_terminal, is_service_executable, automatic, rollback, new_action, execution_failure,
  from_side_effect,
}
use intent_rebase.Compensation.Repo.{
  ActionRepo, empty, create, with_status, with_result, update_status,
}
use intent_rebase.Compensation.Repo.Index.{IsIndexed}
use intent_rebase.Compensation.Repo.History.{
  Write, sets_status, write, History, start, creates, History-IsIndexed, second_writer_refused,
}
use intent_rebase.Compensation.Planner.{plan_from_side_effects, classify_and_plan_action}
use intent_rebase.Compensation.Planner.Coverage.{
  IsPlanned, Pairwise, taken, is_effect, succeeded, plan_from_side_effects-IsPlanned,
  planned_action_succeeds,
}
use intent_rebase.Compensation.Service.{
  Service, SideEffectRepo, World, run_executor, approve_action, reapprove_action, execute_action,
}
use intent_rebase.Compensation.Service.Moves.{RepoStep}
use intent_rebase.Compensation.Service.Lifecycle.{
  Call, approve, execute, call, run, call-RepoStep, InBudget, AllInBudget, run-AllInBudget,
  run_terminal,
}
use intent_rebase.Compensation.Proposal
use intent_rebase.Compensation.Proposal.Soundness.{accepted, proposals_accepted}
use intent_rebase.Compensation.Run.{RunItemResult}
use intent_rebase.Compensation.Run
use intent_rebase.Compensation.Runtime.{RuntimeWorld, process_single_action, execute_run}
use intent_rebase.Compensation.Runtime.Outcome.{Reported, execute_run_reports, execute_run_isolated}
use intent_rebase.Compensation.Runtime.Failures.{failed_execution_reported_as_success}

abbrev context : RebaseContext
context = record { intent_id = 21; from_version = 1; to_version = 2; workflow_id = 31 }

abbrev effect : SideEffect
effect = record {
  id = 11;
  tenant_id = 7;
  intent_id = 21;
  intent_version = 1;
  effect_class = s1_internal_reversible;
  effect_type = "index";
  target = "search";
  occurred_at = 90;
  idempotency_key = none;
}

abbrev read_only : SideEffect
read_only = record effect { id = 12; effect_class = s0_pure_read }

abbrev planned : CompensationAction
unfolding new_action
planned = new_action 1 100 7 11 21 context automatic rollback []

abbrev stored : ActionRepo
unfolding create empty
stored = (create planned empty).1

stored-History : History stored
unfolding empty create stored
stored-History = creates planned start refl

abbrev effects : SideEffectRepo
effects = record {
  find_effect = λ k. if k == 11 then ok effect else err (side_effect_not_found k);
  list_by_intent = λ t i. ok (effect ∷ read_only ∷ []);
}

abbrev service : Service
service = record {
  side_effect_repo = some effects;
  rollback_record_repo = some (λ r. true);
  audit_repo = some (λ e. true);
}

abbrev world : World
world = record { repo = stored; audit_log = []; rollback_log = [] }

abbrev calls : List (ℕ × Call)
calls = (101, approve 1 0 (some "ops")) ∷ (102, execute 1 none) ∷ []

stored_only : (k : ℕ) (a : CompensationAction) → get k stored.actions ≡ some a → planned ≡ a
unfolding stored create empty planned insert
stored_only k a f = ground arith

planned-InBudget : InBudget planned
unfolding planned
planned-InBudget = record { range = omega arith; spent = omega arith; left = λ e. omega arith }

stored-AllInBudget : AllInBudget stored
stored-AllInBudget k a f = subst InBudget (stored_only k a f) planned-InBudget

-- The calls approve the action and execute it.
ran_executes :
    Option.map (λ a. a.status) (get 1 (run service calls world).repo.actions) ≡ some executed
unfolding run stored empty create planned insert with_status with_result
ran_executes = refl

call-RepoStep_example : RepoStep world.repo (call service 101 (approve 1 0 (some "ops")) world).repo
call-RepoStep_example = call-RepoStep service 101 (approve 1 0 (some "ops")) world

run-AllInBudget_example : AllInBudget (run service calls world).repo
run-AllInBudget_example = run-AllInBudget service calls world stored-AllInBudget

-- An executed action.
abbrev done : CompensationAction
unfolding planned
done = record planned { status = executed; attempt_count = 1; lock_version = 2 }

abbrev done_world : World
done_world = record world { repo = record stored { actions = (1, done) ∷ [] } }

run_terminal_example : get 1 (run service calls done_world).repo.actions ≡ some done
unfolding is_terminal done
run_terminal_example = run_terminal service calls done_world 1 done refl refl

History-IsIndexed_example : IsIndexed stored
History-IsIndexed_example = History-IsIndexed stored-History

abbrev approving : Write
approving = sets_status 101 approved (some "ops") none

abbrev waiving : Write
waiving = sets_status 102 waived none (some "dev")

abbrev approved_action : CompensationAction
unfolding with_status planned
approved_action = with_status approved 101 (some "ops") none planned

abbrev after_approval : ActionRepo
unfolding write stored empty create planned
after_approval = (write 1 0 approving stored).1

approval_written : write 1 0 approving stored ≡ (ok approved_action, after_approval)
unfolding write stored empty create planned approved_action after_approval update_status insert
approval_written = refl

second_writer_refused_example :
    write 1 0 waiving after_approval ≡ (err (concurrency_conflict 1), after_approval)
second_writer_refused_example =
    second_writer_refused 1 0 approving waiving stored after_approval approved_action
      approval_written

plan_from_side_effects-IsPlanned_example :
    let plan = plan_from_side_effects (λ n. n) 100 context (effect ∷ read_only ∷ []) 7 in
    Pairwise (IsPlanned 100 7 context) (filter is_effect (effect ∷ read_only ∷ [])) plan
    × (map (λ a. a.id) plan ≡ taken (λ n. n) 0 (length plan))
plan_from_side_effects-IsPlanned_example =
    plan_from_side_effects-IsPlanned (λ n. n) 100 7 context (effect ∷ read_only ∷ [])

abbrev planned_rollback : CompensationAction
unfolding from_side_effect
planned_rollback = elim (classify_and_plan_action 1 100 7 effect context) [
  | none ↦ planned
  | some a ↦ a
]

planned_action_succeeds_example : succeeded (run_executor service 102 planned_rollback) ≡ true
unfolding classify_and_plan_action planned_rollback
planned_action_succeeds_example =
    planned_action_succeeds service effects 1 100 102 7 effect context planned_rollback refl refl
      refl refl

abbrev runtime_world : RuntimeWorld
runtime_world = record { world = world; runs = [] }

execute_run_reports_example :
    let x = execute_run service 41 200 7 (1 ∷ 5 ∷ []) (some "ops") (some 21) runtime_world in
    (r : Run.OrchestrationRun) × (x.0 ≡ ok r) × (get 41 x.1.runs ≡ some r) × Reported (1 ∷ 5 ∷ []) r
execute_run_reports_example =
    execute_run_reports service 41 200 7 (1 ∷ 5 ∷ []) (some "ops") (some 21) runtime_world

-- A service whose repository has lost the side effect: the execution fails.
abbrev forgetful : Service
forgetful = record service {
  side_effect_repo = some (record effects { find_effect = λ k. err (side_effect_not_found k) });
}

abbrev ready : CompensationAction
unfolding planned
ready = record planned { status = approved }

abbrev ready_world : World
ready_world = record world { repo = record stored { actions = (1, ready) ∷ [] } }

abbrev failing : ExecutionResult
unfolding run_executor ready
failing = elim (run_executor forgetful 102 ready) [
  | ok r ↦ r
  | err e ↦ execution_failure 0 [] "" none
]

failed_execution_reported_as_success_example :
    let x = process_single_action forgetful 102 7 1 ready_world in
    (i : RunItemResult) × (x.0 ≡ ok i)
    × (i.success ≡ true)
    × (i.action_taken ≡ Run.execute)
    × ((b : CompensationAction) × (get 1 x.1.repo.actions ≡ some b) × (b.status ≡ failed))
unfolding run_executor is_service_executable ready failing
failed_execution_reported_as_success_example =
    failed_execution_reported_as_success forgetful 102 7 1 ready_world ready failing refl refl refl
      refl refl refl refl

proposals_accepted_example :
    let proposal = (Proposal.compute_action_proposal ready).proposed_action in
    ((proposal ≡ Proposal.approve) ↔ (accepted (approve_action 102 1 0 none ready_world).0 ≡ true))
    × ((proposal ≡ Proposal.reapprove) ↔ (accepted (reapprove_action 1 0 ready_world).0 ≡ true))
    × ((proposal ≡ Proposal.execute)
        ↔ (accepted (execute_action service 102 1 none ready_world).0 ≡ true))
unfolding ready planned
proposals_accepted_example = proposals_accepted ready_world ready refl service 102 none

-- A run of another tenant over the stored action.
execute_run_isolated_example :
    get 1 (execute_run service 41 200 8 (1 ∷ []) none none runtime_world).1.world.repo.actions
    ≡ some planned
unfolding stored create empty insert planned
execute_run_isolated_example =
    execute_run_isolated service 41 200 8 (1 ∷ []) none none runtime_world
      (History-IsIndexed stored-History).keyed 1 planned refl (λ e. omega (arith, e))
