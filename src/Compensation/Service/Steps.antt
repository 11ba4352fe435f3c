-- ===== src/Compensation/Service/Steps.antt =====
-- Each call of the service makes at most one move of one action.
use intent_rebase.Base.{
  ℕ, String, false, ◌&&◌, Option, some, none, ◌≡◌, refl, ap, ◌⊎◌, inl, inr, arith, get,
  Option-cases, Bool-cases, Result-cases, Result, ok,
}
use intent_rebase.Base.Int32
use intent_rebase.Compensation.Action.{
  CompensationAction, ExecutionResult, pending, approved, failed, waived, status_eq,
  executable_combo,
}
use intent_rebase.Compensation.Action.Retry.{reapproval_denial_reason}
use intent_rebase.Compensation.Action.Policy.{retry_policy}
use intent_rebase.Compensation.Action.Transition.{can_transition_to}
use intent_rebase.Compensation.Repo.{
  ActionRepo, find, update_status, record_result, reapprove, with_status, with_result, reapproved,
}
use intent_rebase.Compensation.Repo.Locking.{
  Outcome, unchanged, updated, update_status-Outcome, record_result-Outcome, reapprove-Outcome,
}
use intent_rebase.Compensation.Service.Defs.{
  Service, World, AuditEvent, RollbackRecord, emitted, noted, validate, waiver_record,
  approve_action, waive_action, execute_action, reapprove_action, run_executor,
}
use intent_rebase.Compensation.Service.Moves.{
  Move, approves, waives, executes, fails, retries, RepoStep, quiet, moves,
}

emitted-repo : (svc : Service) (e : AuditEvent) (w : World) → (emitted svc e w).repo ≡ w.repo
unfolding emitted
emitted-repo svc e w = ground arith

noted-repo : (svc : Service) (e : RollbackRecord) (w : World) → (noted svc e w).repo ≡ w.repo
unfolding noted
noted-repo svc e w = ground arith

Outcome-RepoStep :
    {id v : ℕ} {change : CompensationAction → CompensationAction} {r : ActionRepo}
    {x : Result CompensationAction × ActionRepo}
    → Outcome id v change r x
    → ((a : CompensationAction)
        → get id r.actions ≡ some a
        → Move a (change a) × ((change a).max_retries ≡ a.max_retries))
    → RepoStep r x.1
Outcome-RepoStep (unchanged e) h = quiet refl
Outcome-RepoStep {id} {v} {change} (updated b s u) h =
    let (move, same) = h u.before u.found in
    moves id u.before b u.found u.revises (rw u.changed same) (rw u.changed move) u.applied

-- A call either leaves the repository as it was, or it is about an action that passed the guards,
-- and ends in one update.
pub approve_cases :
    (now id v : ℕ) (by : Option String) (w : World)
    → ((approve_action now id v by w).1 ≡ w)
      ⊎ ((a : CompensationAction) × (get id w.repo.actions ≡ some a)
          × (a.status ≡ pending)
          × ((approve_action now id v by w).1.repo
              ≡ (update_status now id approved v by none w.repo).1))
unfolding approve_action find validate can_transition_to
approve_cases now id v by w = elim (Option-cases (get id w.repo.actions)) [
  | inl e ↦ inl (ground arith)
  | inr (a, e) ↦ elim (Bool-cases (status_eq a.status pending)) [
    | inl is ↦ inr (a, e, ground arith, ground arith)
    | inr other ↦ inl (ground arith)
  ]
]

waive_cases :
    (svc : Service) (now id v : ℕ) (by : Option String) (w : World)
    → ((waive_action svc now id v by w).1 ≡ w)
      ⊎ ((a : CompensationAction) × (get id w.repo.actions ≡ some a)
          × (a.status ≡ pending)
          × ((waive_action svc now id v by w).1.repo
              ≡ (update_status now id waived v none by w.repo).1))
unfolding waive_action find validate can_transition_to
waive_cases svc now id v by w = elim (Option-cases (get id w.repo.actions)) [
  | inl e ↦ inl (ground arith)
  | inr (a, e) ↦ elim (Bool-cases (status_eq a.status pending)) [
    | inl is ↦ inr (
      a,
      e,
      ground arith,
      ground (
        arith,
        noted-repo svc (waiver_record now a by)
            (record w { repo = (update_status now id waived v none by w.repo).1 }),
      ),
    )
    | inr other ↦ inl (ground arith)
  ]
]

reapprovable :
    (a : CompensationAction)
    → reapproval_denial_reason a ≡ none
    → (a.status ≡ failed) × (Int32.geb a.attempt_count a.max_retries ≡ false)
unfolding reapproval_denial_reason
reapprovable a n = ground arith

pub reapprove_cases :
    (id v : ℕ) (w : World)
    → ((reapprove_action id v w).1 ≡ w)
      ⊎ ((a : CompensationAction) × (get id w.repo.actions ≡ some a)
          × (a.status ≡ failed)
          × (reapproval_denial_reason a ≡ none)
          × ((reapprove_action id v w).1.repo ≡ (reapprove id v w.repo).1))
unfolding reapprove_action find
reapprove_cases id v w = elim (Option-cases (get id w.repo.actions)) [
  | inl e ↦ inl (ground arith)
  | inr (a, e) ↦ elim (Option-cases (reapproval_denial_reason a)) [
    | inl n ↦ inr (a, e, (reapprovable a n).0, n, ground (arith, reapprovable a n))
    | inr (m, n) ↦ inl (ground arith)
  ]
]

pub execute_cases :
    (svc : Service) (now id : ℕ) (by : Option String) (w : World)
    → ((execute_action svc now id by w).1 ≡ w)
      ⊎ ((a : CompensationAction) × (result : ExecutionResult) × (get id w.repo.actions ≡ some a)
          × (a.status ≡ approved)
          × (run_executor svc now a ≡ ok result)
          × ((execute_action svc now id by w).1.repo
              ≡ (record_result id result a.lock_version by w.repo).1))
unfolding execute_action find emitted noted
execute_cases svc now id by w = elim (Option-cases (get id w.repo.actions)) [
  | inl e ↦ inl (ground arith)
  | inr (a, e) ↦
      elim (Bool-cases
        (status_eq a.status approved && executable_combo a.strategy_type a.feasibility)) [
          | inl is ↦ elim (Result-cases (run_executor svc now a)) [
            | inl (result, f) ↦ inr (a, result, e, ground arith, f, ground arith)
            | inr (x, f) ↦ inl (ground arith)
          ]
          | inr other ↦ inl (ground arith)
        ]
]

pub approve-RepoStep :
    (now id v : ℕ) (by : Option String) (w : World)
    → RepoStep w.repo (approve_action now id v by w).1.repo
unfolding with_status
approve-RepoStep now id v by w = elim (approve_cases now id v by w) [
  | inl same ↦ quiet (ap (λ u. u.repo) same)
  | inr (a, e, p, same) ↦ rw same (
      Outcome-RepoStep (update_status-Outcome now id approved v by none w.repo)
        (λ b f. (approves (ground arith) refl refl, refl)))
]

pub waive-RepoStep :
    (svc : Service) (now id v : ℕ) (by : Option String) (w : World)
    → RepoStep w.repo (waive_action svc now id v by w).1.repo
unfolding with_status
waive-RepoStep svc now id v by w = elim (waive_cases svc now id v by w) [
  | inl same ↦ quiet (ap (λ u. u.repo) same)
  | inr (a, e, p, same) ↦ rw same (
      Outcome-RepoStep (update_status-Outcome now id waived v none by w.repo)
        (λ b f. (waives (ground arith) refl refl, refl)))
]

pub reapprove-RepoStep : (id v : ℕ) (w : World) → RepoStep w.repo (reapprove_action id v w).1.repo
unfolding reapproved
reapprove-RepoStep id v w = elim (reapprove_cases id v w) [
  | inl same ↦ quiet (ap (λ u. u.repo) same)
  | inr (a, e, p, n, same) ↦ rw same (
      Outcome-RepoStep (reapprove-Outcome id v w.repo)
        (λ b f. (retries (ground arith) (ground (arith, (retry_policy a).1.0 n)) refl refl, refl)))
]

with_result-Move :
    (result : ExecutionResult) (by : Option String) (a : CompensationAction)
    → a.status ≡ approved
    → Move a (with_result result by a) × ((with_result result by a).max_retries ≡ a.max_retries)
unfolding with_result
with_result-Move result by a p = elim (Bool-cases result.success) [
  | inl good ↦ (executes p (ground arith) (ground arith), ground arith)
  | inr bad ↦ (fails p (ground arith) (ground arith), ground arith)
]

pub execute-RepoStep :
    (svc : Service) (now id : ℕ) (by : Option String) (w : World)
    → RepoStep w.repo (execute_action svc now id by w).1.repo
execute-RepoStep svc now id by w = elim (execute_cases svc now id by w) [
  | inl same ↦ quiet (ap (λ u. u.repo) same)
  | inr (a, result, e, p, f, same) ↦ rw same (
      Outcome-RepoStep (record_result-Outcome id result a.lock_version by w.repo)
        (λ b g. with_result-Move result by b (ground arith)))
]
