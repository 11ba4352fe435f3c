-- ===== src/Compensation/Service/Lifecycle.antt =====
-- The life of an action under the calls of the service that check transitions: what holds after any
-- sequence of them. (`update_status` and `record_result` of the service check no transition and are no
-- such calls; see `Service.Writes`.)
use intent_rebase.Base.{
  ℕ, ◌≤◌, ◌<◌, String, true, Option, some, List, [], ◌∷◌, ◌≡◌, ◌⊎◌, inl, inr, arith, get,
  get-insert, ◌==◌, Bool-cases,
}
use intent_rebase.Base.Int32
use intent_rebase.Compensation.Action.{CompensationAction, pending, approved, is_terminal}
use intent_rebase.Compensation.Action.Retry.{can_be_reapproved}
use intent_rebase.Compensation.Repo.{ActionRepo}
use intent_rebase.Compensation.Service.Defs.{
  Service, World, approve_action, waive_action, execute_action, reapprove_action,
}
use intent_rebase.Compensation.Service.Moves.{
  Move, approves, waives, executes, fails, retries, RepoStep, quiet, moves,
}
use intent_rebase.Compensation.Service.Steps.{
  approve-RepoStep, waive-RepoStep, execute-RepoStep, reapprove-RepoStep,
}

-- A call that checks the transition, with the lock version that its caller holds and the acting person.
pub data Call : Type 0 where
  approve waive : ℕ → ℕ → Option String → Call
  execute : ℕ → Option String → Call
  reapprove : ℕ → ℕ → Call

unfoldable pub call : Service → ℕ → Call → World → World
unfolding approve_action waive_action execute_action reapprove_action
call svc now (approve id v by) w = (approve_action now id v by w).1
call svc now (waive id v by) w = (waive_action svc now id v by w).1
call svc now (execute id by) w = (execute_action svc now id by w).1
call svc now (reapprove id v) w = (reapprove_action id v w).1

-- The calls of a history, each with the time of the clock.
unfoldable pub run : Service → List (ℕ × Call) → World → World
unfolding call
run svc [] w = w
run svc ((now, c) ∷ cs) w = run svc cs (call svc now c w)

-- Each call of approve, waive, execute or reapprove, in every state, changes nothing in the repository
-- or makes one move that the diagram of statuses allows, of one action, to its next lock version. The
-- calls that write a status or a result with no such check, and those that create actions, are not
-- among them.
pub call-RepoStep :
    (svc : Service) (now : ℕ) (c : Call) (w : World) → RepoStep w.repo (call svc now c w).repo
unfolding call
call-RepoStep svc now (approve id v by) w = approve-RepoStep now id v by w
call-RepoStep svc now (waive id v by) w = waive-RepoStep svc now id v by w
call-RepoStep svc now (execute id by) w = execute-RepoStep svc now id by w
call-RepoStep svc now (reapprove id v) w = reapprove-RepoStep id v w

-- An action within its retry budget; one that may still be executed has an attempt left.
pub record InBudget (a : CompensationAction) : Type 0 where
  pub range : a.max_retries < Int32.sign
  pub spent : a.attempt_count ≤ a.max_retries
  pub left : (a.status ≡ pending) ⊎ (a.status ≡ approved) → a.attempt_count < a.max_retries

abbrev pub AllInBudget : ActionRepo → Type 0
AllInBudget r = (k : ℕ) (a : CompensationAction) → get k r.actions ≡ some a → InBudget a

reapproved_has_budget :
    (a : CompensationAction)
    → InBudget a
    → can_be_reapproved a ≡ true
    → a.attempt_count < a.max_retries
unfolding can_be_reapproved
reapproved_has_budget a h e = ground arith

Move-InBudget :
    {a b : CompensationAction} → Move a b → b.max_retries ≡ a.max_retries → InBudget a → InBudget b
Move-InBudget (approves p q n) m h = ground arith
Move-InBudget (waives p q n) m h = ground arith
Move-InBudget (executes p q n) m h = ground arith
Move-InBudget (fails p q n) m h = ground arith
Move-InBudget {a} {b} (retries p e q n) m h = ground (arith, reapproved_has_budget a h e)

pub RepoStep-AllInBudget : {r s : ActionRepo} → RepoStep r s → AllInBudget r → AllInBudget s
RepoStep-AllInBudget (quiet e) h k a f = h k a (ground arith)
RepoStep-AllInBudget {r} {s} (moves id a b found rev m move e) h k c f =
    elim (Bool-cases (k == id)) [
      | inl same ↦ ground (arith, get-insert k id b r.actions, Move-InBudget move m (h id a found))
      | inr other ↦ h k c (ground (arith, get-insert k id b r.actions))
    ]

-- No history of calls takes an action beyond its retry budget: if every action is within its budget,
-- then after any calls in any order (approve, waive, execute and
-- reapprove, by anyone and with any lock versions) every action still is.
pub run-AllInBudget :
    (svc : Service) (cs : List (ℕ × Call)) (w : World)
    → AllInBudget w.repo
    → AllInBudget (run svc cs w).repo
unfolding run
run-AllInBudget svc [] w h = h
run-AllInBudget svc ((now, c) ∷ cs) w h =
    run-AllInBudget svc cs (call svc now c w) (RepoStep-AllInBudget (call-RepoStep svc now c w) h)

not-terminal : {a b : CompensationAction} → Move a b → is_terminal a.status ≡ true → ⊥
unfolding is_terminal
not-terminal (approves p q n) t = cc
not-terminal (waives p q n) t = cc
not-terminal (executes p q n) t = cc
not-terminal (fails p q n) t = cc
not-terminal (retries p e q n) t = cc

pub RepoStep-terminal :
    {r s : ActionRepo}
    → RepoStep r s
    → (k : ℕ) (a : CompensationAction) → get k r.actions ≡ some a
    → is_terminal a.status ≡ true
    → get k s.actions ≡ some a
RepoStep-terminal (quiet e) k a f t = ground arith
RepoStep-terminal {r} {s} (moves id b c found rev m move e) k a f t = elim (Bool-cases (k == id)) [
  | inl same ↦ absurd (not-terminal move (ground arith))
  | inr other ↦ ground (arith, get-insert k id c r.actions)
]

-- An executed or waived action is never changed again, by any calls in any order (approve, waive,
-- execute and reapprove, by anyone and with any lock versions).
pub run_terminal :
    (svc : Service) (cs : List (ℕ × Call)) (w : World) (k : ℕ) (a : CompensationAction)
    → get k w.repo.actions ≡ some a
    → is_terminal a.status ≡ true
    → get k (run svc cs w).repo.actions ≡ some a
unfolding run
run_terminal svc [] w k a f t = f
run_terminal svc ((now, c) ∷ cs) w k a f t =
    run_terminal svc cs (call svc now c w) k a
      (RepoStep-terminal (call-RepoStep svc now c w) k a f t) t
