-- ===== src/Compensation/Runtime/Effects.antt =====
-- What a run may do to the actions: the same single moves as the calls of the service, on the actions
-- of the run's tenant.
use intent_rebase.Base.{
  ◌≢◌, ◌∙◌, get-insert, false, ℕ, true, some, none, ◌≡◌, refl, ◌⊎◌, inl, inr, arith, ◌==◌, get,
  Option-cases, Bool-cases, err, compensation_action_not_found,
}
use intent_rebase.Compensation.Action.{
  CompensationAction, CompensationStatus, pending, approved, executed, failed, waived, is_terminal,
  is_service_executable,
}
use intent_rebase.Compensation.Action.Retry.{can_be_reapproved}
use intent_rebase.Compensation.Repo.{ActionRepo, find}
use intent_rebase.Compensation.Service.{Service, World}
use intent_rebase.Compensation.Service.Moves.{RepoStep, quiet, moves}
use intent_rebase.Compensation.Service.Steps.{
  approve-RepoStep, execute-RepoStep, reapprove-RepoStep,
}
use intent_rebase.Compensation.Service.Locality.{approve-other, execute-other, reapprove-other}
use intent_rebase.Compensation.Service.Lifecycle.{
  AllInBudget, RepoStep-AllInBudget, RepoStep-terminal,
}
use intent_rebase.Compensation.Runtime.Defs.{
  process_single_action, handle, handle_pending_action, handle_approved_action,
  handle_failed_action,
}

pending-RepoStep :
    (now : ℕ) (a : CompensationAction) (w : World)
    → RepoStep w.repo (handle_pending_action now a w).1.repo
unfolding handle_pending_action
pending-RepoStep now a w = approve-RepoStep now a.id a.lock_version none w

approved-RepoStep :
    (svc : Service) (now : ℕ) (a : CompensationAction) (w : World)
    → RepoStep w.repo (handle_approved_action svc now a w).1.repo
unfolding handle_approved_action
approved-RepoStep svc now a w = elim (Bool-cases (is_service_executable a)) [
  | inl is ↦ rw is (execute-RepoStep svc now a.id none w)
  | inr other ↦ rw other (quiet refl)
]

failed-RepoStep :
    (a : CompensationAction) (w : World) → RepoStep w.repo (handle_failed_action a w).1.repo
unfolding handle_failed_action
failed-RepoStep a w = elim (Bool-cases (can_be_reapproved a)) [
  | inl is ↦ rw is (reapprove-RepoStep a.id a.lock_version w)
  | inr other ↦ rw other (quiet refl)
]

handle-RepoStep :
    (svc : Service) (now id : ℕ) (a : CompensationAction) (p : CompensationStatus) (w : World)
    → RepoStep w.repo (handle p svc now id a w).1.repo
unfolding handle
handle-RepoStep svc now id a pending w = pending-RepoStep now a w
handle-RepoStep svc now id a approved w = approved-RepoStep svc now a w
handle-RepoStep svc now id a failed w = failed-RepoStep a w
handle-RepoStep svc now id a executed w = quiet refl
handle-RepoStep svc now id a waived w = quiet refl

-- An action of a run is left as it is, or it is one of the run's tenant and is handled by its status.
pub process_cases :
    (svc : Service) (now t id : ℕ) (w : World)
    → (process_single_action svc now t id w ≡ (err (compensation_action_not_found id), w))
      ⊎ ((a : CompensationAction) × (get id w.repo.actions ≡ some a)
          × (a.tenant_id ≡ t)
          × (process_single_action svc now t id w ≡ handle a.status svc now id a w))
unfolding process_single_action find
process_cases svc now t id w = elim (Option-cases (get id w.repo.actions)) [
  | inl e ↦ inl (ground arith)
  | inr (a, e) ↦ elim (Bool-cases (a.tenant_id == t)) [
    | inl same ↦ inr (a, e, ground arith, ground arith)
    | inr other ↦ inl (ground arith)
  ]
]

pub process-RepoStep :
    (svc : Service) (now t id : ℕ) (w : World)
    → RepoStep w.repo (process_single_action svc now t id w).1.repo
process-RepoStep svc now t id w = elim (process_cases svc now t id w) [
  | inl e ↦ rw e (quiet refl)
  | inr (a, f, s, e) ↦ rw e (handle-RepoStep svc now id a a.status w)
]

handle-other :
    (svc : Service) (now id : ℕ) (a : CompensationAction) (p : CompensationStatus) (w : World)
    (k : ℕ)
    → (k == a.id) ≡ false
    → get k (handle p svc now id a w).1.repo.actions ≡ get k w.repo.actions
unfolding handle handle_pending_action handle_approved_action handle_failed_action
handle-other svc now id a pending w k other = approve-other w k a.id other now a.lock_version none
handle-other svc now id a approved w k other = elim (Bool-cases (is_service_executable a)) [
  | inl is ↦ rw is (execute-other w k a.id other svc now none)
  | inr not_executable ↦ rw not_executable refl
]
handle-other svc now id a failed w k other = elim (Bool-cases (can_be_reapproved a)) [
  | inl is ↦ rw is (reapprove-other w k a.id other a.lock_version)
  | inr denied ↦ rw denied refl
]
handle-other svc now id a executed w k other = refl
handle-other svc now id a waived w k other = refl

-- Every action is stored under its identifier.
abbrev pub Keyed : ActionRepo → Type 0
Keyed r = (k : ℕ) (a : CompensationAction) → get k r.actions ≡ some a → a.id ≡ k

-- The actions of other tenants stay as they are.
abbrev pub Spares : ℕ → ActionRepo → ActionRepo → Type 0
Spares t r s =
    Keyed r
    → (k : ℕ) (a : CompensationAction) → get k r.actions ≡ some a
    → a.tenant_id ≢ t
    → get k s.actions ≡ some a

pub process-Spares :
    (svc : Service) (now t id : ℕ) (w : World)
    → Spares t w.repo (process_single_action svc now t id w).1.repo
process-Spares svc now t id w keyed k a f foreign = elim (process_cases svc now t id w) [
  | inl e ↦ rw e f
  | inr (b, g, same, e) ↦ elim (Bool-cases (k == b.id)) [
    | inl is ↦ absurd (foreign (ground (arith, keyed id b g)))
    | inr other ↦ rw e (handle-other svc now id b b.status w k other ∙ f)
  ]
]

RepoStep-Keyed : {r s : ActionRepo} → RepoStep r s → Keyed r → Keyed s
RepoStep-Keyed (quiet e) h k a f = h k a (ground arith)
RepoStep-Keyed {r} {s} (moves id a b found rev m move e) h k c f =
    ground (arith, get-insert k id b r.actions, rev.id, h id a found, h k c)

-- Any number of moves, one after the other, that spare the other tenants.
pub data RepoPath (t : ℕ) : ActionRepo → ActionRepo → Type 0 where
  still : {r : ActionRepo} → RepoPath t r r
  step : {r s u : ActionRepo} → RepoStep r s → Spares t r s → RepoPath t s u → RepoPath t r u

pub RepoPath-AllInBudget :
    {t : ℕ} {r s : ActionRepo} → RepoPath t r s → AllInBudget r → AllInBudget s
RepoPath-AllInBudget still h = h
RepoPath-AllInBudget (step m q p) h = RepoPath-AllInBudget p (RepoStep-AllInBudget m h)

pub RepoPath-terminal :
    {t : ℕ} {r s : ActionRepo}
    → RepoPath t r s
    → (k : ℕ) (a : CompensationAction) → get k r.actions ≡ some a
    → is_terminal a.status ≡ true
    → get k s.actions ≡ some a
RepoPath-terminal still k a f e = f
RepoPath-terminal (step m q p) k a f e = RepoPath-terminal p k a (RepoStep-terminal m k a f e) e

pub RepoPath-Spares : {t : ℕ} {r s : ActionRepo} → RepoPath t r s → Spares t r s
RepoPath-Spares still keyed k a f foreign = f
RepoPath-Spares (step m q p) keyed k a f foreign =
    RepoPath-Spares p (RepoStep-Keyed m keyed) k a (q keyed k a f foreign) foreign
