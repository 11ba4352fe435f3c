-- ===== src/Compensation/Proposal/Soundness.antt =====
-- What the dry run proposes is what the service accepts.
use intent_rebase.Base.{
  ℕ, Bool, true, false, ◌&&◌, String, Option, some, ==_refl, get, ◌≡◌, ◌↔◌, refl, inl, inr, arith,
  Bool-cases, Result, ok, err,
}
use intent_rebase.Compensation.Action.{
  CompensationAction, approved, is_service_executable, status_eq,
}
use intent_rebase.Compensation.Action.Policy.{retry_policy}
use intent_rebase.Compensation.Action.Transition.{can_transition_to}
use intent_rebase.Compensation.Repo.{find, update_status, reapprove}
use intent_rebase.Compensation.Service.{
  Service, World, approve_action, reapprove_action, execute_action,
}
use intent_rebase.Compensation.Service.Failing.{execute_action_executable, run_executor_returns}
use intent_rebase.Compensation.Proposal

abbrev pub accepted : Result CompensationAction → Bool
accepted (ok a) = true
accepted (err e) = false

module _ (w : World) (a : CompensationAction) (stored : get a.id w.repo.actions ≡ some a) where
  approve_action-accepted :
      (now : ℕ) (by : Option String)
      → ((Proposal.compute_action_proposal a).proposed_action ≡ Proposal.approve)
        ↔ (accepted (approve_action now a.id a.lock_version by w).0 ≡ true)
  unfolding Proposal.compute_action_proposal approve_action find can_transition_to update_status
  approve_action-accepted now by = ground (arith, stored, ==_refl a.lock_version)

  reapprove_action-accepted :
      ((Proposal.compute_action_proposal a).proposed_action ≡ Proposal.reapprove)
      ↔ (accepted (reapprove_action a.id a.lock_version w).0 ≡ true)
  unfolding Proposal.compute_action_proposal reapprove_action find reapprove
  reapprove_action-accepted = ground (arith, stored, retry_policy a, ==_refl a.lock_version)

  execute_action-accepted :
      (svc : Service) (now : ℕ) (by : Option String)
      → ((Proposal.compute_action_proposal a).proposed_action ≡ Proposal.execute)
        ↔ (accepted (execute_action svc now a.id by w).0 ≡ true)
  unfolding Proposal.compute_action_proposal execute_action find is_service_executable
  execute_action-accepted svc now by =
      elim (Bool-cases (status_eq a.status approved && is_service_executable a)) [
        | inl is ↦
            let (result, f) = run_executor_returns svc now a in
            let (same, _) =
              execute_action_executable svc now by a.id w a result stored (ground arith)
                (ground arith) f in
            (λ e. rw same refl, λ e. ground arith)
        | inr other ↦ (λ e. absurd (ground arith), λ e. absurd (ground (arith, stored)))
      ]

  -- For a stored action, the dry run proposes an approval exactly when the service approves the action,
  -- a reapproval exactly when it reapproves it, and an execution exactly when it executes it, each with
  -- the lock version of the action.
  pub proposals_accepted :
      (svc : Service) (now : ℕ) (by : Option String)
      → let proposal = (Proposal.compute_action_proposal a).proposed_action in
        ((proposal ≡ Proposal.approve)
          ↔ (accepted (approve_action now a.id a.lock_version by w).0 ≡ true))
        × ((proposal ≡ Proposal.reapprove)
            ↔ (accepted (reapprove_action a.id a.lock_version w).0 ≡ true))
        × ((proposal ≡ Proposal.execute) ↔ (accepted (execute_action svc now a.id by w).0 ≡ true))
  proposals_accepted svc now by = (
    approve_action-accepted now by,
    reapprove_action-accepted,
    execute_action-accepted svc now by,
  )
