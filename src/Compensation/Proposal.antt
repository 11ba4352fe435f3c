-- ===== src/Compensation/Proposal.antt =====
-- The dry run over explicit actions (`plan_orchestration_actions`,
-- crates/compensation-service/src/compensation_action_orchestration.rs).
pub mod Soundness
pub mod Summary
use intent_rebase.Base.{
  ℕ, ◌+◌, Option, none, some, List, [], ◌∷◌, ◌++◌, ◌==◌, if◌then◌else◌, length, get, Message, lit,
  int,
}
use intent_rebase.Base.Int32
use intent_rebase.Compensation.Action.{
  CompensationAction, CompensationStatus, pending, approved, executed, failed, waived,
  feasibility_debug, is_service_executable,
}
use intent_rebase.Compensation.Action.Retry.{can_be_reapproved, reapproval_denial_reason}
use intent_rebase.Compensation.Action.Transition.{can_transition_to}
use intent_rebase.Compensation.Repo.{ActionRepo}

pub data OrchestrationAction : Type 0 where
  approve reapprove execute no_action : OrchestrationAction

pub record OrchestrationActionProposal : Type 0 where
  pub action_id : ℕ
  pub proposed_action : OrchestrationAction
  pub reason : Message
  pub current_status : CompensationStatus

abbrev denied_reason : CompensationAction → Option Message → Message
denied_reason a (some reason) = reason
denied_reason a none =
    lit "Action failed with non-retryable error or exhausted budget ("
    ∷ lit (feasibility_debug a.feasibility)
    ∷ lit " feasibility)"
    ∷ []

-- The proposed action and its reason, by the status.
abbrev pub proposed : CompensationStatus → CompensationAction → OrchestrationAction × Message
proposed pending a =
    if (can_transition_to pending approved).allowed
    then (
      approve,
      lit "Action is pending approval with "
          ∷ lit (feasibility_debug a.feasibility)
          ∷ lit " feasibility"
          ∷ [],
    )
    else (no_action, lit "Action is pending but cannot transition to approved" ∷ [])
proposed approved a =
    if is_service_executable a
    then (
      execute,
      lit "Action is approved with "
          ∷ lit (feasibility_debug a.feasibility)
          ∷ lit " feasibility and no blocking conditions"
          ∷ [],
    )
    else (
      no_action,
      lit "Action is approved but requires manual execution ("
          ∷ lit (feasibility_debug a.feasibility)
          ∷ lit ")"
          ∷ [],
    )
proposed failed a =
    if can_be_reapproved a
    then (
      reapprove,
      lit "Action failed but can be reapproved ("
          ∷ int (Int32.sub a.max_retries a.attempt_count)
          ∷ lit " retry attempts remaining, "
          ∷ lit (feasibility_debug a.feasibility)
          ∷ lit " feasibility)"
          ∷ [],
    )
    else (no_action, denied_reason a (reapproval_denial_reason a))
proposed executed a = (no_action, lit "Action has already been executed (terminal state)" ∷ [])
proposed waived a = (no_action, lit "Action has been waived (terminal state)" ∷ [])

unfoldable pub compute_action_proposal : CompensationAction → OrchestrationActionProposal
unfolding can_transition_to can_be_reapproved reapproval_denial_reason is_service_executable
compute_action_proposal a = record {
  action_id = a.id;
  proposed_action = (proposed a.status a).0;
  reason = (proposed a.status a).1;
  current_status = a.status;
}

pub record OrchestrationDryRunSummary : Type 0 where
  pub total : ℕ
  pub can_approve : ℕ
  pub can_reapprove : ℕ
  pub can_execute : ℕ
  pub no_actions : ℕ
  pub not_found_count : ℕ

pub record OrchestrationDryRunResult : Type 0 where
  pub proposals : List OrchestrationActionProposal
  pub not_found : List ℕ
  pub summary : OrchestrationDryRunSummary

abbrev pub counted : OrchestrationAction → OrchestrationDryRunSummary → OrchestrationDryRunSummary
counted approve s = record s { can_approve = s.can_approve + 1 }
counted reapprove s = record s { can_reapprove = s.can_reapprove + 1 }
counted execute s = record s { can_execute = s.can_execute + 1 }
counted no_action s = record s { no_actions = s.no_actions + 1 }

-- An action that is not there, or is another tenant's.
abbrev pub missed : ℕ → OrchestrationDryRunResult → OrchestrationDryRunResult
missed action_id x = record x {
  not_found = x.not_found ++ action_id ∷ [];
  summary = record x.summary {
    not_found_count = x.summary.not_found_count + 1;
    no_actions = x.summary.no_actions + 1;
  };
}

abbrev pub considered : CompensationAction → OrchestrationDryRunResult → OrchestrationDryRunResult
considered a x = record x {
  proposals = x.proposals ++ compute_action_proposal a ∷ [];
  summary = counted (compute_action_proposal a).proposed_action x.summary;
}

-- One turn of the loop.
abbrev pub turn : ℕ → ActionRepo → ℕ → OrchestrationDryRunResult → OrchestrationDryRunResult
turn tenant_id r action_id x = elim (get action_id r.actions) [
  | none ↦ missed action_id x
  | some a ↦ if a.tenant_id == tenant_id then considered a x else missed action_id x
]

unfoldable pub passes :
    ℕ → ActionRepo → List ℕ → OrchestrationDryRunResult → OrchestrationDryRunResult
unfolding compute_action_proposal
passes tenant_id r [] x = x
passes tenant_id r (id ∷ ids) x = passes tenant_id r ids (turn tenant_id r id x)

unfoldable pub plan_orchestration_actions : ℕ → List ℕ → ActionRepo → OrchestrationDryRunResult
unfolding passes
plan_orchestration_actions tenant_id action_ids r = passes tenant_id r action_ids (record {
  proposals = [];
  not_found = [];
  summary = record {
    total = length action_ids;
    can_approve = 0;
    can_reapprove = 0;
    can_execute = 0;
    no_actions = 0;
    not_found_count = 0;
  };
})
