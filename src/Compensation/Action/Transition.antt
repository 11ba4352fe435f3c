-- ===== src/Compensation/Action/Transition.antt =====
-- `CompensationStatus::can_transition_to` of crates/compensation-service/src/compensation_action.rs,
-- with the arms of the `match` in the source's order.
use intent_rebase.Base.{Bool, true, false, Option, some, none, [], ◌∷◌, if◌then◌else◌, Message, lit}
use intent_rebase.Compensation.Action.Types.{
  CompensationStatus, pending, approved, executed, failed, waived, status_eq, status_debug,
}

pub record TransitionValidation : Type 0 where
  pub allowed : Bool
  pub reason : Option Message

denied : Message → TransitionValidation
denied m = record { allowed = false; reason = some m }

-- The last two arms: the same status, and any other pair.
other_transition : CompensationStatus → CompensationStatus → TransitionValidation
unfolding denied
other_transition from to =
    if status_eq from to
    then denied (lit "Action is already in target status" ∷ [])
    else denied (
        lit "Invalid transition from "
        ∷ lit (status_debug from)
        ∷ lit " to "
        ∷ lit (status_debug to)
        ∷ [])

unfoldable pub can_transition_to : CompensationStatus → CompensationStatus → TransitionValidation
unfolding denied other_transition
can_transition_to pending approved = record { allowed = true; reason = none }
can_transition_to pending waived = record { allowed = true; reason = none }
can_transition_to approved executed = record { allowed = true; reason = none }
can_transition_to failed pending = record {
  allowed = true;
  reason = some (lit "Manual retry allowed when retryable error and budget remains" ∷ []);
}
can_transition_to executed _ =
    denied (lit "Executed is a terminal state; no transitions allowed" ∷ [])
can_transition_to failed _ =
    denied
      (lit "Failed can only transition to Pending (manual retry) or is terminal otherwise" ∷ [])
can_transition_to waived _ = denied (lit "Waived is a terminal state; no transitions allowed" ∷ [])
can_transition_to _ pending = denied (lit "Cannot transition back to Pending" ∷ [])
can_transition_to from to = other_transition from to
