-- ===== src/Compensation/Action/Policy.antt =====
-- The retry policy and the transition table against independent descriptions.
use intent_rebase.Base.{true, false, not, ◌&&◌, none, ◌≡◌, refl, ◌↔◌, arith}
use intent_rebase.Compensation.Action.Types.{
  CompensationAction, CompensationStatus, pending, approved, executed, failed, waived, status_eq,
  is_terminal,
}
use intent_rebase.Compensation.Action.Retry.{
  is_dlq_candidate, can_be_reapproved, reapproval_denial_reason,
}
use intent_rebase.Compensation.Action.Transition.{can_transition_to}

-- A failed action is a candidate for the dead letter queue exactly when it cannot be reapproved, no
-- other action is one, and a reason for the denial is given exactly when reapproval is denied.
pub retry_policy :
    (a : CompensationAction)
    → (is_dlq_candidate a ≡ (status_eq a.status failed && not (can_be_reapproved a)))
      × ((reapproval_denial_reason a ≡ none) ↔ (can_be_reapproved a ≡ true))
unfolding is_dlq_candidate can_be_reapproved reapproval_denial_reason
retry_policy a = ground arith

-- The transitions that the table of the documentation allows as a direct update.
pub data Edge : CompensationStatus → CompensationStatus → Type 0 where
  approve : Edge pending approved
  waive : Edge pending waived
  execute : Edge approved executed
  retry : Edge failed pending

to_Edge : (s t : CompensationStatus) → (can_transition_to s t).allowed ≡ true → Edge s t
unfolding can_transition_to
to_Edge pending approved e = approve
to_Edge pending waived e = waive
to_Edge approved executed e = execute
to_Edge failed pending e = retry
to_Edge pending pending e = cc
to_Edge pending executed e = cc
to_Edge pending failed e = cc
to_Edge approved pending e = cc
to_Edge approved approved e = cc
to_Edge approved failed e = cc
to_Edge approved waived e = cc
to_Edge failed approved e = cc
to_Edge failed executed e = cc
to_Edge failed failed e = cc
to_Edge failed waived e = cc
to_Edge executed pending e = cc
to_Edge executed approved e = cc
to_Edge executed executed e = cc
to_Edge executed failed e = cc
to_Edge executed waived e = cc
to_Edge waived pending e = cc
to_Edge waived approved e = cc
to_Edge waived executed e = cc
to_Edge waived failed e = cc
to_Edge waived waived e = cc

of_Edge : {s t : CompensationStatus} → Edge s t → (can_transition_to s t).allowed ≡ true
unfolding can_transition_to
of_Edge approve = refl
of_Edge waive = refl
of_Edge execute = refl
of_Edge retry = refl

-- The table allows exactly the four edges of the diagram.
pub can_transition_to_iff :
    (s t : CompensationStatus) → ((can_transition_to s t).allowed ≡ true) ↔ Edge s t
can_transition_to_iff s t = (to_Edge s t, of_Edge)

-- A status is terminal exactly when the table allows no transition out of it.
pub is_terminal_iff :
    (s : CompensationStatus)
    → (is_terminal s ≡ true) ↔ ((t : CompensationStatus) → (can_transition_to s t).allowed ≡ false)
unfolding is_terminal can_transition_to
is_terminal_iff pending = (λ e. cc, λ h. cc (h approved))
is_terminal_iff approved = (λ e. cc, λ h. cc (h executed))
is_terminal_iff failed = (λ e. cc, λ h. cc (h pending))
is_terminal_iff executed = (λ e t. refl, λ h. refl)
is_terminal_iff waived = (λ e t. refl, λ h. refl)
