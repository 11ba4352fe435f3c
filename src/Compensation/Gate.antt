-- ===== src/Compensation/Gate.antt =====
-- The policy gate (`compute_gate_status`, crates/compensation-service/src/compensation_action_policy.rs)
-- and the coordination status (`CoordinationStatus::from_compensation_action`,
-- compensation_action_types.rs).
use intent_rebase.Base.{if◌then◌else◌, ◌≡◌, arith}
use intent_rebase.Compensation.Action.{
  CompensationAction, CompensationStatus, pending, approved, executed, failed, waived, status_eq,
  is_terminal, is_service_executable,
}
use intent_rebase.Compensation.Action.Retry.{is_dlq_candidate, can_be_reapproved}

pub data PolicyGateStatus : Type 0 where
  eligible gate_blocked manual_review_required : PolicyGateStatus

pub data CoordinationStatus : Type 0 where
  ready awaiting_policy awaiting_manual_review blocked terminal : CoordinationStatus

unfoldable pub compute_gate_status : CompensationAction → PolicyGateStatus
compute_gate_status a =
    if is_terminal a.status
    then gate_blocked
    else if is_dlq_candidate a
    then gate_blocked
    else if status_eq a.status pending
    then manual_review_required
    else if status_eq a.status failed
    then (if can_be_reapproved a then manual_review_required else gate_blocked)
    else if status_eq a.status approved
    then (if is_service_executable a then eligible else manual_review_required)
    else gate_blocked

by_status : CompensationStatus → CompensationAction → CoordinationStatus
by_status pending a = awaiting_policy
by_status failed a = if can_be_reapproved a then awaiting_manual_review else blocked
by_status approved a = if is_service_executable a then ready else awaiting_manual_review
by_status executed a = terminal
by_status waived a = terminal

unfoldable pub from_compensation_action : CompensationAction → CoordinationStatus
unfolding by_status
from_compensation_action a =
    if is_terminal a.status
    then terminal
    else if is_dlq_candidate a
    then blocked
    else by_status a.status a

-- The gate that a coordination status stands for.
abbrev pub gate_of : CoordinationStatus → PolicyGateStatus
gate_of ready = eligible
gate_of awaiting_policy = manual_review_required
gate_of awaiting_manual_review = manual_review_required
gate_of blocked = gate_blocked
gate_of terminal = gate_blocked

-- The policy gate and the coordination status of an action agree: the gate is open exactly for a ready
-- action, closed for a blocked or terminal one, and asks for a review otherwise.
pub gate_agrees :
    (a : CompensationAction) → compute_gate_status a ≡ gate_of (from_compensation_action a)
unfolding compute_gate_status from_compensation_action is_terminal is_dlq_candidate
    can_be_reapproved
gate_agrees a = ground arith
