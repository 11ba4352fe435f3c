-- ===== src/Compensation/Action/Retry.antt =====
-- The retry policy of crates/compensation-service/src/compensation_action.rs.

use intent_rebase.Base.{
  String, str_eq, Bool, true, false, not, Option, some, none, List, [], ◌∷◌, any, if◌then◌else◌,
  Message, lit, int,
}
use intent_rebase.Base.Int32.{geb}
use intent_rebase.Compensation.Action.Types.{
  CompensationAction, ExecutionResult, failed, status_eq, status_debug,
}

pub data RetryableErrorClass : Type 0 where
  retryable non_retryable : RetryableErrorClass

abbrev pub class_eq : RetryableErrorClass → RetryableErrorClass → Bool
class_eq retryable retryable = true
class_eq non_retryable non_retryable = true
class_eq _ _ = false

pub record ErrorCodeClassification : Type 0 where
  pub error_code : String
  pub class : RetryableErrorClass
  pub reason : String

retryable_error_codes : List String
retryable_error_codes =
    "CONNECTION_TIMEOUT" ∷ "CONNECTION_REFUSED" ∷ "NETWORK_UNREACHABLE" ∷ "READ_TIMEOUT"
    ∷ "WRITE_TIMEOUT" ∷ "SERVICE_UNAVAILABLE" ∷ "TEMPORARILY_OVERLOADED" ∷ "BACKEND_ERROR"
    ∷ "RESOURCE_BUSY" ∷ "LOCK_ACQUISITION_FAILED" ∷ "RATE_LIMIT_EXCEEDED" ∷ "QUOTA_EXCEEDED" ∷ []

unfoldable pub classify_error_code : String → ErrorCodeClassification
unfolding retryable_error_codes
classify_error_code code =
    let listed = any (λ c. str_eq c code) retryable_error_codes in
    record {
      error_code = code;
      class = if listed then retryable else non_retryable;
      reason =
          if listed
          then "Transient failure - retry may succeed"
          else "Permanent failure - retry will not succeed";
    }

-- `self.execution_result_payload.as_ref().and_then(|r| r.error_code.as_ref())`.
abbrev pub error_code_of : Option ExecutionResult → Option String
error_code_of none = none
error_code_of (some r) = r.error_code

unfoldable pub is_dlq_candidate : CompensationAction → Bool
is_dlq_candidate a =
    if not (status_eq a.status failed)
    then false
    else if geb a.attempt_count a.max_retries
    then true
    else elim (error_code_of a.execution_result_payload) [
      | some code ↦ class_eq (classify_error_code code).class non_retryable
      | none ↦ false
    ]

unfoldable pub can_be_reapproved : CompensationAction → Bool
can_be_reapproved a =
    if not (status_eq a.status failed)
    then false
    else if geb a.attempt_count a.max_retries
    then false
    else elim (error_code_of a.execution_result_payload) [
      | some code ↦ class_eq (classify_error_code code).class retryable
      | none ↦ true
    ]

non_retryable_message : String → ErrorCodeClassification → Message
non_retryable_message code c =
    lit "Non-retryable error code '" ∷ lit code ∷ lit "': " ∷ lit c.reason ∷ []

unfoldable pub reapproval_denial_reason : CompensationAction → Option Message
unfolding non_retryable_message
reapproval_denial_reason a =
    if not (status_eq a.status failed)
    then some (lit "Action is in " ∷ lit (status_debug a.status) ∷ lit " status, not Failed" ∷ [])
    else if geb a.attempt_count a.max_retries
    then some (
        lit "Retry budget exhausted: "
        ∷ int a.attempt_count
        ∷ lit " attempts made (max="
        ∷ int a.max_retries
        ∷ lit ")"
        ∷ [])
    else elim (error_code_of a.execution_result_payload) [
      | some code ↦
          if class_eq (classify_error_code code).class non_retryable
          then some (non_retryable_message code (classify_error_code code))
          else none
      | none ↦ none
    ]
