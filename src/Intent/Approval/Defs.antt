-- ===== src/Intent/Approval/Defs.antt =====
-- The state and the operations of `InMemoryApprovalRequestRepository`. The metadata is always the
-- empty object and is left out; identifiers and the clock are arguments.
use intent_rebase.Base.{
  ℕ, String, Bool, true, false, not, ◌&&◌, Option, none, some, List, [], ◌∷◌, ◌++◌, leb, ◌==◌,
  if◌then◌else◌, Map, get, insert, values, map_values, fetched, filter, any, length, sort, Act,
  Result, Message, lit, uuid, ok, err, or_err, internal, approval_request_not_found,
  approval_request_not_pending,
}

pub data ApprovalRequestStatus : Type 0 where
  pending approved rejected expired cancelled : ApprovalRequestStatus

abbrev pub request_status_eq : ApprovalRequestStatus → ApprovalRequestStatus → Bool
request_status_eq pending pending = true
request_status_eq approved approved = true
request_status_eq rejected rejected = true
request_status_eq expired expired = true
request_status_eq cancelled cancelled = true
request_status_eq _ _ = false

-- `format!("{:?}", status)`.
abbrev pub request_status_debug : ApprovalRequestStatus → String
request_status_debug pending = "Pending"
request_status_debug approved = "Approved"
request_status_debug rejected = "Rejected"
request_status_debug expired = "Expired"
request_status_debug cancelled = "Cancelled"

pub record ApprovalRequest : Type 0 where
  pub id : ℕ
  pub intent_id : ℕ
  pub intent_version_from : ℕ
  pub intent_version_to : ℕ
  pub workflow_id : ℕ
  pub tenant_id : ℕ
  pub requestor_id : String
  pub requestor_type : String
  pub decision_class : String
  pub reason : Message
  pub status : ApprovalRequestStatus
  pub created_at : ℕ
  pub updated_at : ℕ
  pub expires_at : Option ℕ
  pub resolved_at : Option ℕ
  pub resolved_by : Option String
  pub resolution_notes : Option Message

unfoldable pub new_pending :
    ℕ → ℕ → ℕ → ℕ → ℕ → ℕ → ℕ → String → String → String → Message → ApprovalRequest
new_pending id now intent_id from to workflow_id tenant_id requestor_id requestor_type class
      reason =
    record {
      id = id;
      intent_id = intent_id;
      intent_version_from = from;
      intent_version_to = to;
      workflow_id = workflow_id;
      tenant_id = tenant_id;
      requestor_id = requestor_id;
      requestor_type = requestor_type;
      decision_class = class;
      reason = reason;
      status = pending;
      created_at = now;
      updated_at = now;
      expires_at = none;
      resolved_at = none;
      resolved_by = none;
      resolution_notes = none;
    }

pub record ApprovalRepo : Type 0 where
  pub requests : Map ApprovalRequest
  pub by_intent : ℕ → List ℕ
  pub by_tenant : ℕ → List ℕ

unfoldable pub empty : ApprovalRepo
empty = record { requests = []; by_intent = λ _. []; by_tenant = λ _. [] }

-- `index.entry(k).or_insert_with(Vec::new).push(id)`.
abbrev push : ℕ → ℕ → (ℕ → List ℕ) → ℕ → List ℕ
push k id index j = if j == k then index j ++ id ∷ [] else index j

unfoldable pub create_approval_request : ApprovalRequest → Act ApprovalRepo ApprovalRequest
create_approval_request q r = (
  ok q,
  record {
    requests = insert q.id q r.requests;
    by_intent = push q.intent_id q.id r.by_intent;
    by_tenant = push q.tenant_id q.id r.by_tenant;
  },
)

unfoldable pub get_approval_request : ℕ → ApprovalRepo → Result ApprovalRequest
get_approval_request id r = or_err (get id r.requests) (approval_request_not_found id)

-- Newest first; the sort is stable.
abbrev pub newest_first : ApprovalRequest → ApprovalRequest → Bool
newest_first a b = leb b.created_at a.created_at

abbrev pub is_pending_of : ℕ → ApprovalRequest → Bool
is_pending_of tenant_id q = q.tenant_id == tenant_id && request_status_eq q.status pending

unfoldable pub list_pending_by_intent : ℕ → ℕ → ApprovalRepo → List ApprovalRequest
list_pending_by_intent intent_id tenant_id r =
    sort newest_first
      (filter (is_pending_of tenant_id) (fetched r.requests (r.by_intent intent_id)))

unfoldable pub list_pending_by_tenant : ℕ → ApprovalRepo → List ApprovalRequest
list_pending_by_tenant tenant_id r =
    sort newest_first
      (filter (is_pending_of tenant_id) (fetched r.requests (r.by_tenant tenant_id)))

unfoldable pub list_by_intent : ℕ → ℕ → ApprovalRepo → List ApprovalRequest
list_by_intent intent_id tenant_id r =
    sort newest_first
      (filter (λ q. q.tenant_id == tenant_id) (fetched r.requests (r.by_intent intent_id)))

-- What every resolution writes.
unfoldable pub resolved :
    ApprovalRequestStatus → ℕ → String → Option Message → ApprovalRequest → ApprovalRequest
resolved status now by notes q = record q {
  status = status;
  updated_at = now;
  resolved_at = some now;
  resolved_by = some by;
  resolution_notes = notes;
}

unfoldable pub update_approval_request_status :
    ℕ → ℕ → ApprovalRequestStatus → String → Option Message → Act ApprovalRepo ApprovalRequest
update_approval_request_status now id status resolved_by notes r = elim (get id r.requests) [
  | none ↦ (err (internal (lit "approval request not found: " ∷ uuid id ∷ [])), r)
  | some q ↦
      let updated = resolved status now resolved_by notes q in
      if not (request_status_eq q.status pending)
      then (err (approval_request_not_pending id (request_status_debug q.status)), r)
      else (ok updated, record r { requests = insert id updated r.requests })
]

unfoldable pub mark_expired : ℕ → ℕ → String → Message → Act ApprovalRepo ApprovalRequest
mark_expired now id expired_by reason r = elim (get id r.requests) [
  | none ↦ (err (approval_request_not_found id), r)
  | some q ↦
      let updated = resolved expired now expired_by (some reason) q in
      if not (request_status_eq q.status pending)
      then (err (approval_request_not_pending id (request_status_debug q.status)), r)
      else (ok updated, record r { requests = insert id updated r.requests })
]

-- The loop of the cancellations: the requests that the test picks are cancelled and counted.
unfoldable pub cancel_where : (ApprovalRequest → Bool) → ℕ → String → Message → Act ApprovalRepo ℕ
cancel_where test now by reason r = (
  ok (length (filter test (values r.requests))),
  record r {
    requests =
        map_values (λ q. if test q then resolved cancelled now by (some reason) q else q)
          r.requests;
  },
)

abbrev pub of_intent : ApprovalRequestStatus → ℕ → ℕ → ApprovalRequest → Bool
of_intent status intent_id tenant_id q =
    q.intent_id == intent_id && q.tenant_id == tenant_id && request_status_eq q.status status

unfoldable pub cancel_pending_by_intent : ℕ → ℕ → ℕ → String → Message → Act ApprovalRepo ℕ
cancel_pending_by_intent now intent_id tenant_id =
    cancel_where (of_intent pending intent_id tenant_id) now

unfoldable pub cancel_approved_by_intent : ℕ → ℕ → ℕ → String → Message → Act ApprovalRepo ℕ
cancel_approved_by_intent now intent_id tenant_id =
    cancel_where (of_intent approved intent_id tenant_id) now

unfoldable pub cancel_approved_by_ids : ℕ → List ℕ → ℕ → String → Message → Act ApprovalRepo ℕ
cancel_approved_by_ids now approval_ids tenant_id =
    cancel_where
      (λ q.
        any (λ id. id == q.id) approval_ids
        && q.tenant_id == tenant_id
        && request_status_eq q.status approved)
      now
