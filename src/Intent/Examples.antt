-- ===== src/Intent/Examples.antt =====
-- Concrete inputs: an intent (7) with two versions (101, 102) and a request for approval (900), and
-- the theorems at them.
use intent_rebase.Base.{
  ℕ, String, true, false, none, some, inl, [], ◌≡◌, ◌↔◌, ◌⊎◌, ◌≤◌, ◌<◌, refl, any, All, insert,
  length, filter, values, get, on_some, if◌then◌else◌, err, ok, concurrency_conflict, arith,
}
use intent_rebase.Base.Int32.{succ}
use intent_rebase.Engine.Types.{IntentPayload, ActorRef, ChangeChannel, IntentVersion}
use intent_rebase.Engine.Examples.{first_payload, thousandths}
use intent_rebase.Intent.Types.{CreateIntentRequest, CreateVersionRequest, Intent}
use intent_rebase.Intent.Repo.Defs.{
  IntentRepo, create_intent_tx, create_version_with_occ, empty as no_intents, next_version,
  get_intent_for_update, ids_of,
}
use intent_rebase.Intent.Repo.History.{
  History, start, creates, revises, IsChained, History-IsChained,
}
use intent_rebase.Intent.Repo.Reading.{version_by_number_exact, IsFound}
use intent_rebase.Intent.Approval.Defs.{
  ApprovalRequest, ApprovalRepo, new_pending, create_approval_request, empty as no_requests,
  pending, cancelled, resolved, of_intent, is_pending_of, list_pending_by_intent,
  list_pending_by_tenant,
}
use intent_rebase.Intent.Approval.Writes.{cancels_pending, write, may_become, is_final, rewound}
use intent_rebase.Intent.Approval.History.{Reaches, here, request_resolved_once}
use intent_rebase.Intent.Approval.History
use intent_rebase.Intent.Approval.Index.{IsIndexed, empty-IsIndexed, Reaches-IsIndexed}
use intent_rebase.Intent.Approval.Listing.{pending_listed_exact, has_id, holds, IsStored}
use intent_rebase.Intent.Service.Defs.{
  IntentService, IntentState, create_version, get_intent_head, audited, cancelled_event,
  cancellation_reason,
}
use intent_rebase.Intent.Service.Versions.{second_version_refused, response}
use intent_rebase.Intent.Service.Cancellation.{new_version_cancels_pending}
use intent_rebase.Intent.Service.Reading.{version_retry_succeeds}
use intent_rebase.Intent.Service.Comparison.{comparison_exact, Compared}

abbrev hash : IntentPayload → String
hash p = "h"

abbrev author : ActorRef
author = record { actor_type = "user"; actor_id = "u1" }

abbrev intent_request : CreateIntentRequest
intent_request = record {
  tenant_id = some 3;
  workflow_id = 9;
  source_refs = [];
  payload = first_payload;
  created_by = author;
  tags = [];
}

abbrev version_request : CreateVersionRequest
version_request = record {
  payload = first_payload;
  change_reason = "edit";
  change_channel = ChangeChannel.webhook;
  created_by = author;
}

abbrev begun : IntentRepo
unfolding create_intent_tx no_intents insert
begun = (create_intent_tx hash 7 101 1 40 intent_request no_intents).1

abbrev revised : IntentRepo
unfolding begun create_version_with_occ insert
revised = (create_version_with_occ hash 102 41 7 version_request 1 0 begun).1

revised-History : History hash revised
unfolding revised begun create_intent_tx no_intents insert create_version_with_occ
revised-History =
    revises 102 41 7 version_request 1 0 (creates 7 101 1 40 intent_request start refl refl) refl

History-IsChained_example : IsChained revised
History-IsChained_example = History-IsChained hash revised-History

abbrev intent_at : ℕ → Intent
intent_at n = record {
  id = 7;
  tenant_id = 3;
  workflow_id = 9;
  current_version = n;
  status = intent_rebase.Intent.Types.IntentStatus.active;
  created_at = 40;
  created_by = author;
  source_refs = [];
  tags = [];
}

revised_stored : get 7 revised.intents ≡ some (intent_at 2)
unfolding revised begun create_intent_tx no_intents insert create_version_with_occ
revised_stored = refl

two_versions : length (ids_of 7 revised) ≡ 2
unfolding revised begun create_intent_tx no_intents insert create_version_with_occ
two_versions = refl

version_by_number_exact_example :
    (2 ≡ length (ids_of 7 revised))
    × (((1 ≤ 2) × (2 ≤ 2)) ↔ ((x : IntentVersion) × IsFound revised 7 2 x))
version_by_number_exact_example =
    version_by_number_exact revised 7 2 (intent_at 2) (History-IsChained hash revised-History)
      revised_stored (omega (arith, two_versions))

abbrev asked : ApprovalRequest
unfolding new_pending
asked = new_pending 900 42 7 1 2 9 3 "u1" "user" "D" []

abbrev waiting : ApprovalRepo
unfolding asked create_approval_request no_requests insert
waiting = (create_approval_request asked no_requests).1

waiting_reached : Reaches no_requests waiting
unfolding waiting asked create_approval_request no_requests insert new_pending
waiting_reached = intent_rebase.Intent.Approval.History.Reaches.creates asked here refl

waiting-IsIndexed : IsIndexed waiting
waiting-IsIndexed = Reaches-IsIndexed empty-IsIndexed waiting_reached

waiting_stored : get 900 waiting.requests ≡ some asked
unfolding waiting asked create_approval_request no_requests insert new_pending
waiting_stored = refl

request_resolved_once_example :
    (q : ApprovalRequest) × (get 900 (write (cancels_pending 50 7 3 "ops" []) waiting).requests
      ≡ some q)
    × (rewound asked q ≡ asked)
    × (may_become asked.status q.status ≡ true)
    × ((is_final asked.status ≡ false) ⊎ (q ≡ asked))
request_resolved_once_example =
    request_resolved_once 900 asked
      (intent_rebase.Intent.Approval.History.Reaches.writes (cancels_pending 50 7 3 "ops" []) here)
      waiting_stored

pending_listed_exact_example :
    (any (has_id 900) (list_pending_by_intent 7 3 waiting)
      ≡ holds (of_intent pending 7 3) (get 900 waiting.requests))
    × (any (has_id 900) (list_pending_by_tenant 3 waiting)
        ≡ holds (is_pending_of 3) (get 900 waiting.requests))
    × All (IsStored waiting) (list_pending_by_intent 7 3 waiting)
    × All (IsStored waiting) (list_pending_by_tenant 3 waiting)
pending_listed_exact_example = pending_listed_exact 7 3 900 waiting_reached

abbrev svc : IntentService
svc = record { compute_payload_hash = hash; audit_repo = some (λ e. true); system_actor_id = "sys" }

abbrev state : IntentState
state = record { repo = revised; approval_repo = some waiting; audit_log = [] }

abbrev third_state : IntentState
third_state = (create_version svc 103 60 7 version_request (some 2) none state).1

third_created :
    create_version svc 103 60 7 version_request (some 2) none state
    ≡ (ok (response svc 103 60 7 version_request none state (intent_at 2)), third_state)
unfolding create_version get_intent_for_update create_version_with_occ revised begun
    create_intent_tx no_intents insert
third_created = refl

second_version_refused_example :
    create_version svc 104 61 7 version_request (some 2) (some 0) third_state
    ≡ (err (concurrency_conflict 7), third_state)
second_version_refused_example =
    second_version_refused svc svc 103 104 60 61 7 version_request version_request 2 none (some 0)
      (response svc 103 60 7 version_request none state (intent_at 2)) state third_state
      third_created

new_version_cancels_pending_example :
    (i : Intent) × (b : ApprovalRepo) × (get 7 revised.intents ≡ some i)
    × (third_state.approval_repo ≡ some b)
    × (list_pending_by_intent 7 i.tenant_id b ≡ [])
    × (get 900 b.requests
        ≡ on_some
            (λ p.
              if of_intent pending 7 i.tenant_id p
              then resolved cancelled 60 "sys"
                  (some (cancellation_reason i.current_version (succ i.current_version)))
                  p
              else p)
            (get 900 waiting.requests))
    × (third_state.audit_log
        ≡ audited svc
            (cancelled_event svc i 7
              (succ i.current_version)
              (length (filter (of_intent pending 7 i.tenant_id) (values waiting.requests))))
            [])
new_version_cancels_pending_example =
    new_version_cancels_pending svc 103 60 7 900 version_request (some 2) none
      (response svc 103 60 7 version_request none state (intent_at 2)) state third_state waiting
      refl waiting-IsIndexed third_created

unused_version : get 103 revised.versions ≡ none
unfolding revised begun create_intent_tx no_intents insert create_version_with_occ
unused_version = refl

version_retry_succeeds_example :
    ((create_version svc 103 60 7 version_request none none state).0
      ≡ ok (response svc 103 60 7 version_request none state (intent_at 2)))
    × (get_intent_head 7 (create_version svc 103 60 7 version_request none none state).1
        ≡ ok (record {
          intent = intent_at 3;
          version = next_version hash (intent_at 2) 7 103 60 version_request revised;
          row_version = 0;
        }))
version_retry_succeeds_example =
    version_retry_succeeds svc 103 60 7 version_request none none state (intent_at 2)
      (History-IsChained hash revised-History) revised_stored (inl refl) unused_version
      (omega (arith, two_versions))

comparison_exact_example : ((1 ≤ 1) × (1 < 2) × (2 ≤ 2)) ↔ Compared ℕ 7 1 2 state
comparison_exact_example =
    comparison_exact ℕ 7 1 2 state (intent_at 2) (History-IsChained hash revised-History)
      revised_stored (omega (arith, two_versions)) (omega arith) (omega arith)
