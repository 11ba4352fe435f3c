-- ===== src/Intent/Service/Defs.antt =====
-- The service of intents over the in-memory repositories. The approval repository is optional; the
-- audit repository is a test that says which writes succeed. The variants with a SQL transaction are
-- left out. The cancellation never fails in memory, so its count is not replaced by 0.
use intent_rebase.Base.{
  ℕ, String, Bool, Option, none, some, List, [], ◌∷◌, ◌++◌, ltb, if◌then◌else◌, Act, Result, ok,
  err, Message, lit, int, length, sort, invalid_intent_version,
}
use intent_rebase.Base.Int32.{geb}
use intent_rebase.Engine.Types.{IntentVersion, IntentPayload}
use intent_rebase.Engine.Diff.Types.{IntentVersionDiff}
use intent_rebase.Engine.Risk.Types.{Float, DiffRiskAnalysis}
use intent_rebase.Engine.Facade.{compute_diff_with_risk}
use intent_rebase.Engine.Plan.Types.{RebasePlan}
use intent_rebase.Engine.Plan.Build.{from_diff_and_risk}
use intent_rebase.Intent.Types.{
  Intent, CreateIntentRequest, CreateIntentResponse, CreateVersionRequest, CreateVersionResponse,
  IntentHeadResponse, ListVersionsResponse,
}
use intent_rebase.Intent.Repo.Defs.{
  IntentRepo, create_intent_tx, create_version_with_occ, get_intent, get_intent_for_update,
  get_versions_by_intent, get_version_by_intent_and_number,
}
use intent_rebase.Intent.Approval.Defs.{ApprovalRepo, cancel_pending_by_intent}

pub record ApprovalCancelledAuditPayload : Type 0 where
  pub intent_id : ℕ
  pub cancelled_version_from : ℕ
  pub cancelled_version_to : ℕ
  pub decision_class : String
  pub cancelled_by : String
  pub cancellation_reason : Message
  pub cancelled_count : ℕ

-- The tenant, the actor and the payload of `record_approval_cancelled`.
pub record CancelledEvent : Type 0 where
  pub tenant_id : ℕ
  pub actor_id : String
  pub payload : ApprovalCancelledAuditPayload

pub record IntentService : Type 0 where
  pub compute_payload_hash : IntentPayload → String
  pub audit_repo : Option (CancelledEvent → Bool)
  pub system_actor_id : String

pub record IntentState : Type 0 where
  pub repo : IntentRepo
  pub approval_repo : Option ApprovalRepo
  pub audit_log : List CancelledEvent

unfoldable pub create_intent :
    IntentService → ℕ → ℕ → ℕ → ℕ → CreateIntentRequest → Act IntentState CreateIntentResponse
create_intent svc intent_id version_id tenant now q s =
    let (result, repo) =
      create_intent_tx svc.compute_payload_hash intent_id version_id tenant now q s.repo in
    (result, record s { repo = repo })

abbrev pub or_given : Option ℕ → ℕ → ℕ
or_given none d = d
or_given (some n) d = n

abbrev pub cancellation_reason : ℕ → ℕ → Message
cancellation_reason from to =
    lit "Intent version changed from v" ∷ int from ∷ lit " to v" ∷ int to ∷ []

abbrev pub cancelled_event : IntentService → Intent → ℕ → ℕ → ℕ → CancelledEvent
cancelled_event svc i intent_id to cancelled = record {
  tenant_id = i.tenant_id;
  actor_id = svc.system_actor_id;
  payload = record {
    intent_id = intent_id;
    cancelled_version_from = i.current_version;
    cancelled_version_to = to;
    decision_class = "D/E";
    cancelled_by = svc.system_actor_id;
    cancellation_reason = cancellation_reason i.current_version to;
    cancelled_count = cancelled;
  };
}

-- Best effort: an event is recorded if a request was cancelled and the write succeeds.
abbrev pub audited : IntentService → CancelledEvent → List CancelledEvent → List CancelledEvent
audited svc event log = elim svc.audit_repo [
  | none ↦ log
  | some accepts ↦
      if ltb 0 event.payload.cancelled_count
      then if accepts event then log ++ event ∷ [] else log
      else log
]

-- The pending requests of the intent are cancelled.
unfoldable pub after_version : IntentService → ℕ → Intent → ℕ → ℕ → IntentState → IntentState
after_version svc now i intent_id to s = elim s.approval_repo [
  | none ↦ s
  | some approvals ↦
      let (counted, after) =
        cancel_pending_by_intent now intent_id i.tenant_id svc.system_actor_id
          (cancellation_reason i.current_version to) approvals in
      elim counted [
        | err e ↦ record s { approval_repo = some after }
        | ok n ↦ record s {
          approval_repo = some after;
          audit_log = audited svc (cancelled_event svc i intent_id to n) s.audit_log;
        }
      ]
]

unfoldable pub create_version :
    IntentService
    → ℕ
    → ℕ
    → ℕ
    → CreateVersionRequest
    → Option ℕ
    → Option ℕ
    → Act IntentState CreateVersionResponse
create_version svc version_id now intent_id q expected_version expected_row_version s =
    elim (get_intent_for_update intent_id s.repo) [
      | err e ↦ (err e, s)
      | ok (i, row_version) ↦
          let (result, repo) =
            create_version_with_occ svc.compute_payload_hash version_id now intent_id q
              (or_given expected_version i.current_version)
              (or_given expected_row_version row_version) s.repo in
          elim result [
            | err e ↦ (err e, record s { repo = repo })
            | ok response ↦ (
              ok response,
              after_version svc now i intent_id response.version_number (record s { repo = repo }),
            )
          ]
    ]

unfoldable pub get_intent_head : ℕ → IntentState → Result IntentHeadResponse
get_intent_head intent_id s = elim (get_intent_for_update intent_id s.repo) [
  | err e ↦ err e
  | ok (i, row_version) ↦
      elim (get_version_by_intent_and_number intent_id i.current_version s.repo) [
        | err e ↦ err e
        | ok v ↦ ok (record { intent = i; version = v; row_version = row_version })
      ]
]

unfoldable pub get_version : ℕ → ℕ → IntentState → Result IntentVersion
get_version intent_id version_number s =
    get_version_by_intent_and_number intent_id version_number s.repo

abbrev newest_number_first : IntentVersion → IntentVersion → Bool
newest_number_first a b = geb a.version_number b.version_number

unfoldable pub list_versions : ℕ → IntentState → Result ListVersionsResponse
list_versions intent_id s = elim (get_intent intent_id s.repo) [
  | err e ↦ err e
  | ok i ↦
      let versions = sort newest_number_first (get_versions_by_intent intent_id s.repo) in
      ok (record { intent_id = intent_id; versions = versions; total = length versions })
]

abbrev pub order_error : ℕ → ℕ → Message
order_error from to =
    lit "from_version (" ∷ int from ∷ lit ") must be less than to_version (" ∷ int to ∷ lit ")" ∷ []

module _ {W : Type 0} ⦃f : Float W⦄ where
  unfoldable pub compute_diff :
      ℕ
      → ℕ
      → ℕ
      → IntentState
      → Result (IntentVersion × IntentVersion × IntentVersionDiff × DiffRiskAnalysis W)
  compute_diff intent_id from_version to_version s =
      if geb from_version to_version
      then err (invalid_intent_version (order_error from_version to_version))
      else elim (get_version_by_intent_and_number intent_id from_version s.repo) [
        | err e ↦ err e
        | ok from ↦ elim (get_version_by_intent_and_number intent_id to_version s.repo) [
          | err e ↦ err e
          | ok to ↦ elim (compute_diff_with_risk {W = W} from to) [
            | err e ↦ err e
            | ok (diff, risk) ↦ ok (from, to, diff, risk)
          ]
        ]
      ]

unfoldable pub compute_rebase_preview :
    (W : Type 0) ⦃f : Float W⦄ → ℕ → ℕ → ℕ → IntentState → Result RebasePlan
compute_rebase_preview W intent_id from_version to_version s =
    if geb from_version to_version
    then err (invalid_intent_version (order_error from_version to_version))
    else elim (get_version_by_intent_and_number intent_id from_version s.repo) [
      | err e ↦ err e
      | ok from ↦ elim (get_version_by_intent_and_number intent_id to_version s.repo) [
        | err e ↦ err e
        | ok to ↦ elim (compute_diff_with_risk {W = W} from to) [
          | err e ↦ err e
          | ok (diff, risk) ↦ ok (from_diff_and_risk diff risk)
        ]
      ]
    ]
