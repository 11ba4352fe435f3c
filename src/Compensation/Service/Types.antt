-- ===== src/Compensation/Service/Types.antt =====
-- The service's configuration and the state that its calls change. The audit repository and the
-- rollback record repository are trait objects whose writes may fail: each is a test that says which
-- writes succeed.
use intent_rebase.Base.{
  ℕ, String, Bool, Option, some, none, List, [], ◌∷◌, ◌++◌, if◌then◌else◌, Result, ok, Act, Message,
  Text,
}
use intent_rebase.Compensation.SideEffect.{SideEffect}
use intent_rebase.Compensation.Action.{CompensationAction}
use intent_rebase.Compensation.Repo.{ActionRepo}

pub data AuditPayload : Type 0 where
  -- The two versions, and how many compensations are automatic, manual and not possible.
  planned : ℕ → ℕ → ℕ → ℕ → ℕ → AuditPayload
  started : AuditPayload
  completed : AuditPayload
  -- The failed action and the summary of the error.
  failure_reported : ℕ → Message → AuditPayload

-- Each event is about one action, so the counts of actions and side effects in it are 1.
pub record AuditEvent : Type 0 where
  pub tenant_id : ℕ
  pub actor_id : String
  pub intent_id : ℕ
  pub compensation_plan_id : ℕ
  pub payload : AuditPayload

pub data RollbackRecordResult : Type 0 where
  success failure waiver : RollbackRecordResult

pub record RollbackRecord : Type 0 where
  pub tenant_id : ℕ
  pub compensation_action_id : ℕ
  pub side_effect_id : ℕ
  pub intent_id : ℕ
  pub result : RollbackRecordResult
  pub summary : Message
  pub error_code : Option String
  pub error_detail : Option Text
  pub recorded_by : Option String
  pub recorded_at : ℕ
  pub lock_version : ℕ  -- i32

pub record SideEffectRepo : Type 0 where
  pub find_effect : ℕ → Result SideEffect
  pub list_by_intent : ℕ → ℕ → Result (List SideEffect)

pub record Service : Type 0 where
  pub side_effect_repo : Option SideEffectRepo
  pub rollback_record_repo : Option (RollbackRecord → Bool)
  pub audit_repo : Option (AuditEvent → Bool)

pub record World : Type 0 where
  pub repo : ActionRepo
  pub audit_log : List AuditEvent
  pub rollback_log : List RollbackRecord

abbrev pub on_repo : {A : Type 0} → Act ActionRepo A → Act World A
on_repo m w = let (r, s) = m w.repo in (r, record w { repo = s })

-- Best effort: a write that fails is logged and changes nothing.
unfoldable pub emitted : Service → AuditEvent → World → World
emitted svc event w = elim svc.audit_repo [
  | none ↦ w
  | some accepts ↦ if accepts event then record w { audit_log = w.audit_log ++ event ∷ [] } else w
]

unfoldable pub noted : Service → RollbackRecord → World → World
noted svc entry w = elim svc.rollback_record_repo [
  | none ↦ w
  | some accepts ↦
      if accepts entry then record w { rollback_log = w.rollback_log ++ entry ∷ [] } else w
]

abbrev pub emit : Service → AuditEvent → Act World (Unit {0})
emit svc event w = (ok tt, emitted svc event w)

abbrev pub note : Service → RollbackRecord → Act World (Unit {0})
note svc entry w = (ok tt, noted svc entry w)

abbrev pub event_of : CompensationAction → String → AuditPayload → AuditEvent
event_of a actor payload = record {
  tenant_id = a.tenant_id;
  actor_id = actor;
  intent_id = a.intent_id;
  compensation_plan_id = a.id;
  payload = payload;
}
