-- ===== src/Intent/Types.antt =====
-- The intent and the requests of crates/intent-rebase-types/src/intent.rs.
use intent_rebase.Base.{ℕ, String, Option, List}
use intent_rebase.Engine.Types.{
  ActorRef, ChangeChannel, IntentPayload, IntentVersion, VersionStatus,
}

pub data IntentStatus : Type 0 where
  active archived superseded : IntentStatus

pub record SourceRef : Type 0 where
  pub ref_type : String
  pub id : String

pub record Intent : Type 0 where
  pub id : ℕ
  pub tenant_id : ℕ
  pub workflow_id : ℕ
  pub current_version : ℕ
  pub status : IntentStatus
  pub created_at : ℕ
  pub created_by : ActorRef
  pub source_refs : List SourceRef
  pub tags : List String

pub record CreateIntentRequest : Type 0 where
  pub tenant_id : Option ℕ
  pub workflow_id : ℕ
  pub source_refs : List SourceRef
  pub payload : IntentPayload
  pub created_by : ActorRef
  pub tags : List String

pub record CreateIntentResponse : Type 0 where
  pub intent_id : ℕ
  pub current_version : ℕ
  pub status : IntentStatus

pub record CreateVersionRequest : Type 0 where
  pub payload : IntentPayload
  pub change_reason : String
  pub change_channel : ChangeChannel
  pub created_by : ActorRef

pub record CreateVersionResponse : Type 0 where
  pub intent_version_id : ℕ
  pub intent_id : ℕ
  pub version_number : ℕ
  pub status : VersionStatus

pub record IntentHeadResponse : Type 0 where
  pub intent : Intent
  pub version : IntentVersion
  pub row_version : ℕ

pub record ListVersionsResponse : Type 0 where
  pub intent_id : ℕ
  pub versions : List IntentVersion
  pub total : ℕ
