-- ===== src/Intent/Repo/Defs.antt =====
-- The state and the operations of `InMemoryIntentRepository`. A new identifier, the clock and the
-- hash of a payload (SHA-256 of its JSON) are arguments.
use intent_rebase.Base.{
  ℕ, String, Bool, not, Option, none, some, List, [], ◌∷◌, ◌++◌, ◌==◌, if◌then◌else◌, Map, get,
  insert, fetched, sort, Act, Result, ok, err, or_err, intent_not_found, intent_version_not_found,
  concurrency_conflict, invalid_intent_version, lit, int, uuid,
}
use intent_rebase.Base.Int32.{succ, geb}
use intent_rebase.Engine.Types.{IntentVersion, IntentPayload, ChangeChannel, VersionStatus}
use intent_rebase.Intent.Types.{
  Intent, IntentStatus, CreateIntentRequest, CreateIntentResponse, CreateVersionRequest,
  CreateVersionResponse,
}

pub record IntentRepo : Type 0 where
  pub intents : Map Intent
  pub versions : Map IntentVersion
  pub versions_by_intent : Map (List ℕ)

unfoldable pub empty : IntentRepo
empty = record { intents = []; versions = []; versions_by_intent = [] }

abbrev or_default : Option ℕ → ℕ → ℕ
or_default none d = d
or_default (some t) d = t

abbrev pub ids_of : ℕ → IntentRepo → List ℕ
ids_of intent_id r = elim (get intent_id r.versions_by_intent) [ none ↦ [] | some ids ↦ ids ]

-- `ids.last().copied()`.
abbrev pub last : List ℕ → Option ℕ
last [] = none
last (v ∷ vs) = let rest = last vs in elim rest [ none ↦ some v | some w ↦ some w ]

abbrev pub first_intent : ℕ → ℕ → ℕ → CreateIntentRequest → Intent
first_intent intent_id default_tenant now q = record {
  id = intent_id;
  tenant_id = or_default q.tenant_id default_tenant;
  workflow_id = q.workflow_id;
  current_version = 1;
  status = IntentStatus.active;
  created_at = now;
  created_by = q.created_by;
  source_refs = q.source_refs;
  tags = q.tags;
}

abbrev pub first_version :
    (IntentPayload → String) → ℕ → ℕ → ℕ → CreateIntentRequest → IntentVersion
first_version compute_payload_hash intent_id version_id now q = record {
  id = version_id;
  intent_id = intent_id;
  version_number = 1;
  parent_version_id = none;
  created_at = now;
  created_by = q.created_by;
  change_reason = "Initial creation";
  change_channel = ChangeChannel.user_edit;
  status = VersionStatus.active;
  hash = compute_payload_hash q.payload;
  payload = q.payload;
}

unfoldable pub create_intent_tx :
    (IntentPayload → String)
    → ℕ
    → ℕ
    → ℕ
    → ℕ
    → CreateIntentRequest
    → Act IntentRepo CreateIntentResponse
create_intent_tx compute_payload_hash intent_id version_id default_tenant now q r = (
  ok (record { intent_id = intent_id; current_version = 1; status = IntentStatus.active }),
  record {
    intents = insert intent_id (first_intent intent_id default_tenant now q) r.intents;
    versions =
        insert version_id (first_version compute_payload_hash intent_id version_id now q)
          r.versions;
    versions_by_intent = insert intent_id (version_id ∷ []) r.versions_by_intent;
  },
)

unfoldable pub get_intent : ℕ → IntentRepo → Result Intent
get_intent id r = or_err (get id r.intents) (intent_not_found id)

abbrev pub next_version :
    (IntentPayload → String)
    → Intent
    → ℕ
    → ℕ
    → ℕ
    → CreateVersionRequest
    → IntentRepo
    → IntentVersion
next_version compute_payload_hash i intent_id version_id now q r = record {
  id = version_id;
  intent_id = intent_id;
  version_number = succ i.current_version;
  parent_version_id = last (ids_of intent_id r);
  created_at = now;
  created_by = q.created_by;
  change_reason = q.change_reason;
  change_channel = q.change_channel;
  status = VersionStatus.active;
  hash = compute_payload_hash q.payload;
  payload = q.payload;
}

-- The row version that is expected is not looked at.
unfoldable pub create_version_with_occ :
    (IntentPayload → String)
    → ℕ
    → ℕ
    → ℕ
    → CreateVersionRequest
    → ℕ
    → ℕ
    → Act IntentRepo CreateVersionResponse
create_version_with_occ compute_payload_hash version_id now intent_id q expected expected_row r =
    elim (get intent_id r.intents) [
      | none ↦ (err (intent_not_found intent_id), r)
      | some i ↦
          if not (i.current_version == expected)
          then (err (concurrency_conflict intent_id), r)
          else (
            ok (record {
              intent_version_id = version_id;
              intent_id = intent_id;
              version_number = succ i.current_version;
              status = VersionStatus.active;
            }),
            record {
              intents =
                  insert intent_id (record i { current_version = succ i.current_version })
                    r.intents;
              versions =
                  insert version_id
                    (next_version compute_payload_hash i intent_id version_id now q r) r.versions;
              versions_by_intent =
                  insert intent_id (ids_of intent_id r ++ version_id ∷ []) r.versions_by_intent;
            },
          )
    ]

unfoldable pub get_version : ℕ → IntentRepo → Result IntentVersion
get_version id r = or_err (get id r.versions) (intent_version_not_found id)

abbrev pub by_number : IntentVersion → IntentVersion → Bool
by_number a b = geb b.version_number a.version_number

unfoldable pub get_versions_by_intent : ℕ → IntentRepo → List IntentVersion
get_versions_by_intent intent_id r = sort by_number (fetched r.versions (ids_of intent_id r))

abbrev pub find_number : ℕ → List IntentVersion → Option IntentVersion
find_number n [] = none
find_number n (v ∷ vs) =
    let rest = find_number n vs in if v.version_number == n then some v else rest

unfoldable pub get_version_by_intent_and_number : ℕ → ℕ → IntentRepo → Result IntentVersion
unfolding get_versions_by_intent
get_version_by_intent_and_number intent_id number r =
    or_err (find_number number (get_versions_by_intent intent_id r)) (
      invalid_intent_version
        (lit "version " ∷ int number ∷ lit " not found for intent " ∷ uuid intent_id ∷ []))

-- The row version is not tracked: 0 stands for it.
unfoldable pub get_intent_for_update : ℕ → IntentRepo → Result (Intent × ℕ)
get_intent_for_update id r = elim (get id r.intents) [
  | none ↦ err (intent_not_found id)
  | some i ↦ ok (i, 0)
]
