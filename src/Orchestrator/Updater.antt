-- ===== src/Orchestrator/Updater.antt =====
-- The updates of node states after a rebase (crates/rebase-orchestrator/src/graph_updater.rs), over
-- the in-memory store of the graph. The error of a result stands for its text. A batch turns an
-- error of an update into a failed result; an update gives none, so that branch is left out.
use intent_rebase.Base.{
  ℕ, String, Bool, true, false, not, Option, none, some, List, [], ◌∷◌, if◌then◌else◌, Message, lit,
  uuid, int, Error, ok, err,
}
use intent_rebase.Graph.Types.{
  GraphNode, NodeType, NodeState, active, stale, invalid, archived, node_state_eq,
}
use intent_rebase.Graph.Store.{GraphState, get_node, update_node_state}

pub record GraphUpdateAction : Type 0 where
  pub node_id : ℕ
  pub node_type : NodeType
  pub label : String
  pub previous_state : NodeState
  pub new_state : NodeState
  pub reason : Message

pub data UpdateError : Type 0 where
  node_not_found : Error → UpdateError
  invalid_transition : NodeState → NodeState → UpdateError
  update_failed : Error → UpdateError

pub record GraphUpdateResult : Type 0 where
  pub success : Bool
  pub action : Option GraphUpdateAction
  pub error : Option UpdateError

abbrev success_of : GraphUpdateAction → GraphUpdateResult
success_of action = record { success = true; action = some action; error = none }

abbrev failure_of : UpdateError → GraphUpdateResult
failure_of e = record { success = false; action = none; error = some e }

abbrev pub allowed : NodeState → NodeState → Bool
allowed active stale = true
allowed active invalid = true
allowed stale active = true
allowed stale archived = true
allowed stale invalid = true
allowed _ _ = false

abbrev pub is_valid_transition : NodeState → NodeState → Bool
is_valid_transition from to = if node_state_eq from to then true else allowed from to

abbrev state_text : NodeState → String
state_text active = "Active"
state_text stale = "Stale"
state_text invalid = "Invalid"
state_text archived = "Archived"

abbrev action_of : GraphNode → ℕ → NodeState → NodeState → Message → GraphUpdateAction
action_of n id previous new reason = record {
  node_id = id;
  node_type = n.node_type;
  label = n.label;
  previous_state = previous;
  new_state = new;
  reason = reason;
}

unfoldable pub update_node_state_if_affected :
    ℕ → NodeState → Message → GraphState → GraphUpdateResult × GraphState
update_node_state_if_affected id new reason s =
    let (found, s1) = get_node id s in
    elim found [
      | err e ↦ (failure_of (node_not_found e), s1)
      | ok n ↦
          let (updated, s2) = update_node_state id new s1 in
          if not (is_valid_transition n.state new)
          then (failure_of (invalid_transition n.state new), s1)
          else if node_state_eq n.state new
          then (
            success_of (
                action_of n id n.state new
                  (lit "No change needed: already in " ∷ lit (state_text new) ∷ [])),
            s1,
          )
          else (
            elim updated [
              | ok m ↦ success_of (action_of m id n.state new reason)
              | err e ↦ failure_of (update_failed e)
            ],
            s2,
          )
    ]

-- The loop of the batches.
unfoldable pub update_each :
    List ℕ → NodeState → Message → GraphState → List GraphUpdateResult × GraphState
update_each [] new reason s = ([], s)
update_each (id ∷ ids) new reason s =
    let (result, s1) = update_node_state_if_affected id new reason s in
    let (results, s2) = update_each ids new reason s1 in (result ∷ results, s2)

unfoldable pub mark_artifacts_stale :
    List ℕ → ℕ → ℕ → GraphState → List GraphUpdateResult × GraphState
mark_artifacts_stale ids intent_id intent_version =
    update_each ids stale
      (lit "Affected by intent " ∷ uuid intent_id ∷ lit " v" ∷ int intent_version ∷ [])

unfoldable pub mark_approvals_stale :
    List ℕ → ℕ → ℕ → GraphState → List GraphUpdateResult × GraphState
mark_approvals_stale ids intent_id intent_version = update_each ids stale (
    lit "Approval revalidation needed for intent "
    ∷ uuid intent_id
    ∷ lit " v"
    ∷ int intent_version
    ∷ [])

unfoldable pub revalidate_nodes : List ℕ → ℕ → GraphState → List GraphUpdateResult × GraphState
revalidate_nodes ids new_intent_version =
    update_each ids active
      (lit "Re-validated after successful rebase to v" ∷ int new_intent_version ∷ [])

unfoldable pub archive_nodes : List ℕ → Message → GraphState → List GraphUpdateResult × GraphState
archive_nodes ids reason = update_each ids archived reason

pub data QuarantineStatus : Type 0 where
  signaled : QuarantineStatus
  acknowledged : QuarantineStatus
  released : QuarantineStatus

pub record ArtifactInvalidationSignal : Type 0 where
  pub node_id : ℕ
  pub intent_id : ℕ
  pub intent_version_from : ℕ
  pub intent_version_to : ℕ
  pub reason : Message
  pub initiated_by : String
  pub signaled_at : ℕ
  pub quarantine_status : QuarantineStatus

abbrev pub invalidation_reason : ℕ → ℕ → ℕ → Message
invalidation_reason intent from to =
    lit "Artifact invalidated due to intent "
    ∷ uuid intent
    ∷ lit " change from v"
    ∷ int from
    ∷ lit " to v"
    ∷ int to
    ∷ []

unfoldable pub invalidate_artifacts :
    List ℕ → ℕ → ℕ → ℕ → String → ℕ → GraphState → List ArtifactInvalidationSignal × GraphState
invalidate_artifacts [] intent from to by now s = ([], s)
invalidate_artifacts (id ∷ ids) intent from to by now s =
    let reason = invalidation_reason intent from to in
    let (result, s1) = update_node_state_if_affected id stale reason s in
    let (signals, s2) = invalidate_artifacts ids intent from to by now s1 in
    (
      if result.success
          then record {
            node_id = id;
            intent_id = intent;
            intent_version_from = from;
            intent_version_to = to;
            reason = reason;
            initiated_by = by;
            signaled_at = now;
            quarantine_status = signaled;
          }
            ∷ signals
          else signals,
      s2,
    )
