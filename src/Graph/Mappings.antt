-- ===== src/Graph/Mappings.antt =====
-- The texts of the graph's enumerations in the database
-- (crates/graph-service/src/type_mappings.rs).
use intent_rebase.Base.{String, List, [], ◌∷◌, Result, ok, decode, decode_exact, ◌≡◌, ◌↔◌, refl}
use intent_rebase.Graph.Types.{NodeType, NodeState, EdgeType, ExternalRefType}

abbrev pub node_type_to_string : NodeType → String
node_type_to_string NodeType.intent = "intent"
node_type_to_string NodeType.intent_version = "intent_version"
node_type_to_string NodeType.artifact = "artifact"
node_type_to_string NodeType.approval = "approval"
node_type_to_string NodeType.policy_snapshot = "policy_snapshot"
node_type_to_string NodeType.side_effect = "side_effect"
node_type_to_string NodeType.checkpoint = "checkpoint"
node_type_to_string NodeType.workflow = "workflow"
node_type_to_string NodeType.generic = "generic"

abbrev pub node_types : List (String × NodeType)
node_types =
    ("intent", NodeType.intent)
    ∷ ("intent_version", NodeType.intent_version)
    ∷ ("artifact", NodeType.artifact)
    ∷ ("approval", NodeType.approval)
    ∷ ("policy_snapshot", NodeType.policy_snapshot)
    ∷ ("side_effect", NodeType.side_effect)
    ∷ ("checkpoint", NodeType.checkpoint)
    ∷ ("workflow", NodeType.workflow)
    ∷ ("generic", NodeType.generic)
    ∷ []

abbrev pub node_type_from_string : String → Result NodeType
node_type_from_string = decode "unknown node type: " node_types

abbrev pub node_state_to_string : NodeState → String
node_state_to_string NodeState.active = "active"
node_state_to_string NodeState.stale = "stale"
node_state_to_string NodeState.invalid = "invalid"
node_state_to_string NodeState.archived = "archived"

abbrev pub node_states : List (String × NodeState)
node_states =
    ("active", NodeState.active)
    ∷ ("stale", NodeState.stale)
    ∷ ("invalid", NodeState.invalid)
    ∷ ("archived", NodeState.archived)
    ∷ []

abbrev pub node_state_from_string : String → Result NodeState
node_state_from_string = decode "unknown node state: " node_states

abbrev pub edge_type_to_string : EdgeType → String
edge_type_to_string EdgeType.depends_on = "depends_on"
edge_type_to_string EdgeType.produces = "produces"
edge_type_to_string EdgeType.approves = "approves"
edge_type_to_string EdgeType.triggers = "triggers"
edge_type_to_string EdgeType.defines = "defines"
edge_type_to_string EdgeType.generated_from = "generated_from"
edge_type_to_string EdgeType.validated_by = "validated_by"
edge_type_to_string EdgeType.governed_by = "governed_by"
edge_type_to_string EdgeType.derived_from = "derived_from"
edge_type_to_string EdgeType.stored_in = "stored_in"
edge_type_to_string EdgeType.supersedes = "supersedes"
edge_type_to_string EdgeType.blocks = "blocks"
edge_type_to_string EdgeType.compensates = "compensates"

abbrev pub edge_types : List (String × EdgeType)
edge_types =
    ("depends_on", EdgeType.depends_on)
    ∷ ("produces", EdgeType.produces)
    ∷ ("approves", EdgeType.approves)
    ∷ ("triggers", EdgeType.triggers)
    ∷ ("defines", EdgeType.defines)
    ∷ ("generated_from", EdgeType.generated_from)
    ∷ ("validated_by", EdgeType.validated_by)
    ∷ ("governed_by", EdgeType.governed_by)
    ∷ ("derived_from", EdgeType.derived_from)
    ∷ ("stored_in", EdgeType.stored_in)
    ∷ ("supersedes", EdgeType.supersedes)
    ∷ ("blocks", EdgeType.blocks)
    ∷ ("compensates", EdgeType.compensates)
    ∷ []

abbrev pub edge_type_from_string : String → Result EdgeType
edge_type_from_string = decode "unknown edge type: " edge_types

abbrev pub external_ref_type_to_string : ExternalRefType → String
external_ref_type_to_string ExternalRefType.intent = "intent"
external_ref_type_to_string ExternalRefType.intent_version = "intent_version"
external_ref_type_to_string ExternalRefType.artifact = "artifact"
external_ref_type_to_string ExternalRefType.approval = "approval"
external_ref_type_to_string ExternalRefType.policy_snapshot = "policy_snapshot"
external_ref_type_to_string ExternalRefType.side_effect = "side_effect"
external_ref_type_to_string ExternalRefType.checkpoint = "checkpoint"

abbrev pub external_ref_types : List (String × ExternalRefType)
external_ref_types =
    ("intent", ExternalRefType.intent)
    ∷ ("intent_version", ExternalRefType.intent_version)
    ∷ ("artifact", ExternalRefType.artifact)
    ∷ ("approval", ExternalRefType.approval)
    ∷ ("policy_snapshot", ExternalRefType.policy_snapshot)
    ∷ ("side_effect", ExternalRefType.side_effect)
    ∷ ("checkpoint", ExternalRefType.checkpoint)
    ∷ []

abbrev pub external_ref_type_from_string : String → Result ExternalRefType
external_ref_type_from_string = decode "unknown external ref type: " external_ref_types

node_type_read : (x : NodeType) → node_type_from_string (node_type_to_string x) ≡ ok x
node_type_read NodeType.intent = refl
node_type_read NodeType.intent_version = refl
node_type_read NodeType.artifact = refl
node_type_read NodeType.approval = refl
node_type_read NodeType.policy_snapshot = refl
node_type_read NodeType.side_effect = refl
node_type_read NodeType.checkpoint = refl
node_type_read NodeType.workflow = refl
node_type_read NodeType.generic = refl

node_state_read : (x : NodeState) → node_state_from_string (node_state_to_string x) ≡ ok x
node_state_read NodeState.active = refl
node_state_read NodeState.stale = refl
node_state_read NodeState.invalid = refl
node_state_read NodeState.archived = refl

edge_type_read : (x : EdgeType) → edge_type_from_string (edge_type_to_string x) ≡ ok x
edge_type_read EdgeType.depends_on = refl
edge_type_read EdgeType.produces = refl
edge_type_read EdgeType.approves = refl
edge_type_read EdgeType.triggers = refl
edge_type_read EdgeType.defines = refl
edge_type_read EdgeType.generated_from = refl
edge_type_read EdgeType.validated_by = refl
edge_type_read EdgeType.governed_by = refl
edge_type_read EdgeType.derived_from = refl
edge_type_read EdgeType.stored_in = refl
edge_type_read EdgeType.supersedes = refl
edge_type_read EdgeType.blocks = refl
edge_type_read EdgeType.compensates = refl

external_ref_type_read :
    (x : ExternalRefType) → external_ref_type_from_string (external_ref_type_to_string x) ≡ ok x
external_ref_type_read ExternalRefType.intent = refl
external_ref_type_read ExternalRefType.intent_version = refl
external_ref_type_read ExternalRefType.artifact = refl
external_ref_type_read ExternalRefType.approval = refl
external_ref_type_read ExternalRefType.policy_snapshot = refl
external_ref_type_read ExternalRefType.side_effect = refl
external_ref_type_read ExternalRefType.checkpoint = refl

-- A text is read as a variant just when it is the text that the variant is written as, for node
-- types, node states, edge types and reference types: writing and reading are inverse, and every
-- other text is an error.
pub graph_round_trip :
    (s : String) (n : NodeType) (state : NodeState) (edge : EdgeType) (r : ExternalRefType)
    → ((node_type_from_string s ≡ ok n) ↔ (node_type_to_string n ≡ s))
      × ((node_state_from_string s ≡ ok state) ↔ (node_state_to_string state ≡ s))
      × ((edge_type_from_string s ≡ ok edge) ↔ (edge_type_to_string edge ≡ s))
      × ((external_ref_type_from_string s ≡ ok r) ↔ (external_ref_type_to_string r ≡ s))
graph_round_trip s n state edge r = (
  decode_exact "unknown node type: " node_type_to_string node_types
      (refl, (refl, (refl, (refl, (refl, (refl, (refl, (refl, (refl, tt))))))))) node_type_read s n,
  decode_exact "unknown node state: " node_state_to_string node_states
      (refl, (refl, (refl, (refl, tt)))) node_state_read s state,
  decode_exact "unknown edge type: " edge_type_to_string edge_types
      (
        refl,
        (
          refl,
          (
            refl,
            (refl, (refl, (refl, (refl, (refl, (refl, (refl, (refl, (refl, (refl, tt)))))))))),
          ),
        ),
      )
      edge_type_read s edge,
  decode_exact "unknown external ref type: " external_ref_type_to_string external_ref_types
      (refl, (refl, (refl, (refl, (refl, (refl, (refl, tt))))))) external_ref_type_read s r,
)
