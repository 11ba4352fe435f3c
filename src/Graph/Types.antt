-- ===== src/Graph/Types.antt =====
-- The data of crates/intent-rebase-types/src/graph.rs. A JSON value is never looked into: a number
-- stands for it, 0 for the empty object. A `Uuid` and a time are numbers.
use intent_rebase.Base.{ℕ, String, Bool, true, false, Option, none, some, List, [], ◌∷◌}

pub data ExternalRefType : Type 0 where
  intent intent_version artifact approval policy_snapshot side_effect checkpoint : ExternalRefType

pub record ExternalRef : Type 0 where
  pub ref_type : ExternalRefType
  pub ref_id : ℕ

pub data NodeType : Type 0 where
  intent intent_version artifact approval policy_snapshot side_effect checkpoint : NodeType
  workflow generic : NodeType

pub data NodeState : Type 0 where
  active stale invalid archived : NodeState

pub record GraphNode : Type 0 where
  pub id : ℕ
  pub tenant_id : ℕ
  pub workflow_id : ℕ
  pub node_type : NodeType
  pub external_ref : Option ExternalRef
  pub label : String
  pub state : NodeState
  pub properties : ℕ
  pub created_at : ℕ

pub data EdgeType : Type 0 where
  depends_on produces approves triggers defines generated_from validated_by : EdgeType
  governed_by derived_from stored_in supersedes blocks compensates : EdgeType

pub record GraphEdge : Type 0 where
  pub id : ℕ
  pub tenant_id : ℕ
  pub workflow_id : ℕ
  pub from_node_id : ℕ
  pub to_node_id : ℕ
  pub edge_type : EdgeType
  pub properties : ℕ
  pub created_at : ℕ

pub record CreateGraphNodeRequest : Type 0 where
  pub tenant_id : ℕ
  pub workflow_id : ℕ
  pub node_type : NodeType
  pub external_ref : Option ExternalRef
  pub label : String
  pub properties : Option ℕ

pub record CreateGraphEdgeRequest : Type 0 where
  pub tenant_id : ℕ
  pub workflow_id : ℕ
  pub from_node_id : ℕ
  pub to_node_id : ℕ
  pub edge_type : EdgeType
  pub properties : Option ℕ

-- `unwrap_or(serde_json::json!({}))`.
abbrev pub or_empty_object : Option ℕ → ℕ
or_empty_object none = 0
or_empty_object (some p) = p

-- `==` on the derived `PartialEq`s.
abbrev pub node_type_eq : NodeType → NodeType → Bool
node_type_eq intent intent = true
node_type_eq intent_version intent_version = true
node_type_eq artifact artifact = true
node_type_eq approval approval = true
node_type_eq policy_snapshot policy_snapshot = true
node_type_eq side_effect side_effect = true
node_type_eq checkpoint checkpoint = true
node_type_eq workflow workflow = true
node_type_eq generic generic = true
node_type_eq _ _ = false

abbrev pub node_state_eq : NodeState → NodeState → Bool
node_state_eq active active = true
node_state_eq stale stale = true
node_state_eq invalid invalid = true
node_state_eq archived archived = true
node_state_eq _ _ = false

abbrev pub edge_type_eq : EdgeType → EdgeType → Bool
edge_type_eq depends_on depends_on = true
edge_type_eq produces produces = true
edge_type_eq approves approves = true
edge_type_eq triggers triggers = true
edge_type_eq defines defines = true
edge_type_eq generated_from generated_from = true
edge_type_eq validated_by validated_by = true
edge_type_eq governed_by governed_by = true
edge_type_eq derived_from derived_from = true
edge_type_eq stored_in stored_in = true
edge_type_eq supersedes supersedes = true
edge_type_eq blocks blocks = true
edge_type_eq compensates compensates = true
edge_type_eq _ _ = false

pub record GraphNodeFilter : Type 0 where
  pub tenant_id : Option ℕ
  pub workflow_id : Option ℕ
  pub node_type : Option NodeType
  pub state : Option NodeState

pub record GraphEdgeFilter : Type 0 where
  pub tenant_id : Option ℕ
  pub workflow_id : Option ℕ
  pub from_node_id : Option ℕ
  pub to_node_id : Option ℕ
  pub edge_type : Option EdgeType

pub record TraversalOptions : Type 0 where
  pub max_depth : Option ℕ
  pub edge_types : Option (List EdgeType)
  pub node_types : Option (List NodeType)
  pub include_start : Bool

pub record ReachabilityResult : Type 0 where
  pub reachable_nodes : List ℕ
  pub incoming_edges : List ℕ

pub data EdgeDirection : Type 0 where
  incoming : EdgeDirection
  outgoing : EdgeDirection
  both : EdgeDirection

pub record PropagationConfig : Type 0 where
  pub max_depth : Option ℕ
  pub traversable_edge_types : List EdgeType
  pub traversable_directions : List EdgeDirection
  pub target_node_types : List NodeType

abbrev pub default_propagation_config : PropagationConfig
default_propagation_config = record {
  max_depth = some 3;
  traversable_edge_types = depends_on ∷ triggers ∷ generated_from ∷ validated_by ∷ [];
  traversable_directions = both ∷ [];
  target_node_types =
      NodeType.artifact ∷ NodeType.approval ∷ NodeType.side_effect ∷ NodeType.generic ∷ [];
}

pub record ClassifyRequest : Type 0 where
  pub start_node_id : ℕ
  pub max_depth : Option ℕ
  pub target_node_types : Option (List NodeType)
  pub propagation_config : Option PropagationConfig
