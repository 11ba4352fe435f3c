-- ===== src/Graph/Classification/Defs.antt =====
-- `GraphService::classify_impact`. The loop over the queue takes fuel, which `classify_impact` gives
-- by a bound on the work.
use intent_rebase.Base.{
  ℕ, zero, suc, ◌+◌, ◌-◌, ◌*◌, String, Bool, ◌&&◌, Option, none, some, List, [], ◌∷◌, ◌++◌,
  filter_map, any, length, total, ltb, ◌==◌, if◌then◌else◌, Map, get, Result, ok, err,
  graph_node_not_found, internal,
}
use intent_rebase.Graph.Types.{
  GraphNode, GraphEdge, NodeType, EdgeType, depends_on, triggers, generated_from, validated_by,
  edge_type_eq, node_type_eq, PropagationConfig, default_propagation_config, ClassifyRequest,
}
use intent_rebase.Graph.Store.{GraphState, list_edges_from, list_edges_to}
use intent_rebase.Engine.Plan.Types.{ClassificationImpact, direct, transitive}

pub record ClassifiedNode : Type 0 where
  pub node : GraphNode
  pub impact : ClassificationImpact
  pub reason : String

pub record ClassificationResult : Type 0 where
  pub classified_nodes : List ClassifiedNode
  pub start_node_id : ℕ
  pub max_depth : ℕ

-- The triples of the queue.
pub record Pending : Type 0 where
  pub node_id : ℕ
  pub depth : ℕ
  pub reason : String

pub record Classification : Type 0 where
  pub queue : List Pending
  pub visited : List ℕ
  pub classified : List ClassifiedNode

abbrev or_default : Option ℕ → ℕ → ℕ
or_default none d = d
or_default (some n) d = n

abbrev pub config_of : ClassifyRequest → PropagationConfig
config_of q = elim q.propagation_config [ none ↦ default_propagation_config | some c ↦ c ]

abbrev pub max_depth_of : ClassifyRequest → ℕ
max_depth_of q = elim q.propagation_config [
  | none ↦ or_default q.max_depth 3
  | some c ↦ elim c.max_depth [ none ↦ or_default q.max_depth 3 | some n ↦ n ]
]

abbrev pub targets_of : ClassifyRequest → List NodeType
targets_of q = elim q.propagation_config [
  | none ↦ elim q.target_node_types [
    | none ↦ default_propagation_config.target_node_types
    | some types ↦ types
  ]
  | some c ↦ c.target_node_types
]

abbrev pub traversable : PropagationConfig → EdgeType → Bool
traversable c t = any (λ u. edge_type_eq u t) c.traversable_edge_types

abbrev pub is_target : List NodeType → GraphNode → Bool
is_target types n = any (λ t. node_type_eq t n.node_type) types

-- What an edge into the start puts into the queue.
abbrev pub seed : PropagationConfig → GraphEdge → Option Pending
seed c e =
    if edge_type_eq e.edge_type depends_on && traversable c e.edge_type
    then some (record { node_id = e.from_node_id; depth = 1; reason = "directly depends on" })
    else if edge_type_eq e.edge_type validated_by && traversable c e.edge_type
    then some
        (record { node_id = e.from_node_id; depth = 1; reason = "directly validates this version" })
    else none

abbrev pub incoming : PropagationConfig → ℕ → GraphEdge → Option Pending
incoming c depth e =
    if edge_type_eq e.edge_type depends_on && traversable c e.edge_type
    then some (record {
      node_id = e.from_node_id;
      depth = suc depth;
      reason = "downstream via dependency chain";
    })
    else none

abbrev pub outgoing : PropagationConfig → ℕ → GraphEdge → Option Pending
outgoing c depth e =
    if edge_type_eq e.edge_type triggers && traversable c triggers
    then some
        (record { node_id = e.to_node_id; depth = suc depth; reason = "downstream via triggered" })
    else if edge_type_eq e.edge_type generated_from && traversable c generated_from
    then some (record {
      node_id = e.to_node_id;
      depth = suc depth;
      reason = "downstream via generated from";
    })
    else none

-- What `enqueue_propagation_edges_with_config` adds to the queue.
unfoldable pub propagated : PropagationConfig → GraphState → ℕ → ℕ → List Pending
propagated c s node_id depth =
    filter_map (incoming c depth) (list_edges_to node_id s)
    ++ filter_map (outgoing c depth) (list_edges_from node_id s)

abbrev pub impact_at : ℕ → ClassificationImpact
impact_at depth = if depth == 1 then direct else transitive

abbrev pub seen : ℕ → List ℕ → Bool
seen n visited = any (λ v. v == n) visited

abbrev pub explored : PropagationConfig → ℕ → GraphState → Pending → List Pending
explored c max s p = if ltb p.depth max then propagated c s p.node_id p.depth else []

abbrev pub classify_node :
    PropagationConfig → ℕ → GraphState → Pending → GraphNode → Classification → Classification
classify_node c max s p n x = record {
  queue = x.queue ++ explored c max s p;
  visited = p.node_id ∷ x.visited;
  classified =
      x.classified ++ record { node = n; impact = impact_at p.depth; reason = p.reason } ∷ [];
}

-- One turn of the loop, after an entry left the queue.
unfoldable pub take_turn :
    PropagationConfig → ℕ → List NodeType → GraphState → Pending → Classification → Classification
take_turn c max types s p x =
    if ltb max p.depth
    then x
    else if seen p.node_id x.visited
    then x
    else elim (get p.node_id s.nodes) [
      | none ↦ x
      | some n ↦
          if is_target types n
          then classify_node c max s p n x
          else record x { queue = x.queue ++ explored c max s p }
    ]

unfoldable pub classify_loop :
    PropagationConfig → ℕ → List NodeType → GraphState → ℕ → Classification → Option Classification
unfolding take_turn
classify_loop c max types s zero x = elim x.queue [ [] ↦ some x | p ∷ ps ↦ none ]
classify_loop c max types s (suc fuel) x = elim x.queue [
  | [] ↦ some x
  | p ∷ ps ↦ classify_loop c max types s fuel (take_turn c max types s p (record x { queue = ps }))
]

-- A bound on the entries that one expansion adds: the edges at all stored nodes.
abbrev pub branching : GraphState → Map GraphNode → ℕ
branching s [] = 0
branching s ((j, n) ∷ m) = length (list_edges_to j s) + length (list_edges_from j s) + branching s m

-- The turns that an entry may cause, where `levels` more levels are explored.
abbrev pub turns : ℕ → ℕ → ℕ
turns b zero = 1
turns b (suc levels) = 1 + b * turns b levels

unfoldable pub work : ℕ → ℕ → List Pending → ℕ
work b max = total (λ p. turns b (suc max - p.depth))

abbrev pub seeded : ClassifyRequest → GraphState → Classification
seeded q s = record {
  queue = filter_map (seed (config_of q)) (list_edges_to q.start_node_id s);
  visited = [];
  classified = [];
}

abbrev result_of : ClassifyRequest → GraphNode → Option Classification → Result ClassificationResult
result_of q start none = err (internal [])
result_of q start (some x) = ok (record {
  classified_nodes = x.classified;
  start_node_id = start.id;
  max_depth = max_depth_of q;
})

unfoldable pub classify_impact : ClassifyRequest → GraphState → Result ClassificationResult
unfolding classify_loop work
classify_impact q s = elim (get q.start_node_id s.nodes) [
  | none ↦ err (graph_node_not_found q.start_node_id)
  | some start ↦
      let max = max_depth_of q in
      let x = seeded q s in
      result_of q start (
        classify_loop (config_of q) max (targets_of q) s (work (branching s s.nodes) max x.queue) x)
]
