-- ===== src/Graph/Traversal/Defs.antt =====
-- `GraphService::find_reachable`. The queue's entries carry an edge each. The set of visited nodes is a list, the latest first, where the code
-- gives the order of a hash set.
use intent_rebase.Base.{
  ℕ, zero, suc, ◌+◌, Bool, true, false, not, ◌&&◌, Option, none, some, List, [], ◌∷◌, ◌++◌, map,
  filter, any, length, ltb, leb, ◌==◌, if◌then◌else◌, Map, get, Result, ok, err,
  graph_node_not_found, internal,
}
use intent_rebase.Graph.Types.{
  GraphNode, GraphEdge, NodeType, TraversalOptions, ReachabilityResult, edge_type_eq, node_type_eq,
}
use intent_rebase.Graph.Store.{GraphState, list_edges_from}

pub record Entry : Type 0 where
  pub node_id : ℕ
  pub edge_id : ℕ
  pub depth : ℕ

pub record Search : Type 0 where
  pub queue : List Entry
  pub visited : List ℕ
  pub incoming_edges : List ℕ

unfoldable pub edge_passes_filter : TraversalOptions → GraphEdge → Bool
edge_passes_filter options edge = elim options.edge_types [
  | none ↦ true
  | some types ↦ any (λ t. edge_type_eq t edge.edge_type) types
]

abbrev pub entry_of : ℕ → GraphEdge → Entry
entry_of depth e = record { node_id = e.to_node_id; edge_id = e.id; depth = depth }

-- The entries of the edges out of a node that pass the filter.
abbrev pub successors : TraversalOptions → GraphState → ℕ → ℕ → List Entry
successors options s node_id depth =
    map (entry_of depth) (filter (edge_passes_filter options) (list_edges_from node_id s))

abbrev pub too_deep : Option ℕ → ℕ → Bool
too_deep none depth = false
too_deep (some max) depth = ltb max depth

abbrev pub at_max_depth : Option ℕ → ℕ → Bool
at_max_depth none depth = false
at_max_depth (some max) depth = leb max depth

abbrev type_passes : Option (List NodeType) → Option GraphNode → Bool
type_passes none n = true
type_passes (some types) none = false
type_passes (some types) (some n) = any (λ t. node_type_eq t n.node_type) types

abbrev pub seen : ℕ → List ℕ → Bool
seen n visited = any (λ v. v == n) visited

-- Whether an entry passes the tests that stand before `visited.insert`.
abbrev pub admitted : TraversalOptions → GraphState → ℕ → Entry → Bool
admitted options s start q =
    not (q.node_id == start && not options.include_start)
    && not (too_deep options.max_depth q.depth)
    && type_passes options.node_types (get q.node_id s.nodes)

abbrev pub expanded : TraversalOptions → GraphState → Entry → List Entry
expanded options s q =
    if at_max_depth options.max_depth q.depth
    then []
    else successors options s q.node_id (suc q.depth)

-- One turn of the loop, after an entry left the queue.
unfoldable pub advance : TraversalOptions → GraphState → ℕ → Entry → Search → Search
advance options s start q search =
    if admitted options s start q && not (seen q.node_id search.visited)
    then record {
      queue = search.queue ++ expanded options s q;
      visited = q.node_id ∷ search.visited;
      incoming_edges = search.incoming_edges ++ q.edge_id ∷ [];
    }
    else search

-- The loop on fuel; `none` when the fuel is used up.
unfoldable pub loop : TraversalOptions → GraphState → ℕ → ℕ → Search → Option Search
unfolding advance
loop options s start zero search = elim search.queue [ [] ↦ some search | q ∷ qs ↦ none ]
loop options s start (suc fuel) search = elim search.queue [
  | [] ↦ some search
  | q ∷ qs ↦ loop options s start fuel (advance options s start q (record search { queue = qs }))
]

-- The edges out of the nodes that are not visited.
abbrev pub weight : GraphState → List ℕ → Map GraphNode → ℕ
weight s visited [] = 0
weight s visited ((j, n) ∷ m) =
    (if seen j visited then 0 else length (list_edges_from j s)) + weight s visited m

abbrev pub initial : TraversalOptions → GraphState → ℕ → Search
initial options s start = record {
  queue = successors options s start 1;
  visited = if options.include_start then start ∷ [] else [];
  incoming_edges = [];
}

-- Every node is expanded once at most, so the fuel is the number of edges out of the start and out of
-- the stored nodes.
abbrev pub fuel_of : TraversalOptions → GraphState → ℕ → ℕ
fuel_of options s start = length (initial options s start).queue + weight s [] s.nodes

abbrev result_of : Option Search → Result ReachabilityResult
result_of none = err (internal [])
result_of (some search) =
    ok (record { reachable_nodes = search.visited; incoming_edges = search.incoming_edges })

unfoldable pub find_reachable : ℕ → TraversalOptions → GraphState → Result ReachabilityResult
unfolding loop
find_reachable start options s = elim (get start s.nodes) [
  | none ↦ err (graph_node_not_found start)
  | some n ↦ result_of (loop options s start (fuel_of options s start) (initial options s start))
]
