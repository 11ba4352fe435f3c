-- ===== src/Graph/Examples.antt =====
-- Concrete inputs: a workflow of an intent version (1), an artefact made from it (2) and an approval of
-- the artefact (3), and the theorems at them.
use intent_rebase.Base.{
  ℕ, true, none, some, [], ◌∷◌, ◌≡◌, refl, ◌==◌, ◌||◌, ◌&&◌, not, get, insert, All, ok,
}
use intent_rebase.Graph.Mappings.{
  graph_round_trip, node_type_from_string, node_type_to_string, node_state_from_string,
  node_state_to_string, edge_type_from_string, edge_type_to_string, external_ref_type_from_string,
  external_ref_type_to_string,
}
use intent_rebase.Base.{◌↔◌}
use intent_rebase.Graph.Types.{NodeType, NodeState, EdgeType, ExternalRefType}
use intent_rebase.Graph.Types.{
  GraphEdge, NodeType, EdgeType, CreateGraphNodeRequest, CreateGraphEdgeRequest, TraversalOptions,
  ReachabilityResult, intent_version, artifact, approval, generated_from, approves,
}
use intent_rebase.Graph.Store.{
  GraphState, empty, create_node, create_edge, list_edges_from, node_of, edge_of,
}
use intent_rebase.Graph.Store.Integrity.{IsSound, HasEnd}
use intent_rebase.Graph.Store.History.{History, start, adds_node, adds_edge, History-IsSound}
use intent_rebase.Graph.Traversal.{find_reachable, loop, advance, edge_passes_filter, seen}
use intent_rebase.Graph.Traversal.Soundness.{IsReached, find_reachable_sound}
use intent_rebase.Graph.Traversal.Completeness.{Passing, find_reachable_complete}
use intent_rebase.Graph.Traversal.Completeness

abbrev pub node_request : NodeType → CreateGraphNodeRequest
node_request t = record {
  tenant_id = 7;
  workflow_id = 9;
  node_type = t;
  external_ref = none;
  label = "n";
  properties = none;
}

abbrev pub edge_request : ℕ → ℕ → EdgeType → CreateGraphEdgeRequest
edge_request a b t = record {
  tenant_id = 7;
  workflow_id = 9;
  from_node_id = a;
  to_node_id = b;
  edge_type = t;
  properties = none;
}

abbrev three_nodes : GraphState
unfolding create_node empty insert
three_nodes =
    (create_node 3 102 (node_request approval)
      (create_node 2 101 (node_request artifact)
        (create_node 1 100 (node_request intent_version) empty).1).1).1

abbrev one_edge : GraphState
unfolding three_nodes create_edge
one_edge = (create_edge 11 103 (edge_request 1 2 generated_from) three_nodes).1

abbrev pub lineage : GraphState
unfolding one_edge create_edge
lineage = (create_edge 12 104 (edge_request 2 3 approves) one_edge).1

pub lineage-History : History lineage
unfolding lineage one_edge three_nodes create_node empty insert create_edge
lineage-History =
    adds_edge 12 104 (edge_request 2 3 approves)
      (adds_edge 11 103 (edge_request 1 2 generated_from)
        (adds_node 3 102 (node_request approval)
          (adds_node 2 101 (node_request artifact)
            (adds_node 1 100 (node_request intent_version) start refl) refl)
          refl)
        refl)
      refl

History-IsSound_example : IsSound lineage
History-IsSound_example = History-IsSound lineage-History

abbrev first : GraphEdge
first = edge_of 11 103 (edge_request 1 2 generated_from)

abbrev second : GraphEdge
second = edge_of 12 104 (edge_request 2 3 approves)

stored_first : get 11 lineage.edges ≡ some first
unfolding lineage one_edge three_nodes create_node empty insert create_edge
stored_first = refl

stored_second : get 12 lineage.edges ≡ some second
unfolding lineage one_edge three_nodes create_node empty insert create_edge
stored_second = refl

stored_start : get 1 lineage.nodes ≡ some (node_of 1 100 (node_request intent_version))
unfolding lineage one_edge three_nodes create_node empty insert create_edge
stored_start = refl

start_HasEnd : HasEnd lineage 1 7 9
start_HasEnd = record {
  node = node_of 1 100 (node_request intent_version);
  found = stored_start;
  tenant = refl;
  workflow = refl;
}

abbrev all_options : TraversalOptions
all_options = record {
  max_depth = none;
  edge_types = none;
  node_types = none;
  include_start = true;
}

abbrev found : ReachabilityResult
found = record { reachable_nodes = 3 ∷ 2 ∷ 1 ∷ []; incoming_edges = 11 ∷ 12 ∷ [] }

-- The search finds the three nodes.
search_runs : find_reachable 1 all_options lineage ≡ ok found
unfolding lineage one_edge three_nodes create_node empty insert create_edge find_reachable loop
    advance list_edges_from edge_passes_filter
search_runs = refl

find_reachable_sound_example :
    (r : ReachabilityResult) × (find_reachable 1 all_options lineage ≡ ok r)
    × All (λ m. IsReached all_options lineage 1 m × HasEnd lineage m 7 9) r.reachable_nodes
find_reachable_sound_example =
    find_reachable_sound all_options lineage 1 (node_of 1 100 (node_request intent_version))
      (History-IsSound lineage-History) stored_start

walk_to_three : Passing all_options lineage 1 3
unfolding edge_passes_filter
walk_to_three =
    Completeness.along 12 second
      (Completeness.along 11 first Completeness.here stored_first refl refl) stored_second refl refl

find_reachable_complete_example :
    (seen 1 found.reachable_nodes ≡ all_options.include_start)
    × ((seen 3 found.reachable_nodes || (3 == 1 && not all_options.include_start)) ≡ true)
find_reachable_complete_example =
    find_reachable_complete all_options lineage 1 3 found refl refl
      (History-IsSound lineage-History) search_runs walk_to_three

graph_round_trip_example :
    ((node_type_from_string "stale" ≡ ok NodeType.artifact)
      ↔ (node_type_to_string NodeType.artifact ≡ "stale"))
    × ((node_state_from_string "stale" ≡ ok NodeState.stale)
        ↔ (node_state_to_string NodeState.stale ≡ "stale"))
    × ((edge_type_from_string "stale" ≡ ok EdgeType.blocks)
        ↔ (edge_type_to_string EdgeType.blocks ≡ "stale"))
    × ((external_ref_type_from_string "stale" ≡ ok ExternalRefType.intent)
        ↔ (external_ref_type_to_string ExternalRefType.intent ≡ "stale"))
graph_round_trip_example =
    graph_round_trip "stale" NodeType.artifact NodeState.stale EdgeType.blocks
      ExternalRefType.intent
