-- ===== src/Graph/Store/Defs.antt =====
-- The state of the store and its operations. The generated identifier and the clock are arguments.
use intent_rebase.Base.{
  ℕ, Bool, Option, none, some, List, [], ◌∷◌, ◌++◌, ◌==◌, if◌then◌else◌, filter, Map, get, insert,
  remove, values, fetched, retain_ne, Act, ok, err, or_err, ◌>>=◌, ◌>>◌, require, Error, Message,
  lit, uuid, graph_node_not_found, graph_edge_not_found, graph_integrity_error,
}
use intent_rebase.Graph.Types.{
  GraphNode, GraphEdge, NodeState, active, CreateGraphNodeRequest, CreateGraphEdgeRequest,
  GraphNodeFilter, GraphEdgeFilter, or_empty_object, node_type_eq, node_state_eq, edge_type_eq,
}

pub record GraphState : Type 0 where
  pub nodes : Map GraphNode
  pub edges : Map GraphEdge
  pub edges_by_from : ℕ → List ℕ
  pub edges_by_to : ℕ → List ℕ

unfoldable pub empty : GraphState
empty = record { nodes = []; edges = []; edges_by_from = λ n. []; edges_by_to = λ n. [] }

abbrev pub node_of : ℕ → ℕ → CreateGraphNodeRequest → GraphNode
node_of id now request = record {
  id = id;
  tenant_id = request.tenant_id;
  workflow_id = request.workflow_id;
  node_type = request.node_type;
  external_ref = request.external_ref;
  label = request.label;
  state = active;
  properties = or_empty_object request.properties;
  created_at = now;
}

unfoldable pub create_node : ℕ → ℕ → CreateGraphNodeRequest → Act GraphState GraphNode
create_node id now request s =
    (ok (node_of id now request), record s { nodes = insert id (node_of id now request) s.nodes })

unfoldable pub get_node : ℕ → Act GraphState GraphNode
get_node id s = (or_err (get id s.nodes) (graph_node_not_found id), s)

-- `if let Some(x) = wanted { result.retain(…) }`.
abbrev retain_if : {A B : Type 0} → Option B → (A → B → Bool) → List A → List A
retain_if none test xs = xs
retain_if (some b) test xs = filter (λ a. test a b) xs

unfoldable pub list_nodes : GraphNodeFilter → GraphState → List GraphNode
list_nodes f s =
    retain_if f.state (λ n x. node_state_eq n.state x)
      (retain_if f.node_type (λ n x. node_type_eq n.node_type x)
        (retain_if f.workflow_id (λ n x. n.workflow_id == x)
          (retain_if f.tenant_id (λ n x. n.tenant_id == x) (values s.nodes))))

unfoldable pub update_node_state : ℕ → NodeState → Act GraphState GraphNode
update_node_state id state s = elim (get id s.nodes) [
  | none ↦ (err (graph_node_not_found id), s)
  | some n ↦ let m = record n { state = state } in (ok m, record s { nodes = insert id m s.nodes })
]

-- "{end}_node {} belongs to {scope} {} but edge has {scope} {}".
abbrev pub mismatch : Message → ℕ → Message → ℕ → Message → ℕ → Error
mismatch end node_id belongs have edge_has wanted =
    graph_integrity_error
      (end ++ uuid node_id ∷ belongs ++ uuid have ∷ edge_has ++ uuid wanted ∷ [])

-- The checks of one end of a new edge.
abbrev pub verify_node : Message → ℕ → ℕ → ℕ → Act GraphState (Unit {0})
verify_node end node_id tenant_id workflow_id = do
  n ← get_node node_id
  require (n.tenant_id == tenant_id) (
      mismatch end node_id (lit " belongs to tenant " ∷ []) n.tenant_id
        (lit " but edge has tenant " ∷ []) tenant_id)
  require (n.workflow_id == workflow_id) (
      mismatch end node_id (lit " belongs to workflow " ∷ []) n.workflow_id
        (lit " but edge has workflow " ∷ []) workflow_id)

abbrev pub edge_of : ℕ → ℕ → CreateGraphEdgeRequest → GraphEdge
edge_of id now request = record {
  id = id;
  tenant_id = request.tenant_id;
  workflow_id = request.workflow_id;
  from_node_id = request.from_node_id;
  to_node_id = request.to_node_id;
  edge_type = request.edge_type;
  properties = or_empty_object request.properties;
  created_at = now;
}

-- `entry(k).or_insert_with(Vec::new).push(id)`, and `get_mut(k)` with `retain`.
abbrev pub push : ℕ → ℕ → (ℕ → List ℕ) → ℕ → List ℕ
push k id index j = if j == k then index j ++ id ∷ [] else index j

abbrev pub drop : ℕ → ℕ → (ℕ → List ℕ) → ℕ → List ℕ
drop k id index j = if j == k then retain_ne id (index j) else index j

abbrev pub with_edge : GraphEdge → GraphState → GraphState
with_edge e s = record s {
  edges = insert e.id e s.edges;
  edges_by_from = push e.from_node_id e.id s.edges_by_from;
  edges_by_to = push e.to_node_id e.id s.edges_by_to;
}

unfoldable pub create_edge : ℕ → ℕ → CreateGraphEdgeRequest → Act GraphState GraphEdge
unfolding get_node
create_edge id now request = do
  verify_node (lit "from_node " ∷ []) request.from_node_id request.tenant_id request.workflow_id
  verify_node (lit "to_node " ∷ []) request.to_node_id request.tenant_id request.workflow_id
  λ s. (ok (edge_of id now request), with_edge (edge_of id now request) s)

unfoldable pub get_edge : ℕ → Act GraphState GraphEdge
get_edge id s = (or_err (get id s.edges) (graph_edge_not_found id), s)

unfoldable pub list_edges : GraphEdgeFilter → GraphState → List GraphEdge
list_edges f s =
    retain_if f.edge_type (λ e x. edge_type_eq e.edge_type x)
      (retain_if f.to_node_id (λ e x. e.to_node_id == x)
        (retain_if f.from_node_id (λ e x. e.from_node_id == x)
          (retain_if f.workflow_id (λ e x. e.workflow_id == x)
            (retain_if f.tenant_id (λ e x. e.tenant_id == x) (values s.edges)))))

unfoldable pub list_edges_from : ℕ → GraphState → List GraphEdge
list_edges_from node_id s = fetched s.edges (s.edges_by_from node_id)

unfoldable pub list_edges_to : ℕ → GraphState → List GraphEdge
list_edges_to node_id s = fetched s.edges (s.edges_by_to node_id)

unfoldable pub delete_edge : ℕ → Act GraphState (Unit {0})
delete_edge id s = elim (get id s.edges) [
  | none ↦ (err (graph_edge_not_found id), s)
  | some e ↦ (
    ok tt,
    record s {
      edges = remove id s.edges;
      edges_by_from = drop e.from_node_id id s.edges_by_from;
      edges_by_to = drop e.to_node_id id s.edges_by_to;
    },
  )
]
