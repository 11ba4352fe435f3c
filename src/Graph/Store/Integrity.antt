-- ===== src/Graph/Store/Integrity.antt =====
-- The integrity of the store: every edge joins two nodes of its tenant and workflow, and the two
-- indexes agree with the edges.
use intent_rebase.Base.{
  ℕ, none, some, ◌≡◌, inl, inr, refl, arith, ◌==◌, get, insert, get-insert, held, count,
  Option-cases, Bool-cases,
}
use intent_rebase.Graph.Types.{GraphNode, GraphEdge, NodeState, CreateGraphNodeRequest}
use intent_rebase.Graph.Store.Defs.{GraphState, empty, create_node, node_of, update_node_state}

-- A node of the tenant and the workflow is stored under the identifier.
pub record HasEnd (s : GraphState) (id tenant_id workflow_id : ℕ) : Type 0 where
  pub node : GraphNode
  pub found : get id s.nodes ≡ some node
  pub tenant : node.tenant_id ≡ tenant_id
  pub workflow : node.workflow_id ≡ workflow_id

pub record IsSound (s : GraphState) : Type 0 where
  pub node_keys : (k : ℕ) (n : GraphNode) → get k s.nodes ≡ some n → n.id ≡ k
  pub edge_keys : (k : ℕ) (e : GraphEdge) → get k s.edges ≡ some e → e.id ≡ k
  pub from_ends :
      (k : ℕ) (e : GraphEdge)
      → get k s.edges ≡ some e
      → HasEnd s e.from_node_id e.tenant_id e.workflow_id
  pub to_ends :
      (k : ℕ) (e : GraphEdge)
      → get k s.edges ≡ some e
      → HasEnd s e.to_node_id e.tenant_id e.workflow_id
  pub froms :
      (n k : ℕ) → count k (s.edges_by_from n) ≡ held (λ e. e.from_node_id == n) (get k s.edges)
  pub tos : (n k : ℕ) → count k (s.edges_by_to n) ≡ held (λ e. e.to_node_id == n) (get k s.edges)

pub empty-IsSound : IsSound empty
unfolding empty
empty-IsSound = record {
  node_keys = λ k n e. cc;
  edge_keys = λ k x e. cc;
  from_ends = λ k x e. absurd (ground arith);
  to_ends = λ k x e. absurd (ground arith);
  froms = λ n k. refl;
  tos = λ n k. refl;
}

-- An end of an edge stays when a node is written that keeps the tenant and the workflow of the node
-- before it.
HasEnd-insert :
    {s t : GraphState} {id tenant_id workflow_id : ℕ} (k : ℕ) (n : GraphNode)
    → t.nodes ≡ insert k n s.nodes
    → ((m : GraphNode)
        → get k s.nodes ≡ some m
        → (n.tenant_id ≡ m.tenant_id) × (n.workflow_id ≡ m.workflow_id))
    → HasEnd s id tenant_id workflow_id
    → HasEnd t id tenant_id workflow_id
HasEnd-insert {s} {t} {id} k n e same h = elim (Bool-cases (id == k)) [
  | inl is ↦
      let (p, q) = same h.node (ground (arith, h.found)) in
      record {
        node = n;
        found = rw e (ground (arith, get-insert id k n s.nodes));
        tenant = ground (arith, h.tenant, p);
        workflow = ground (arith, h.workflow, q);
      }
  | inr other ↦ record {
    node = h.node;
    found = rw e (ground (arith, get-insert id k n s.nodes, h.found));
    tenant = h.tenant;
    workflow = h.workflow;
  }
]

pub create_node-IsSound :
    (id now : ℕ) (q : CreateGraphNodeRequest) (s : GraphState)
    → get id s.nodes ≡ none
    → IsSound s
    → IsSound (create_node id now q s).1
unfolding create_node
create_node-IsSound id now q s fresh h =
    let n = node_of id now q in
    record {
      node_keys = λ k m e. ground (arith, get-insert k id n s.nodes, h.node_keys k m);
      edge_keys = h.edge_keys;
      from_ends =
          λ k x e. HasEnd-insert id n refl (λ m f. absurd (ground arith)) (h.from_ends k x e);
      to_ends = λ k x e. HasEnd-insert id n refl (λ m f. absurd (ground arith)) (h.to_ends k x e);
      froms = h.froms;
      tos = h.tos;
    }

pub update_node_state-IsSound :
    (id : ℕ) (p : NodeState) (s : GraphState) → IsSound s → IsSound (update_node_state id p s).1
unfolding update_node_state
update_node_state-IsSound id p s h = elim (Option-cases (get id s.nodes)) [
  | inl e ↦ rw (e, update_node_state) h
  | inr (n, e) ↦
      let m = record n { state = p } in
      rw (e, update_node_state)
        (record {
          node_keys = λ k o f.
              ground (arith, get-insert k id m s.nodes, h.node_keys k o, h.node_keys id n e);
          edge_keys = h.edge_keys;
          from_ends = λ k x f. HasEnd-insert id m refl (λ o g. ground arith) (h.from_ends k x f);
          to_ends = λ k x f. HasEnd-insert id m refl (λ o g. ground arith) (h.to_ends k x f);
          froms = h.froms;
          tos = h.tos;
        })
]
