-- ===== src/Graph/Store/Edges.antt =====
-- The calls on edges keep the integrity of the store.
use intent_rebase.Base.{
  ℕ, none, some, [], ◌∷◌, ◌≡◌, subst, ◌⊎◌, inl, inr, refl, arith, ◌==◌, get, get-insert, get-remove,
  count-append, count-retain_ne, Option-cases, Bool-cases, ok, err, Error, Message, lit,
  graph_node_not_found,
}
use intent_rebase.Graph.Types.{GraphEdge, CreateGraphEdgeRequest}
use intent_rebase.Graph.Store.Defs.{
  GraphState, get_node, create_edge, edge_of, with_edge, delete_edge, verify_node, mismatch,
}
use intent_rebase.Graph.Store.Integrity.{HasEnd, IsSound}

-- A checked end of an edge: the check leaves the state and finds the end, or it fails.
verify_node-HasEnd :
    (end : Message) (id t w : ℕ) (s : GraphState)
    → ((e : Error) × (verify_node end id t w s ≡ (err e, s)))
      ⊎ ((verify_node end id t w s ≡ (ok tt, s)) × HasEnd s id t w)
unfolding get_node
verify_node-HasEnd end id t w s = elim (Option-cases (get id s.nodes)) [
  | inl e ↦ inl (graph_node_not_found id, ground arith)
  | inr (n, e) ↦ elim (Bool-cases (n.tenant_id == t)) [
    | inr other ↦ inl (
      mismatch end id (lit " belongs to tenant " ∷ []) n.tenant_id
          (lit " but edge has tenant " ∷ []) t,
      ground arith,
    )
    | inl same ↦ elim (Bool-cases (n.workflow_id == w)) [
      | inr other ↦ inl (
        mismatch end id (lit " belongs to workflow " ∷ []) n.workflow_id
            (lit " but edge has workflow " ∷ []) w,
        ground arith,
      )
      | inl is ↦ inr (
        ground arith,
        record { node = n; found = e; tenant = ground arith; workflow = ground arith },
      )
    ]
  ]
]

pub create_edge_cases :
    (id now : ℕ) (q : CreateGraphEdgeRequest) (s : GraphState)
    → ((e : Error) × (create_edge id now q s ≡ (err e, s)))
      ⊎ ((create_edge id now q s ≡ (ok (edge_of id now q), with_edge (edge_of id now q) s))
          × HasEnd s q.from_node_id q.tenant_id q.workflow_id
          × HasEnd s q.to_node_id q.tenant_id q.workflow_id)
unfolding create_edge
create_edge_cases id now q s =
    elim (verify_node-HasEnd (lit "from_node " ∷ []) q.from_node_id q.tenant_id q.workflow_id s) [
      | inl (e, f) ↦ inl (e, ground (arith, f))
      | inr (f, from) ↦
          elim (verify_node-HasEnd (lit "to_node " ∷ []) q.to_node_id q.tenant_id q.workflow_id s) [
            | inl (e, g) ↦ inl (e, ground (arith, f, g))
            | inr (g, to) ↦ inr (ground (arith, f, g), from, to)
          ]
    ]

HasEnd-nodes :
    {s t : GraphState} {id tenant_id workflow_id : ℕ}
    → t.nodes ≡ s.nodes
    → HasEnd s id tenant_id workflow_id
    → HasEnd t id tenant_id workflow_id
HasEnd-nodes e h = record {
  node = h.node;
  found = rw e h.found;
  tenant = h.tenant;
  workflow = h.workflow;
}

-- One of the two ends, for every edge after the edge `x` is stored.
with_edge-HasEnd :
    (end : GraphEdge → ℕ) (x : GraphEdge) (s : GraphState)
    → HasEnd s (end x) x.tenant_id x.workflow_id
    → ((k : ℕ) (e : GraphEdge)
        → get k s.edges ≡ some e
        → HasEnd s (end e) e.tenant_id e.workflow_id)
    → (k : ℕ) (y : GraphEdge) → get k (with_edge x s).edges ≡ some y
    → HasEnd (with_edge x s) (end y) y.tenant_id y.workflow_id
with_edge-HasEnd end x s new old k y e = elim (Bool-cases (k == x.id)) [
  | inl is ↦
      subst (λ z. HasEnd (with_edge x s) (end z) z.tenant_id z.workflow_id)
        (ground (arith, get-insert k x.id x s.edges)) (HasEnd-nodes refl new)
  | inr other ↦ HasEnd-nodes refl (old k y (ground (arith, get-insert k x.id x s.edges)))
]

with_edge-IsSound :
    (x : GraphEdge) (s : GraphState)
    → get x.id s.edges ≡ none
    → HasEnd s x.from_node_id x.tenant_id x.workflow_id
    → HasEnd s x.to_node_id x.tenant_id x.workflow_id
    → IsSound s
    → IsSound (with_edge x s)
with_edge-IsSound x s fresh from to h = record {
  node_keys = h.node_keys;
  edge_keys = λ k y e. ground (arith, get-insert k x.id x s.edges, h.edge_keys k y);
  from_ends = with_edge-HasEnd (λ y. y.from_node_id) x s from h.from_ends;
  to_ends = with_edge-HasEnd (λ y. y.to_node_id) x s to h.to_ends;
  froms = λ n k. ground (
    arith,
    get-insert k x.id x s.edges,
    count-append k (s.edges_by_from n) (x.id ∷ []),
    h.froms n k,
  );
  tos = λ n k.
      ground (
        arith,
        get-insert k x.id x s.edges,
        count-append k (s.edges_by_to n) (x.id ∷ []),
        h.tos n k,
      );
}

pub create_edge-IsSound :
    (id now : ℕ) (q : CreateGraphEdgeRequest) (s : GraphState)
    → get id s.edges ≡ none
    → IsSound s
    → IsSound (create_edge id now q s).1
create_edge-IsSound id now q s fresh h = elim (create_edge_cases id now q s) [
  | inl (e, f) ↦ rw f h
  | inr (f, from, to) ↦ rw f (with_edge-IsSound (edge_of id now q) s fresh from to h)
]

pub delete_edge-IsSound : (id : ℕ) (s : GraphState) → IsSound s → IsSound (delete_edge id s).1
unfolding delete_edge
delete_edge-IsSound id s h = elim (Option-cases (get id s.edges)) [
  | inl e ↦ rw (e, delete_edge) h
  | inr (x, e) ↦
      rw (e, delete_edge)
        (record {
          node_keys = h.node_keys;
          edge_keys = λ k y f. ground (arith, get-remove k id s.edges, h.edge_keys k y);
          from_ends = λ k y f.
              HasEnd-nodes refl (h.from_ends k y (ground (arith, get-remove k id s.edges)));
          to_ends =
              λ k y f. HasEnd-nodes refl (h.to_ends k y (ground (arith, get-remove k id s.edges)));
          froms = λ n k. ground (
            arith,
            get-remove k id s.edges,
            count-retain_ne k id (s.edges_by_from n),
            h.froms n k,
          );
          tos = λ n k.
              ground
                (arith, get-remove k id s.edges, count-retain_ne k id (s.edges_by_to n), h.tos n k);
        })
]
