-- ===== src/Graph/Store/Isolation.antt =====
-- What the listings by an end return, and that edges never leave a tenant and a workflow.
use intent_rebase.Base.{
  ℕ, suc, some, map, ◌≡◌, arith, ◌==◌, get, held, count, count-fetched, All-fetched, All,
}
use intent_rebase.Graph.Types.{GraphEdge}
use intent_rebase.Graph.Store.Defs.{GraphState, list_edges_from, list_edges_to}
use intent_rebase.Graph.Store.Integrity.{HasEnd, IsSound}

module _ (s : GraphState) (h : IsSound s) where
  -- The listing of the edges out of a node returns every stored edge that starts at the node, once,
  -- and no other edge; and every edge of the listing ends at a stored node of its tenant and workflow.
  pub list_edges_from_exact :
      (n : ℕ)
      → ((k : ℕ)
          → count k (map (λ e. e.id) (list_edges_from n s))
            ≡ held (λ e. e.from_node_id == n) (get k s.edges))
        × All
            (λ e.
              (get e.id s.edges ≡ some e)
              × (e.from_node_id ≡ n)
              × HasEnd s e.to_node_id e.tenant_id e.workflow_id)
            (list_edges_from n s)
  unfolding list_edges_from
  list_edges_from_exact n = (
    λ k.
        ground
          (arith, count-fetched (λ e. e.id) s.edges h.edge_keys k (s.edges_by_from n), h.froms n k),
    All-fetched (λ e. e.id) s.edges h.edge_keys _ (s.edges_by_from n)
        (λ k e p f.
          (ground (arith, h.edge_keys k e), ground (arith, h.froms n k), h.to_ends k e f)),
  )

  -- The listing of the edges into a node, likewise.
  pub list_edges_to_exact :
      (n : ℕ)
      → ((k : ℕ)
          → count k (map (λ e. e.id) (list_edges_to n s))
            ≡ held (λ e. e.to_node_id == n) (get k s.edges))
        × All
            (λ e.
              (get e.id s.edges ≡ some e)
              × (e.to_node_id ≡ n)
              × HasEnd s e.from_node_id e.tenant_id e.workflow_id)
            (list_edges_to n s)
  unfolding list_edges_to
  list_edges_to_exact n = (
    λ k.
        ground
          (arith, count-fetched (λ e. e.id) s.edges h.edge_keys k (s.edges_by_to n), h.tos n k),
    All-fetched (λ e. e.id) s.edges h.edge_keys _ (s.edges_by_to n)
        (λ k e p f.
          (ground (arith, h.edge_keys k e), ground (arith, h.tos n k), h.from_ends k e f)),
  )

-- A walk along stored edges, with the number of its hops.
pub data Walk (s : GraphState) (a : ℕ) : ℕ → ℕ → Type 0 where
  here : Walk s a a 0
  along :
      {b n : ℕ} (k : ℕ) (e : GraphEdge)
      → Walk s a b n
      → get k s.edges ≡ some e
      → e.from_node_id ≡ b
      → Walk s a e.to_node_id (suc n)

-- A walk from a node of a tenant and a workflow ends at a node of that tenant and workflow.
pub Walk-HasEnd :
    {s : GraphState} {a b n t w : ℕ} → IsSound s → Walk s a b n → HasEnd s a t w → HasEnd s b t w
Walk-HasEnd h here start = start
Walk-HasEnd {s} {t = t} {w} h (along k e walk f p) start =
    let mid = Walk-HasEnd h walk start in
    let from = h.from_ends k e f in
    let to = h.to_ends k e f in
    record {
      node = to.node;
      found = to.found;
      tenant = ground (arith, mid.found, mid.tenant, from.found, from.tenant, to.tenant);
      workflow = ground (arith, mid.found, mid.workflow, from.found, from.workflow, to.workflow);
    }
