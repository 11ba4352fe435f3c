-- ===== src/Graph/Reevaluation/Defs.antt =====
-- `reevaluate_edges_from_intent_version` and `evaluate_edge_validity`. They read the store and leave
-- it as it is.
use intent_rebase.Base.{
  ℕ, ◌-◌, Bool, true, false, ◌||◌, none, some, List, [], ◌∷◌, length, Act, pure, ◌>>=◌, Message,
  lit, int, if◌then◌else◌,
}
use intent_rebase.Graph.Types.{
  GraphNode, GraphEdge, GraphEdgeFilter, stale, archived, node_state_eq,
}
use intent_rebase.Graph.Store.{GraphState, get_node, list_edges}

pub record EdgeReevaluationResult : Type 0 where
  pub edges_examined : ℕ
  pub valid_edges : ℕ
  pub flagged_edges : ℕ
  pub flagged_edge_ids : List ℕ
  pub summary : Message

pub data EdgeValidity : Type 0 where
  valid target_stale source_stale : EdgeValidity

abbrev pub is_valid : EdgeValidity → Bool
is_valid valid = true
is_valid _ = false

abbrev pub is_stale : GraphNode → Bool
is_stale n = node_state_eq n.state stale || node_state_eq n.state archived

unfoldable pub evaluate_edge_validity : GraphEdge → Act GraphState EdgeValidity
evaluate_edge_validity e = do
  source ← get_node e.from_node_id
  target ← get_node e.to_node_id
  pure (if is_stale source then source_stale else if is_stale target then target_stale else valid)

-- The loop over the edges, which an error leaves.
unfoldable pub flagged : List GraphEdge → Act GraphState (List ℕ)
flagged [] = pure []
flagged (e ∷ es) = do
  validity ← evaluate_edge_validity e
  rest ← flagged es
  pure (if is_valid validity then rest else e.id ∷ rest)

abbrev pub incoming_filter : ℕ → ℕ → GraphEdgeFilter
incoming_filter intent_version_node_id tenant_id = record {
  tenant_id = some tenant_id;
  workflow_id = none;
  from_node_id = none;
  to_node_id = some intent_version_node_id;
  edge_type = none;
}

abbrev pub result_of : List GraphEdge → List ℕ → EdgeReevaluationResult
result_of edges ids = record {
  edges_examined = length edges;
  valid_edges = length edges - length ids;
  flagged_edges = length ids;
  flagged_edge_ids = ids;
  summary =
      lit "Examined "
      ∷ int (length edges)
      ∷ lit " edges from intent version: "
      ∷ int (length edges - length ids)
      ∷ lit " valid, "
      ∷ int (length ids)
      ∷ lit " flagged"
      ∷ [];
}

unfoldable pub reevaluate_edges_from_intent_version : ℕ → ℕ → Act GraphState EdgeReevaluationResult
reevaluate_edges_from_intent_version intent_version_node_id tenant_id s =
    let edges = list_edges (incoming_filter intent_version_node_id tenant_id) s in
    (flagged edges >>= λ ids. pure (result_of edges ids)) s
