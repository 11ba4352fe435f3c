-- ===== src/Graph/Reevaluation/Examples.antt =====
-- Concrete inputs: an intent version that became stale, with an artefact that depends on it, and the
-- theorem at them.
use intent_rebase.Base.{ℕ, ◌+◌, ◌&&◌, length, held, count, ◌==◌, get, ◌≡◌, ok}
use intent_rebase.Graph.Types.{stale}
use intent_rebase.Graph.Store.{GraphState, update_node_state}
use intent_rebase.Graph.Store.History.{History, sets_state}
use intent_rebase.Graph.Classification.Examples.{dependents, dependents-History}
use intent_rebase.Graph.Reevaluation.Defs.{
  EdgeReevaluationResult, reevaluate_edges_from_intent_version,
}
use intent_rebase.Graph.Reevaluation.Exactness.{has_outdated_end, reevaluate_edges_exact}

abbrev outdated : GraphState
outdated = (update_node_state 1 stale dependents).1

outdated-History : History outdated
outdated-History = sets_state 1 stale dependents-History

reevaluate_edges_exact_example :
    (r : EdgeReevaluationResult) × (reevaluate_edges_from_intent_version 1 7 outdated
      ≡ (ok r, outdated))
    × (r.edges_examined ≡ r.valid_edges + r.flagged_edges)
    × (r.flagged_edges ≡ length r.flagged_edge_ids)
    × ((k : ℕ)
        → count k r.flagged_edge_ids
          ≡ held
              (λ e. e.tenant_id == 7 && (e.to_node_id == 1 && has_outdated_end outdated e))
              (get k outdated.edges))
reevaluate_edges_exact_example = reevaluate_edges_exact 1 7 outdated-History
