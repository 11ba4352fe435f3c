-- ===== src/Graph/Classification/Examples.antt =====
-- Concrete inputs: an artefact that depends on an intent version and triggers the work of an approval,
-- and the theorems at them.
use intent_rebase.Base.{
  ℕ, ◌≤◌, none, some, List, [], ◌∷◌, map, All, count, get, insert, arith, ◌≡◌, refl, ok, Result,
}
use intent_rebase.Graph.Types.{
  GraphNode, ClassifyRequest, intent_version, artifact, approval, depends_on, triggers,
}
use intent_rebase.Graph.Store.{
  GraphState, empty, create_node, create_edge, node_of, edge_of, list_edges_to, list_edges_from,
}
use intent_rebase.Graph.Store.History.{History, start, adds_node, adds_edge, History-IsSound}
use intent_rebase.Graph.Examples.{node_request, edge_request}
use intent_rebase.Graph.Store.Integrity.{IsSound}
use intent_rebase.Graph.Classification.Defs.{
  ClassificationResult, config_of, max_depth_of, targets_of, propagated, take_turn, classify_loop,
  work, classify_impact,
}
use intent_rebase.Graph.Classification.Affects.{IsAffected, Affects, directly, further, downstream}
use intent_rebase.Engine.Plan.Types.{direct, transitive}
use intent_rebase.Graph.Classification.Completeness.{classify_impact_complete}
use intent_rebase.Graph.Classification.Soundness.{classify_impact_sound}

abbrev version_nodes : GraphState
unfolding create_node empty insert
version_nodes =
    (create_node 3 102 (node_request approval)
      (create_node 2 101 (node_request artifact)
        (create_node 1 100 (node_request intent_version) empty).1).1).1

abbrev pub dependents : GraphState
unfolding version_nodes create_edge
dependents =
    (create_edge 12 104 (edge_request 2 3 triggers)
      (create_edge 11 103 (edge_request 2 1 depends_on) version_nodes).1).1

pub dependents-History : History dependents
unfolding dependents version_nodes create_node empty insert create_edge
dependents-History =
    adds_edge 12 104 (edge_request 2 3 triggers)
      (adds_edge 11 103 (edge_request 2 1 depends_on)
        (adds_node 3 102 (node_request approval)
          (adds_node 2 101 (node_request artifact)
            (adds_node 1 100 (node_request intent_version) start refl) refl)
          refl)
        refl)
      refl

dependents-IsSound : IsSound dependents
dependents-IsSound = History-IsSound dependents-History

abbrev version_request : ClassifyRequest
version_request = record {
  start_node_id = 1;
  max_depth = none;
  target_node_types = none;
  propagation_config = none;
}

abbrev version_node : GraphNode
version_node = node_of 1 100 (node_request intent_version)

version_stored : get 1 dependents.nodes ≡ some version_node
unfolding dependents version_nodes create_node empty insert create_edge
version_stored = refl

abbrev classified_ids : Result ClassificationResult → List ℕ
classified_ids (ok r) = map (λ c. c.node.id) r.classified_nodes
classified_ids _ = []

both_classified : classified_ids (classify_impact version_request dependents) ≡ 2 ∷ 3 ∷ []
unfolding classify_impact classify_loop take_turn propagated work dependents version_nodes
    create_node empty insert create_edge list_edges_to list_edges_from
both_classified = refl

classify_impact_sound_example :
    (r : ClassificationResult) × (classify_impact version_request dependents ≡ ok r)
    × (r.max_depth ≡ max_depth_of version_request)
    × All
        (IsAffected
          (config_of version_request)
          (max_depth_of version_request)
          (targets_of version_request)
          dependents
          1)
        r.classified_nodes
    × ((k : ℕ) → count k (map (λ r. r.node.id) r.classified_nodes) ≤ 1)
classify_impact_sound_example =
    classify_impact_sound version_request dependents version_node dependents-IsSound version_stored

abbrev both_nodes : ClassificationResult
both_nodes = record {
  classified_nodes =
      record {
        node = node_of 2 101 (node_request artifact);
        impact = direct;
        reason = "directly depends on";
      }
      ∷ record {
        node = node_of 3 102 (node_request approval);
        impact = transitive;
        reason = "downstream via triggered";
      }
      ∷ [];
  start_node_id = 1;
  max_depth = 3;
}

both_returned : classify_impact version_request dependents ≡ ok both_nodes
unfolding classify_impact classify_loop take_turn propagated work dependents version_nodes
    create_node empty insert create_edge list_edges_to list_edges_from
both_returned = refl

first_stored : get 11 dependents.edges ≡ some (edge_of 11 103 (edge_request 2 1 depends_on))
unfolding dependents version_nodes create_node empty insert create_edge
first_stored = refl

second_stored : get 12 dependents.edges ≡ some (edge_of 12 104 (edge_request 2 3 triggers))
unfolding dependents version_nodes create_node empty insert create_edge
second_stored = refl

approval_stored : get 3 dependents.nodes ≡ some (node_of 3 102 (node_request approval))
unfolding dependents version_nodes create_node empty insert create_edge
approval_stored = refl

approval_Affects : Affects (config_of version_request) dependents 1 3 2
approval_Affects =
    further (directly 11 (edge_of 11 103 (edge_request 2 1 depends_on)) first_stored refl refl)
      (downstream 12 (edge_of 12 104 (edge_request 2 3 triggers)) second_stored refl refl)

classify_impact_complete_example : count 3 (map (λ r. r.node.id) both_nodes.classified_nodes) ≡ 1
classify_impact_complete_example =
    classify_impact_complete version_request dependents both_nodes 3 2
      (node_of 3 102 (node_request approval)) dependents-IsSound both_returned approval_Affects
      (omega arith) approval_stored refl
