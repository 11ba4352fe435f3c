-- ===== src/Graph/Store/History.antt =====
-- The integrity of the store after every history.
use intent_rebase.Base.{ℕ, none, ◌≡◌, get}
use intent_rebase.Graph.Types.{NodeState, CreateGraphNodeRequest, CreateGraphEdgeRequest}
use intent_rebase.Graph.Store.Defs.{
  GraphState, empty, create_node, update_node_state, create_edge, delete_edge,
}
use intent_rebase.Graph.Store.Integrity.{
  IsSound, empty-IsSound, create_node-IsSound, update_node_state-IsSound,
}
use intent_rebase.Graph.Store.Edges.{create_edge-IsSound, delete_edge-IsSound}

-- The histories of the store: its calls in any order, by any callers, that may fail. A created node
-- or edge has a new identifier, as `Uuid::new_v4` gives.
pub data History : GraphState → Type 0 where
  start : History empty
  adds_node :
      {s : GraphState} (id now : ℕ) (q : CreateGraphNodeRequest)
      → History s
      → get id s.nodes ≡ none
      → History (create_node id now q s).1
  sets_state :
      {s : GraphState} (id : ℕ) (p : NodeState) → History s → History (update_node_state id p s).1
  adds_edge :
      {s : GraphState} (id now : ℕ) (q : CreateGraphEdgeRequest)
      → History s
      → get id s.edges ≡ none
      → History (create_edge id now q s).1
  deletes : {s : GraphState} (id : ℕ) → History s → History (delete_edge id s).1

-- After every history each edge joins two stored nodes of its own tenant and workflow, and the two
-- indexes hold each edge once, under its ends.
pub History-IsSound : {s : GraphState} → History s → IsSound s
History-IsSound start = empty-IsSound
History-IsSound (adds_node {s} id now q h fresh) =
    create_node-IsSound id now q s fresh (History-IsSound h)
History-IsSound (sets_state {s} id p h) = update_node_state-IsSound id p s (History-IsSound h)
History-IsSound (adds_edge {s} id now q h fresh) =
    create_edge-IsSound id now q s fresh (History-IsSound h)
History-IsSound (deletes {s} id h) = delete_edge-IsSound id s (History-IsSound h)
