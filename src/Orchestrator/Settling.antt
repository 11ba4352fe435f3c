-- ===== src/Orchestrator/Settling.antt =====
-- What one update of a node state leaves in the graph (graph_updater.rs).
use intent_rebase.Base.{
  ℕ, Bool, true, false, not, ◌&&◌, Option, none, some, ◌==◌, ==_iff, if◌then◌else◌, get, insert,
  get-insert, Message, ◌≡◌, refl, ap, sym, ◌∙◌, arith, inl, inr, Bool-cases, Option-cases,
}
use intent_rebase.Graph.Types.{GraphNode, NodeState, node_state_eq}
use intent_rebase.Graph.Store.{GraphState, get_node, update_node_state}
use intent_rebase.Orchestrator.Updater.{is_valid_transition, update_node_state_if_affected}

abbrev pub target : NodeState → NodeState → NodeState
target new before = if is_valid_transition before new then new else before

-- A node in the state that an update leaves it in: the new one where the transition is valid.
abbrev pub settled : NodeState → Option GraphNode → Option GraphNode
settled new none = none
settled new (some n) = some (record n { state = target new n.state })

state_sound : (a b : NodeState) → node_state_eq a b ≡ true → a ≡ b
state_sound a b h = ground arith

target_idem : (new before : NodeState) → target new (target new before) ≡ target new before
target_idem new before = ground arith

pub settled_idem :
    (new : NodeState) (o : Option GraphNode) → settled new (settled new o) ≡ settled new o
settled_idem new none = refl
settled_idem new (some n) = ap (λ st. some (record n { state = st })) (target_idem new n.state)

-- An update of a stored node writes it, or it leaves the store as it is.
abbrev pub written : ℕ → NodeState → GraphNode → GraphState → GraphState
written id new n s = record s { nodes = insert id (record n { state = new }) s.nodes }

abbrev pub writes : NodeState → GraphNode → Bool
writes new n = is_valid_transition n.state new && not (node_state_eq n.state new)

target_new : (new : NodeState) (n : GraphNode) → writes new n ≡ true → target new n.state ≡ new
target_new new n h = ground arith

target_same :
    (new : NodeState) (n : GraphNode) → writes new n ≡ false → target new n.state ≡ n.state
target_same new n h = ground (arith, state_sound n.state new)

pub store_missing :
    (id : ℕ) (new : NodeState) (reason : Message) (s : GraphState)
    → get id s.nodes ≡ none
    → (update_node_state_if_affected id new reason s).1 ≡ s
unfolding update_node_state_if_affected get_node update_node_state
store_missing id new reason s h = ground arith

pub store_found :
    (id : ℕ) (new : NodeState) (reason : Message) (s : GraphState) (n : GraphNode)
    → get id s.nodes ≡ some n
    → (update_node_state_if_affected id new reason s).1
      ≡ (if writes new n then written id new n s else s)
unfolding update_node_state_if_affected get_node update_node_state
store_found id new reason s n h = ground arith

-- What the written node is under any key.
written_node :
    (id k : ℕ) (new : NodeState) (s : GraphState) (n : GraphNode)
    → get id s.nodes ≡ some n
    → get k (if writes new n then written id new n s else s).nodes
      ≡ (if id == k then settled new (get k s.nodes) else get k s.nodes)
written_node id k new s n h = elim (Bool-cases (id == k)) [
  | inr other ↦ elim (Bool-cases (writes new n)) [
    | inl does ↦
        rw (does, other) (ground (arith, get-insert k id (record n { state = new }) s.nodes))
    | inr not_done ↦ rw (not_done, other) refl
  ]
  | inl is ↦
      let found : get k s.nodes ≡ some n = ap (λ j. get j s.nodes) (sym ((==_iff id k).0 is)) ∙ h in
      elim (Bool-cases (writes new n)) [
        | inl does ↦
            rw (does, is, found, target_new new n does)
              (ground (arith, get-insert k id (record n { state = new }) s.nodes))
        | inr not_done ↦
            rw (not_done, is, found)
              (ap (λ st. some (record n { state = st })) (sym (target_same new n not_done)))
      ]
]

pub one_node :
    (id : ℕ) (new : NodeState) (reason : Message) (s : GraphState) (k : ℕ)
    → get k (update_node_state_if_affected id new reason s).1.nodes
      ≡ (if id == k then settled new (get k s.nodes) else get k s.nodes)
one_node id new reason s k = elim (Option-cases (get id s.nodes)) [
  | inl missing ↦ rw (store_missing id new reason s missing) (ground (arith, ==_iff id k))
  | inr (n, found) ↦ rw (store_found id new reason s n found) (written_node id k new s n found)
]
