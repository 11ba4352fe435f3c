-- ===== src/Orchestrator/Updates.antt =====
-- What the batches of updates of node states leave in the graph (graph_updater.rs).
use intent_rebase.Base.{
  ℕ, Bool, false, Option, none, some, List, [], ◌∷◌, map, filter, any, ◌==◌, ==_refl, if◌then◌else◌,
  get, Message, String, ◌≡◌, refl, ap, sym, subst, ◌∙◌, arith, inl, inr, Bool-cases, Option-cases,
}
use intent_rebase.Graph.Types.{GraphNode, NodeState, stale, node_state_eq}
use intent_rebase.Graph.Store.{GraphState, get_node, update_node_state}
use intent_rebase.Graph.Store.History.{History, sets_state}
use intent_rebase.Orchestrator.Updater.{
  update_node_state_if_affected, update_each, invalidate_artifacts, invalidation_reason,
}
use intent_rebase.Orchestrator.Settling.{
  settled, settled_idem, written, writes, store_missing, store_found, one_node,
}

abbrev pub listed : ℕ → List ℕ → Bool
listed k ids = any (λ id. id == k) ids

settle_listed :
    (k id : ℕ) (ids : List ℕ) (new : NodeState) (o : Option GraphNode)
    → (if listed k ids
        then settled new (if id == k then settled new o else o)
        else (if id == k then settled new o else o))
      ≡ (if listed k (id ∷ ids) then settled new o else o)
settle_listed k id ids new o = elim (Bool-cases (id == k)) [
  | inr other ↦ rw other refl
  | inl is ↦ elim (Bool-cases (listed k ids)) [
    | inl again ↦ rw (is, again) (settled_idem new o)
    | inr last ↦ rw (is, last) refl
  ]
]

-- After a batch the listed nodes are settled, and every other node is as it was.
update_each_exact :
    (ids : List ℕ) (new : NodeState) (reason : Message) (s : GraphState) (k : ℕ)
    → get k (update_each ids new reason s).1.nodes
      ≡ (if listed k ids then settled new (get k s.nodes) else get k s.nodes)
unfolding update_each
update_each_exact [] new reason s k = refl
update_each_exact (id ∷ ids) new reason s k =
    let t = (update_node_state_if_affected id new reason s).1 in
    update_each_exact ids new reason t k
    ∙ ap (λ o. if listed k ids then settled new o else o) (one_node id new reason s k)
    ∙ settle_listed k id ids new (get k s.nodes)

update_written :
    (id : ℕ) (new : NodeState) (s : GraphState) (n : GraphNode)
    → get id s.nodes ≡ some n
    → (update_node_state id new s).1 ≡ written id new n s
unfolding update_node_state
update_written id new s n h = ground arith

one-History :
    (id : ℕ) (new : NodeState) (reason : Message) (s : GraphState)
    → History s
    → History (update_node_state_if_affected id new reason s).1
one-History id new reason s h = elim (Option-cases (get id s.nodes)) [
  | inl missing ↦ rw (store_missing id new reason s missing) h
  | inr (n, found) ↦
      let set : History (written id new n s) =
        subst History (update_written id new s n found) (sets_state id new h) in
      elim (Bool-cases (writes new n)) [
        | inl does ↦ rw (store_found id new reason s n found, does) set
        | inr not_done ↦ rw (store_found id new reason s n found, not_done) h
      ]
]

update_each-History :
    (ids : List ℕ) (new : NodeState) (reason : Message) (s : GraphState)
    → History s
    → History (update_each ids new reason s).1
unfolding update_each
update_each-History [] new reason s h = h
update_each-History (id ∷ ids) new reason s h =
    update_each-History ids new reason (update_node_state_if_affected id new reason s).1
      (one-History id new reason s h)

-- The signals write the same states as the batch.
invalidate_artifacts_states :
    (ids : List ℕ) (intent from to : ℕ) (by : String) (now : ℕ) (s : GraphState)
    → (invalidate_artifacts ids intent from to by now s).1
      ≡ (update_each ids stale (invalidation_reason intent from to) s).1
unfolding invalidate_artifacts update_each
invalidate_artifacts_states [] intent from to by now s = refl
invalidate_artifacts_states (id ∷ ids) intent from to by now s =
    invalidate_artifacts_states ids intent from to by now
      (update_node_state_if_affected id stale (invalidation_reason intent from to) s).1

abbrev pub is_stale : Option GraphNode → Bool
is_stale none = false
is_stale (some n) = node_state_eq n.state stale

success_iff :
    (id : ℕ) (reason : Message) (s : GraphState)
    → (update_node_state_if_affected id stale reason s).0.success
      ≡ is_stale (settled stale (get id s.nodes))
unfolding update_node_state_if_affected get_node update_node_state
success_iff id reason s = elim (Option-cases (get id s.nodes)) [
  | inl missing ↦ ground arith
  | inr (n, found) ↦ ground arith
]

first_settled :
    (id : ℕ) (ids : List ℕ) (intent from to : ℕ) (by : String) (now : ℕ) (s : GraphState)
    → get id (invalidate_artifacts (id ∷ ids) intent from to by now s).1.nodes
      ≡ settled stale (get id s.nodes)
first_settled id ids intent from to by now s =
    ap (λ t. get id t.nodes) (invalidate_artifacts_states (id ∷ ids) intent from to by now s)
    ∙ update_each_exact (id ∷ ids) stale (invalidation_reason intent from to) s id
    ∙ rw (==_refl id) refl

-- The signals are for the listed nodes that are stale afterwards.
invalidate_artifacts_exact :
    (ids : List ℕ) (intent from to : ℕ) (by : String) (now : ℕ) (s : GraphState)
    → let (signals, t) = invalidate_artifacts ids intent from to by now s in
      map (λ x. x.node_id) signals ≡ filter (λ id. is_stale (get id t.nodes)) ids
unfolding invalidate_artifacts
invalidate_artifacts_exact [] intent from to by now s = refl
invalidate_artifacts_exact (id ∷ ids) intent from to by now s =
    let reason = invalidation_reason intent from to in
    let u = (update_node_state_if_affected id stale reason s).1 in
    let rest = invalidate_artifacts_exact ids intent from to by now u in
    let same =
      ap is_stale (first_settled id ids intent from to by now s) ∙ sym (success_iff id reason s) in
    elim (Bool-cases (update_node_state_if_affected id stale reason s).0.success) [
      | inl done ↦ rw (same, done) (ap (λ xs. id ∷ xs) rest)
      | inr failed ↦ rw (same, failed) rest
    ]

-- After a batch of updates every listed node that is stored has the new state where the transition
-- from its state is valid, and every other node is as it was; nothing else of a node changes, no
-- node appears or disappears, a repeated identifier changes nothing more, and the store stays one
-- that a history of operations makes. An artifact invalidation is the batch that makes nodes stale,
-- and it signals just the listed nodes that are stale afterwards, in order.
pub graph_updates_exact :
    (ids : List ℕ) (new : NodeState) (reason : Message) (intent from to : ℕ) (by : String) (now : ℕ)
    (s : GraphState) (k : ℕ)
    → History s
    → let t = (update_each ids new reason s).1 in
      let (signals, u) = invalidate_artifacts ids intent from to by now s in
      (get k t.nodes ≡ (if listed k ids then settled new (get k s.nodes) else get k s.nodes))
      × History t
      × (u ≡ (update_each ids stale (invalidation_reason intent from to) s).1)
      × (map (λ x. x.node_id) signals ≡ filter (λ id. is_stale (get id u.nodes)) ids)
graph_updates_exact ids new reason intent from to by now s k h = (
  update_each_exact ids new reason s k,
  update_each-History ids new reason s h,
  invalidate_artifacts_states ids intent from to by now s,
  invalidate_artifacts_exact ids intent from to by now s,
)
