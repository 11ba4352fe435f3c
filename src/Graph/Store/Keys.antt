-- ===== src/Graph/Store/Keys.antt =====
-- The identifiers stand once each in the store, so a listing of its values holds each record once.
use intent_rebase.Base.{
  ℕ, Bool, none, some, [], ◌∷◌, map, filter, ◌≡◌, refl, inl, inr, arith, ◌==◌, Map, get, get-insert,
  get-remove, insert, remove, values, All, held, count, Bool-cases, Option-cases,
}
use intent_rebase.Graph.Types.{NodeState, CreateGraphNodeRequest, CreateGraphEdgeRequest}
use intent_rebase.Graph.Store.Defs.{
  GraphState, empty, create_node, update_node_state, create_edge, delete_edge, node_of, edge_of,
}
use intent_rebase.Graph.Store.Edges.{create_edge_cases}
use intent_rebase.Graph.Store.History.{History, start, adds_node, sets_state, adds_edge, deletes}

module _ {V : Type 0} where
  -- Each key stands before no other entry with it.
  abbrev pub IsOnce : Map V → Type 0
  IsOnce [] = Unit
  IsOnce ((j, v) ∷ m) = (get j m ≡ none) × IsOnce m

  insert-IsOnce : (k : ℕ) (v : V) (m : Map V) → IsOnce m → IsOnce (insert k v m)
  unfolding insert
  insert-IsOnce k v [] h = (refl, tt)
  insert-IsOnce k v ((j, w) ∷ m) (first, h) = elim (Bool-cases (j == k)) [
    | inl same ↦ rw same (ground (arith, first), h)
    | inr other ↦
        let rest = insert-IsOnce k v m h in rw other (ground (arith, get-insert j k v m), rest)
  ]

  remove-IsOnce : (k : ℕ) (m : Map V) → IsOnce m → IsOnce (remove k m)
  unfolding remove
  remove-IsOnce k [] h = tt
  remove-IsOnce k ((j, w) ∷ m) (first, h) =
      let rest = remove-IsOnce k m h in
      elim (Bool-cases (j == k)) [
        | inl same ↦ rw same rest
        | inr other ↦ rw other (ground (arith, get-remove j k m), rest)
      ]

  pub All-values :
      (P : V → Type 0) (m : Map V)
      → ((k : ℕ) (v : V) → get k m ≡ some v → P v)
      → IsOnce m
      → All P (values m)
  All-values P [] g h = tt
  All-values P ((j, v) ∷ m) g (first, h) = (
    g j v (ground arith),
    All-values P m
        (λ k w e. elim (Bool-cases (j == k)) [
          | inl same ↦ absurd (ground arith)
          | inr other ↦ g k w (ground arith)
        ])
        h,
  )

  module _ (key : V → ℕ) where
    uncounted :
        (p : V → Bool) (m : Map V) (k : ℕ)
        → ((j : ℕ) (v : V) → get j m ≡ some v → key v ≡ j)
        → IsOnce m
        → get k m ≡ none
        → count k (map key (filter p (values m))) ≡ 0
    uncounted p [] k keyed h e = refl
    uncounted p ((j, v) ∷ m) k keyed (first, h) e =
        let tail : (i : ℕ) (w : V) → get i m ≡ some w → key w ≡ i =
          λ i w g. keyed i w (ground arith) in
        ground (arith, uncounted p m k tail h (ground arith), keyed j v (ground arith))

    -- A filtered listing of the values holds each stored record that passes once, and nothing else.
    pub count-values :
        (p : V → Bool) (m : Map V) (k : ℕ)
        → ((j : ℕ) (v : V) → get j m ≡ some v → key v ≡ j)
        → IsOnce m
        → count k (map key (filter p (values m))) ≡ held p (get k m)
    count-values p [] k keyed h = refl
    count-values p ((j, v) ∷ m) k keyed (first, h) =
        let tail : (i : ℕ) (w : V) → get i m ≡ some w → key w ≡ i =
          λ i w g. keyed i w (ground arith) in
        let here = keyed j v (ground arith) in
        elim (Bool-cases (j == k)) [
          | inl same ↦ ground (arith, here, uncounted p m k tail h (ground arith))
          | inr other ↦ ground (arith, here, count-values p m k tail h)
        ]

pub record IsKeyed (s : GraphState) : Type 0 where
  pub nodes : IsOnce s.nodes
  pub edges : IsOnce s.edges

create_node-IsKeyed :
    (id now : ℕ) (q : CreateGraphNodeRequest) (s : GraphState)
    → IsKeyed s
    → IsKeyed (create_node id now q s).1
unfolding create_node
create_node-IsKeyed id now q s h = record {
  nodes = insert-IsOnce id (node_of id now q) s.nodes h.nodes;
  edges = h.edges;
}

update_node_state-IsKeyed :
    (id : ℕ) (p : NodeState) (s : GraphState) → IsKeyed s → IsKeyed (update_node_state id p s).1
unfolding update_node_state
update_node_state-IsKeyed id p s h = elim (Option-cases (get id s.nodes)) [
  | inl e ↦ rw (e, update_node_state) h
  | inr (n, e) ↦
      let m = record n { state = p } in
      rw (e, update_node_state)
        (record { nodes = insert-IsOnce id m s.nodes h.nodes; edges = h.edges })
]

create_edge-IsKeyed :
    (id now : ℕ) (q : CreateGraphEdgeRequest) (s : GraphState)
    → IsKeyed s
    → IsKeyed (create_edge id now q s).1
create_edge-IsKeyed id now q s h = elim (create_edge_cases id now q s) [
  | inl (e, same) ↦ rw same h
  | inr (same, from, to) ↦
      rw same
        (record { nodes = h.nodes; edges = insert-IsOnce id (edge_of id now q) s.edges h.edges })
]

delete_edge-IsKeyed : (id : ℕ) (s : GraphState) → IsKeyed s → IsKeyed (delete_edge id s).1
unfolding delete_edge
delete_edge-IsKeyed id s h = elim (Option-cases (get id s.edges)) [
  | inl e ↦ rw (e, delete_edge) h
  | inr (x, e) ↦
      rw (e, delete_edge) (record { nodes = h.nodes; edges = remove-IsOnce id s.edges h.edges })
]

pub History-IsKeyed : {s : GraphState} → History s → IsKeyed s
unfolding empty
History-IsKeyed start = record { nodes = tt; edges = tt }
History-IsKeyed (adds_node {s} id now q h fresh) =
    create_node-IsKeyed id now q s (History-IsKeyed h)
History-IsKeyed (sets_state {s} id p h) = update_node_state-IsKeyed id p s (History-IsKeyed h)
History-IsKeyed (adds_edge {s} id now q h fresh) =
    create_edge-IsKeyed id now q s (History-IsKeyed h)
History-IsKeyed (deletes {s} id h) = delete_edge-IsKeyed id s (History-IsKeyed h)
