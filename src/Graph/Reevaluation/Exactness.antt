-- ===== src/Graph/Reevaluation/Exactness.antt =====
-- What the re-evaluation flags.
use intent_rebase.Base.{
  ℕ, ◌+◌, Bool, true, false, not, ◌&&◌, ◌||◌, none, some, List, [], ◌∷◌, map, filter, length,
  length-filter-le, All, values, held, count, ◌==◌, get, ◌≡◌, refl, arith, inl, inr, Bool-cases, ok,
}
use intent_rebase.Graph.Traversal.Fuel.{length-map}
use intent_rebase.Graph.Types.{GraphNode, GraphEdge}
use intent_rebase.Graph.Store.{GraphState, get_node, list_edges}
use intent_rebase.Graph.Store.History.{History, History-IsSound}
use intent_rebase.Graph.Store.Keys.{History-IsKeyed, All-values, count-values}
use intent_rebase.Graph.Reevaluation.Defs.{
  EdgeReevaluationResult, EdgeValidity, is_valid, is_stale, evaluate_edge_validity, flagged,
  incoming_filter, result_of, reevaluate_edges_from_intent_version,
}

-- The node is stored and stale or archived.
abbrev pub is_outdated : GraphState → ℕ → Bool
is_outdated s id = elim (get id s.nodes) [ none ↦ false | some n ↦ is_stale n ]

abbrev pub has_outdated_end : GraphState → GraphEdge → Bool
has_outdated_end s e = is_outdated s e.from_node_id || is_outdated s e.to_node_id

record HasEnds (s : GraphState) (e : GraphEdge) : Type 0 where
  pub source : GraphNode
  pub target : GraphNode
  pub source_found : get e.from_node_id s.nodes ≡ some source
  pub target_found : get e.to_node_id s.nodes ≡ some target

evaluated :
    (s : GraphState) (e : GraphEdge)
    → HasEnds s e
    → (v : EdgeValidity) × (evaluate_edge_validity e s ≡ (ok v, s))
      × (is_valid v ≡ not (has_outdated_end s e))
unfolding evaluate_edge_validity get_node
evaluated s e h = elim (Bool-cases (is_stale h.source)) [
  | inl a ↦ (
    EdgeValidity.source_stale,
    ground (arith, h.source_found, h.target_found, a),
    ground (arith, h.source_found, a),
  )
  | inr a ↦ elim (Bool-cases (is_stale h.target)) [
    | inl b ↦ (
      EdgeValidity.target_stale,
      ground (arith, h.source_found, h.target_found, a, b),
      ground (arith, h.source_found, h.target_found, a, b),
    )
    | inr b ↦ (
      EdgeValidity.valid,
      ground (arith, h.source_found, h.target_found, a, b),
      ground (arith, h.source_found, h.target_found, a, b),
    )
  ]
]

flagged_lem :
    (s : GraphState) (es : List GraphEdge)
    → All (HasEnds s) es
    → flagged es s ≡ (ok (map (λ e. e.id) (filter (has_outdated_end s) es)), s)
unfolding flagged
flagged_lem s [] h = refl
flagged_lem s (e ∷ es) (h, hs) =
    let rest = flagged_lem s es hs in
    let (v, done, same) = evaluated s e h in
    elim (Bool-cases (has_outdated_end s e)) [
      | inl outdated ↦
          let is : is_valid v ≡ false = ground (arith, same, outdated) in
          ground (arith, done, rest, is, outdated)
      | inr current ↦
          let is : is_valid v ≡ true = ground (arith, same, current) in
          ground (arith, done, rest, is, current)
    ]

filter-filter :
    {A : Type 0} (p q : A → Bool) (xs : List A)
    → filter p (filter q xs) ≡ filter (λ x. q x && p x) xs
filter-filter p q [] = refl
filter-filter p q (x ∷ xs) = ground (arith, filter-filter p q xs)

All_kept :
    {A : Type 0} (P : A → Type 0) (p : A → Bool) (xs : List A) → All P xs → All P (filter p xs)
All_kept P p [] h = tt
All_kept P p (x ∷ xs) (a, h) =
    let rest = All_kept P p xs h in
    elim (Bool-cases (p x)) [
      | inl is ↦ rw (is, filter) (a, rest)
      | inr other ↦ rw (other, filter) rest
    ]

listed :
    (n t : ℕ) (s : GraphState)
    → list_edges (incoming_filter n t) s
      ≡ filter (λ e. e.to_node_id == n) (filter (λ e. e.tenant_id == t) (values s.edges))
unfolding list_edges
listed n t s = refl

reevaluated :
    (n t : ℕ) (s : GraphState) (es : List GraphEdge) (ids : List ℕ)
    → list_edges (incoming_filter n t) s ≡ es
    → flagged es s ≡ (ok ids, s)
    → reevaluate_edges_from_intent_version n t s ≡ (ok (result_of es ids), s)
unfolding reevaluate_edges_from_intent_version
reevaluated n t s es ids e f = rw e (ground (arith, f))

-- After every history of the store, a re-evaluation ends, returns a result and leaves the store. The
-- examined edges are the valid and the flagged ones. An edge is flagged, and once, exactly if it is a
-- stored edge of the tenant into the node, and one of its ends is stale or archived.
pub reevaluate_edges_exact :
    {s : GraphState} (n t : ℕ)
    → History s
    → (r : EdgeReevaluationResult) × (reevaluate_edges_from_intent_version n t s ≡ (ok r, s))
      × (r.edges_examined ≡ r.valid_edges + r.flagged_edges)
      × (r.flagged_edges ≡ length r.flagged_edge_ids)
      × ((k : ℕ)
          → count k r.flagged_edge_ids
            ≡ held
                (λ e. e.tenant_id == t && (e.to_node_id == n && has_outdated_end s e))
                (get k s.edges))
reevaluate_edges_exact {s} n t past =
    let h = History-IsSound past in
    let keyed = History-IsKeyed past in
    let of_tenant : GraphEdge → Bool = λ e. e.tenant_id == t in
    let into : GraphEdge → Bool = λ e. e.to_node_id == n in
    let edges = filter into (filter of_tenant (values s.edges)) in
    let ends =
      All-values (HasEnds s) s.edges
        (λ k e f.
          let from = h.from_ends k e f in
          let to = h.to_ends k e f in
          record {
            source = from.node;
            target = to.node;
            source_found = from.found;
            target_found = to.found;
          })
        keyed.edges in
    let out = filter (has_outdated_end s) edges in
    let done =
      flagged_lem s edges (All_kept _ into _ (All_kept _ of_tenant (values s.edges) ends)) in
    let fewer = length-filter-le (has_outdated_end s) edges in
    (
      result_of edges (map (λ e. e.id) out),
      reevaluated n t s edges (map (λ e. e.id) out) (listed n t s) done,
      omega (arith, fewer, length-map (λ (e : GraphEdge). e.id) out),
      refl,
      λ k.
          rw
            (
              filter-filter (has_outdated_end s) into (filter of_tenant (values s.edges)),
              filter-filter (λ e. into e && has_outdated_end s e) of_tenant (values s.edges),
            )
            (count-values (λ e. e.id) _ s.edges k h.edge_keys keyed.edges),
    )
