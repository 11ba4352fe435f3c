-- ===== src/Graph/Traversal/Fuel.antt =====
-- The search ends: the fuel that `find_reachable` gives is enough.
use intent_rebase.Base.{
  ℕ, ◌+◌, ◌≤◌, suc, false, not, ◌&&◌, some, List, [], ◌∷◌, map, length, length-append,
  length-filter-le, ◌≡◌, refl, ap, inl, inr, arith, ◌==◌, Map, get, Bool-cases, filter,
}
use intent_rebase.Graph.Types.{GraphNode, TraversalOptions}
use intent_rebase.Graph.Store.{GraphState, list_edges_from}
use intent_rebase.Graph.Traversal.Defs.{
  Entry, entry_of, Search, edge_passes_filter, admitted, expanded, seen, advance, weight, initial,
  fuel_of,
}

weight-le :
    (s : GraphState) (n : ℕ) (visited : List ℕ) (m : Map GraphNode)
    → weight s (n ∷ visited) m ≤ weight s visited m
weight-le s n visited [] = omega arith
weight-le s n visited ((j, x) ∷ m) = ground (arith, weight-le s n visited m)

weight_visit :
    (s : GraphState) (n : ℕ) (visited : List ℕ) (m : Map GraphNode) (x : GraphNode)
    → get n m ≡ some x
    → seen n visited ≡ false
    → weight s (n ∷ visited) m + length (list_edges_from n s) ≤ weight s visited m
weight_visit s n visited [] x e f = absurd (ground arith)
weight_visit s n visited ((j, y) ∷ m) x e f = elim (Bool-cases (j == n)) [
  | inl same ↦ ground (arith, weight-le s n visited m)
  | inr other ↦ ground (arith, weight_visit s n visited m x (ground arith) f)
]

pub length-map : {A B : Type 0} (f : A → B) (xs : List A) → length (map f xs) ≡ length xs
length-map f [] = refl
length-map f (x ∷ xs) = ap suc (length-map f xs)

length-expanded :
    (options : TraversalOptions) (s : GraphState) (q : Entry)
    → length (expanded options s q) ≤ length (list_edges_from q.node_id s)
length-expanded options s q =
    let edges = list_edges_from q.node_id s in
    let passing = filter (edge_passes_filter options) edges in
    ground (
      arith,
      length-map (entry_of (suc q.depth)) passing,
      length-filter-le (edge_passes_filter options) edges,
    )

unfoldable pub potential : GraphState → Search → ℕ
potential s search = length search.queue + weight s search.visited s.nodes

-- A turn of the loop never raises the entries in the queue and the edges still to be followed.
pub advance-potential :
    (options : TraversalOptions) (s : GraphState) (start : ℕ) (q : Entry) (search : Search)
    (n : GraphNode)
    → get q.node_id s.nodes ≡ some n
    → potential s (advance options s start q search) ≤ potential s search
unfolding advance potential
advance-potential options s start q search n e =
    elim (Bool-cases (admitted options s start q && not (seen q.node_id search.visited))) [
      | inl new ↦ ground (
        arith,
        length-append search.queue (expanded options s q),
        length-expanded options s q,
        weight_visit s q.node_id search.visited s.nodes n e,
      )
      | inr old ↦ ground arith
    ]

pub initial-potential :
    (options : TraversalOptions) (s : GraphState) (start : ℕ)
    → potential s (initial options s start) ≤ fuel_of options s start
unfolding potential edge_passes_filter
initial-potential options s start = elim (Bool-cases options.include_start) [
  | inl with ↦ ground (arith, weight-le s start [] s.nodes)
  | inr without ↦ ground arith
]
