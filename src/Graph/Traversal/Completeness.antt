-- ===== src/Graph/Traversal/Completeness.antt =====
-- What `find_reachable` does not miss, when no depth and no types of nodes are given.
use intent_rebase.Base.{
  some-injective, ℕ, ◌<◌, suc, zero, Bool, true, false, not, ◌&&◌, ◌||◌, none, some, List, [], ◌∷◌,
  ◌++◌, map, filter, any, All, count, ◌≡◌, refl, ap, subst, inl, inr, arith, ◌==◌, get, Map,
  Bool-cases, Option-cases, ok,
}
use intent_rebase.Graph.Types.{GraphEdge, TraversalOptions, ReachabilityResult}
use intent_rebase.Graph.Store.{GraphState, list_edges_from}
use intent_rebase.Graph.Store.Integrity.{IsSound}
use intent_rebase.Graph.Store.Isolation.{list_edges_from_exact}
use intent_rebase.Graph.Traversal.Start.{start_returned}
use intent_rebase.Graph.Traversal.Soundness.{All-map}
use intent_rebase.Graph.Traversal.Defs.{
  Entry, entry_of, Search, edge_passes_filter, successors, admitted, expanded, seen, advance, loop,
  initial, fuel_of, find_reachable,
}

abbrev awaits : ℕ → List Entry → Bool
awaits n queue = any (λ q. q.node_id == n) queue

pub any-append :
    {A : Type 0} (p : A → Bool) (xs ys : List A) → any p (xs ++ ys) ≡ (any p xs || any p ys)
any-append p [] ys = ground arith
any-append p (x ∷ xs) ys = ground (arith, any-append p xs ys)

awaits_passing :
    (options : TraversalOptions) (edges : Map GraphEdge) (e : GraphEdge) (d : ℕ)
    (xs : List GraphEdge)
    → All (λ x. get x.id edges ≡ some x) xs
    → 0 < count e.id (map (λ x. x.id) xs)
    → get e.id edges ≡ some e
    → edge_passes_filter options e ≡ true
    → awaits e.to_node_id (map (entry_of d) (filter (edge_passes_filter options) xs)) ≡ true
awaits_passing options edges e d [] h c f p = absurd (omega (arith, c))
awaits_passing options edges e d (x ∷ xs) (g, h) c f p = elim (Bool-cases (x.id == e.id)) [
  | inl same ↦ ground arith
  | inr other ↦ ground (arith, awaits_passing options edges e d xs h (ground arith) f p)
]

awaits-successors :
    (options : TraversalOptions) (s : GraphState) (b d k : ℕ) (e : GraphEdge)
    → IsSound s
    → get k s.edges ≡ some e
    → e.from_node_id ≡ b
    → edge_passes_filter options e ≡ true
    → awaits e.to_node_id (successors options s b d) ≡ true
awaits-successors options s b d k e h f p passes =
    let (counts, all) = list_edges_from_exact s h b in
    awaits_passing options s.edges e d (list_edges_from b s)
      (All-map _ (λ x. get x.id s.edges ≡ some x) (list_edges_from b s) (λ x g. g.0) all)
      (ground (arith, counts e.id, h.edge_keys k e f)) (ground (arith, h.edge_keys k e f)) passes

-- No depth and no types of nodes are given: only edges are filtered.
record IsUnbounded (options : TraversalOptions) : Type 0 where
  pub max_depth : options.max_depth ≡ none
  pub node_types : options.node_types ≡ none

abbrev known : ℕ → Search → ℕ → Bool
known start x n = seen n x.visited || awaits n x.queue || n == start

-- Every edge out of the start or a visited node leads to a node that is visited, in the queue, or the
-- start.
abbrev IsClosed : TraversalOptions → GraphState → ℕ → Search → Type 0
IsClosed options s start x =
    (b k : ℕ) (e : GraphEdge)
    → (seen b x.visited || b == start) ≡ true
    → get k s.edges ≡ some e
    → e.from_node_id ≡ b
    → edge_passes_filter options e ≡ true
    → known start x e.to_node_id ≡ true

expanded-unbounded :
    (options : TraversalOptions) (s : GraphState) (q : Entry)
    → IsUnbounded options
    → expanded options s q ≡ successors options s q.node_id (suc q.depth)
expanded-unbounded options s q u = ground (arith, u.max_depth)

not-admitted :
    (options : TraversalOptions) (s : GraphState) (start : ℕ) (q : Entry)
    → IsUnbounded options
    → admitted options s start q ≡ false
    → (q.node_id == start) ≡ true
not-admitted options s start q u e = ground (arith, u.max_depth, u.node_types)

-- The two outcomes of a turn.
advance_new :
    (options : TraversalOptions) (s : GraphState) (start : ℕ) (q : Entry) (x : Search)
    → IsUnbounded options
    → (admitted options s start q && not (seen q.node_id x.visited)) ≡ true
    → ((advance options s start q x).visited ≡ q.node_id ∷ x.visited)
      × ((advance options s start q x).queue
          ≡ x.queue ++ successors options s q.node_id (suc q.depth))
unfolding advance
advance_new options s start q x u e =
    rw e (refl, ap (λ z. x.queue ++ z) (expanded-unbounded options s q u))

advance_old :
    (options : TraversalOptions) (s : GraphState) (start : ℕ) (q : Entry) (x : Search)
    → IsUnbounded options
    → (admitted options s start q && not (seen q.node_id x.visited)) ≡ false
    → (advance options s start q x ≡ x) × ((seen q.node_id x.visited || q.node_id == start) ≡ true)
unfolding advance
advance_old options s start q x u e = elim (Bool-cases (admitted options s start q)) [
  | inl is ↦ (rw e refl, ground (arith, e))
  | inr other ↦ (rw e refl, ground (arith, not-admitted options s start q u other))
]

advance-IsClosed :
    (options : TraversalOptions) (s : GraphState) (start : ℕ) (q : Entry) (qs : List Entry)
    (visited incoming : List ℕ)
    → let x : Search = record { queue = q ∷ qs; visited = visited; incoming_edges = incoming } in
      IsUnbounded options
      → IsSound s
      → IsClosed options s start x
      → IsClosed options s start (advance options s start q (record x { queue = qs }))
advance-IsClosed options s start q qs visited incoming u h closed b k e reach f p passes =
    let x : Search = record { queue = qs; visited = visited; incoming_edges = incoming } in
    let joined =
      any-append (λ r. r.node_id == e.to_node_id) qs
        (successors options s q.node_id (suc q.depth)) in
    elim (Bool-cases (admitted options s start q && not (seen q.node_id visited))) [
      | inl new ↦
          let (v, w) = advance_new options s start q x u new in
          elim (Bool-cases (q.node_id == b)) [
            | inl same ↦
                rw (v, w)
                  (ground (
                    arith,
                    joined,
                    awaits-successors options s q.node_id (suc q.depth) k e h f (ground arith)
                        passes,
                  ))
            | inr other ↦
                rw (v, w)
                  (ground (arith, joined, closed b k e (ground (arith, v, reach)) f p passes))
          ]
      | inr old ↦
          let (same, seen_before) = advance_old options s start q x u old in
          rw same
            (ground (arith, seen_before, closed b k e (ground (arith, same, reach)) f p passes))
    ]

-- A search that ended is closed, with nothing in the queue.
loop-IsClosed :
    (options : TraversalOptions) (s : GraphState) (start fuel : ℕ) (queue : List Entry)
    (visited incoming : List ℕ) (y : Search)
    → let x : Search = record { queue = queue; visited = visited; incoming_edges = incoming } in
      IsUnbounded options
      → IsSound s
      → IsClosed options s start x
      → loop options s start fuel x ≡ some y
      → IsClosed options s start y × (y.queue ≡ [])
unfolding loop
loop-IsClosed options s start zero [] visited incoming y u h c e =
    subst (λ z. IsClosed options s start z × (z.queue ≡ [])) (some-injective e) (c, refl)
loop-IsClosed options s start zero (q ∷ qs) visited incoming y u h c e = cc
loop-IsClosed options s start (suc fuel) [] visited incoming y u h c e =
    subst (λ z. IsClosed options s start z × (z.queue ≡ [])) (some-injective e) (c, refl)
loop-IsClosed options s start (suc fuel) (q ∷ qs) visited incoming y u h c e =
    let next =
      advance options s start q
        (record { queue = qs; visited = visited; incoming_edges = incoming }) in
    loop-IsClosed options s start fuel next.queue next.visited next.incoming_edges y u h
      (advance-IsClosed options s start q qs visited incoming u h c) e

initial-IsClosed :
    (options : TraversalOptions) (s : GraphState) (start : ℕ)
    → IsSound s
    → IsClosed options s start (initial options s start)
initial-IsClosed options s start h b k e reach f p passes =
    let from_start : e.from_node_id ≡ start =
      ground (arith, reach, p, Bool-cases options.include_start) in
    ground (arith, awaits-successors options s start 1 k e h f from_start passes)

-- A walk along stored edges that pass the filter.
pub data Passing (options : TraversalOptions) (s : GraphState) (a : ℕ) : ℕ → Type 0 where
  here : Passing options s a a
  along :
      {b : ℕ} (k : ℕ) (e : GraphEdge)
      → Passing options s a b
      → get k s.edges ≡ some e
      → e.from_node_id ≡ b
      → edge_passes_filter options e ≡ true
      → Passing options s a e.to_node_id

closed_Passing :
    (options : TraversalOptions) (s : GraphState) (start b : ℕ) (x : Search)
    → IsClosed options s start x
    → x.queue ≡ []
    → Passing options s start b
    → (seen b x.visited || b == start) ≡ true
closed_Passing options s start b x c e here = ground arith
closed_Passing options s start b x c e (along {b = m} k y walk f p passes) =
    ground (arith, e, c m k y (closed_Passing options s start m x c e walk) f p passes)

reached_or_start :
    (options : TraversalOptions) (s : GraphState) (start b : ℕ) (r : ReachabilityResult)
    → options.max_depth ≡ none
    → options.node_types ≡ none
    → IsSound s
    → find_reachable start options s ≡ ok r
    → Passing options s start b
    → (seen b r.reachable_nodes || b == start) ≡ true
unfolding find_reachable
reached_or_start options s start b r d t h e walk =
    let x = initial options s start in
    elim (Option-cases (get start s.nodes)) [
      | inl f ↦ absurd (ground (arith, f, e))
      | inr (n, f) ↦ elim (Option-cases (loop options s start (fuel_of options s start) x)) [
        | inl g ↦ absurd (ground (arith, f, g, e))
        | inr (y, g) ↦
            let (c, q) =
              loop-IsClosed options s start (fuel_of options s start) x.queue x.visited [] y
                (record { max_depth = d; node_types = t }) h (initial-IsClosed options s start h)
                g in
            ground (arith, f, g, e, closed_Passing options s start b y c q walk)
      ]
    ]

-- In a sound store, a search without a greatest depth and without types of nodes misses nothing: every
-- node at the end of a walk from the start, along stored edges that pass the filter, is in the result,
-- but for the start itself where it is not asked for. The start is in the result exactly where it is
-- asked for.
pub find_reachable_complete :
    (options : TraversalOptions) (s : GraphState) (start b : ℕ) (r : ReachabilityResult)
    → options.max_depth ≡ none
    → options.node_types ≡ none
    → IsSound s
    → find_reachable start options s ≡ ok r
    → Passing options s start b
    → (seen start r.reachable_nodes ≡ options.include_start)
      × ((seen b r.reachable_nodes || (b == start && not options.include_start)) ≡ true)
find_reachable_complete options s start b r d t h e walk =
    let returned = start_returned options s start r e in
    let reached = reached_or_start options s start b r d t h e walk in
    (
      returned,
      elim (Bool-cases (b == start)) [
        | inl same ↦
            let is : b ≡ start = ground arith in
            let seen_b : seen b r.reachable_nodes ≡ options.include_start = rw is returned in
            ground (arith, seen_b, same)
        | inr other ↦ ground (arith, reached, other)
      ],
    )
