-- ===== src/Graph/Classification/Near.antt =====
-- Entries that stand for a node up to a depth, and that the expansions and the seeds hold the nodes
-- that an edge leads to.
use intent_rebase.Base.{
  ℕ, suc, ◌≤◌, ◌<◌, Bool, true, ◌&&◌, ◌||◌, Option, some, List, [], ◌∷◌, ◌++◌, map, filter_map, any,
  All, count, leb, ◌==◌, get, Map, ◌≡◌, arith, inl, inr, Bool-cases, Option-cases,
}
use intent_rebase.Graph.Types.{GraphEdge, depends_on, validated_by, edge_type_eq, PropagationConfig}
use intent_rebase.Graph.Store.{GraphState, list_edges_from, list_edges_to}
use intent_rebase.Graph.Store.Integrity.{IsSound}
use intent_rebase.Graph.Store.Isolation.{list_edges_from_exact, list_edges_to_exact}
use intent_rebase.Graph.Traversal.Soundness.{All-map}
use intent_rebase.Graph.Traversal.Completeness.{any-append}
use intent_rebase.Graph.Classification.Defs.{
  Pending, traversable, seed, incoming, outgoing, propagated,
}
use intent_rebase.Graph.Classification.Affects.{Follows, dependent, downstream, outgoing_passes}

-- An entry of the list stands for the node, at no greater depth.
unfoldable pub near : ℕ → ℕ → List Pending → Bool
near n d ps = any (λ q. q.node_id == n && leb q.depth d) ps

pub near-append :
    (n d : ℕ) (ps qs : List Pending) → near n d (ps ++ qs) ≡ (near n d ps || near n d qs)
unfolding near
near-append n d ps qs = any-append (λ q. q.node_id == n && leb q.depth d) ps qs

pub near_mono : (n d e : ℕ) (ps : List Pending) → d ≤ e → near n d ps ≡ true → near n e ps ≡ true
unfolding near
near_mono n d e [] le h = absurd (ground arith)
near_mono n d e (p ∷ ps) le h = elim (Bool-cases (p.node_id == n && leb p.depth d)) [
  | inl here ↦ ground arith
  | inr other ↦ ground (arith, near_mono n d e ps le (ground arith))
]

-- A stored edge that gives an entry puts it among those of a listing that holds the edge.
near-filter_map :
    (f : GraphEdge → Option Pending) (edges : Map GraphEdge) (e : GraphEdge) (p : Pending) (d : ℕ)
    (xs : List GraphEdge)
    → All (λ x. get x.id edges ≡ some x) xs
    → 0 < count e.id (map (λ x. x.id) xs)
    → get e.id edges ≡ some e
    → f e ≡ some p
    → p.depth ≤ d
    → near p.node_id d (filter_map f xs) ≡ true
unfolding near
near-filter_map f edges e p d [] h c g is le = absurd (omega (arith, c))
near-filter_map f edges e p d (x ∷ xs) (k, h) c g is le = elim (Bool-cases (x.id == e.id)) [
  | inl same ↦ let is_x : f x ≡ some p = ground arith in ground arith
  | inr other ↦ ground (arith, near-filter_map f edges e p d xs h (ground arith) g is le)
]

module _ (c : PropagationConfig) (s : GraphState) (h : IsSound s) where
  into_near :
      (f : GraphEdge → Option Pending) (n d k : ℕ) (e : GraphEdge) (p : Pending)
      → get k s.edges ≡ some e
      → e.to_node_id ≡ n
      → f e ≡ some p
      → p.depth ≤ d
      → near p.node_id d (filter_map f (list_edges_to n s)) ≡ true
  into_near f n d k e p g t is le =
      let (counts, all) = list_edges_to_exact s h n in
      near-filter_map f s.edges e p d (list_edges_to n s)
        (All-map _ (λ x. get x.id s.edges ≡ some x) (list_edges_to n s) (λ x q. q.0) all)
        (ground (arith, counts e.id, h.edge_keys k e g)) (ground (arith, h.edge_keys k e g)) is le

  out_near :
      (f : GraphEdge → Option Pending) (n d k : ℕ) (e : GraphEdge) (p : Pending)
      → get k s.edges ≡ some e
      → e.from_node_id ≡ n
      → f e ≡ some p
      → p.depth ≤ d
      → near p.node_id d (filter_map f (list_edges_from n s)) ≡ true
  out_near f n d k e p g t is le =
      let (counts, all) = list_edges_from_exact s h n in
      near-filter_map f s.edges e p d (list_edges_from n s)
        (All-map _ (λ x. get x.id s.edges ≡ some x) (list_edges_from n s) (λ x q. q.0) all)
        (ground (arith, counts e.id, h.edge_keys k e g)) (ground (arith, h.edge_keys k e g)) is le

  -- An expansion holds what the node is followed to.
  pub near-propagated :
      (n m d lower : ℕ)
      → Follows c s n m
      → lower ≤ d
      → near m (suc d) (propagated c s n lower) ≡ true
  unfolding propagated
  near-propagated n m d lower (dependent k e g t passes) le =
      let new = filter_map (incoming c lower) (list_edges_to n s) in
      elim (Option-cases (incoming c lower e)) [
        | inl f ↦ absurd (ground (arith, f, passes))
        | inr (p, f) ↦
            let node : e.from_node_id ≡ p.node_id = ground arith in
            let depth : p.depth ≤ suc d = ground arith in
            let held = into_near (incoming c lower) n (suc d) k e p g t f depth in
            ground (
              arith,
              node,
              held,
              near-append e.from_node_id (suc d) new
                  (filter_map (outgoing c lower) (list_edges_from n s)),
            )
      ]
  near-propagated n m d lower (downstream k e g t passes) le =
      let new = filter_map (outgoing c lower) (list_edges_from n s) in
      let same = outgoing_passes c e.edge_type in
      elim (Option-cases (outgoing c lower e)) [
        | inl f ↦ absurd (ground (arith, f, passes, same))
        | inr (p, f) ↦
            let node : e.to_node_id ≡ p.node_id = ground arith in
            let depth : p.depth ≤ suc d = ground arith in
            let held = out_near (outgoing c lower) n (suc d) k e p g t f depth in
            ground (
              arith,
              node,
              held,
              near-append e.to_node_id (suc d) (filter_map (incoming c lower) (list_edges_to n s))
                  new,
            )
      ]

  -- The seeds hold what an edge into the start comes from.
  pub near-seed :
      (start k : ℕ) (e : GraphEdge)
      → get k s.edges ≡ some e
      → e.to_node_id ≡ start
      → ((edge_type_eq e.edge_type depends_on || edge_type_eq e.edge_type validated_by)
          && traversable c e.edge_type)
        ≡ true
      → near e.from_node_id 1 (filter_map (seed c) (list_edges_to start s)) ≡ true
  near-seed start k e g t passes = elim (Option-cases (seed c e)) [
    | inl f ↦ absurd (ground (arith, f, passes))
    | inr (p, f) ↦
        let node : e.from_node_id ≡ p.node_id = ground arith in
        let depth : p.depth ≤ 1 = ground arith in
        ground (arith, node, into_near (seed c) start 1 k e p g t f depth)
  ]
