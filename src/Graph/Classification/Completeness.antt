-- ===== src/Graph/Classification/Completeness.antt =====
-- What `classify_impact` does not miss.
use intent_rebase.Base.{
  some-injective, ℕ, zero, suc, ◌≤◌, true, some, List, [], ◌∷◌, map, filter_map, All-filter_map,
  All_every, count, get, ◌≡◌, subst, arith, inl, inr, Option-cases, ok,
}
use intent_rebase.Graph.Types.{GraphNode, GraphEdge, NodeType, PropagationConfig, ClassifyRequest}
use intent_rebase.Graph.Store.{GraphState, list_edges_to}
use intent_rebase.Graph.Store.Integrity.{IsSound}
use intent_rebase.Graph.Traversal.Soundness.{All-map}
use intent_rebase.Graph.Classification.Defs.{
  ClassifiedNode, ClassificationResult, Pending, Classification, config_of, max_depth_of,
  targets_of, is_target, seed, take_turn, classify_loop, branching, work, seeded, classify_impact,
}
use intent_rebase.Graph.Classification.Affects.{Affects, directly, further, dependent, downstream}
use intent_rebase.Graph.Classification.Soundness.{
  IsClassified, take_turn-IsClassified, seeded-IsClassified,
}
use intent_rebase.Graph.Classification.Near.{near, near-seed}
use intent_rebase.Graph.Classification.Levels.{IsComplete, level-IsOrdered, take_turn-IsComplete}

Affects-stored :
    {c : PropagationConfig} {s : GraphState} {start m d : ℕ}
    → IsSound s
    → Affects c s start m d
    → (n : GraphNode) × (get m s.nodes ≡ some n)
Affects-stored h (directly k e f t p) = let end = h.from_ends k e f in (end.node, end.found)
Affects-stored h (further a (dependent k e f t p)) =
    let end = h.from_ends k e f in (end.node, end.found)
Affects-stored h (further a (downstream k e f t p)) =
    let end = h.to_ends k e f in (end.node, end.found)

module _ (c : PropagationConfig) (max : ℕ) (types : List NodeType) (s : GraphState) (start : ℕ)
    (h : IsSound s) where
  abbrev seeds : List Pending
  seeds = filter_map (seed c) (list_edges_to start s)

  -- A loop that ended has nothing in the queue.
  record IsEnded (y : Classification) : Type 0 where
    pub level : ℕ
    pub done : List Pending
    pub complete : IsComplete c max types s seeds level done [] y.visited
    pub classified : IsClassified c max types s start y

  classify_loop-IsEnded :
      (fuel k : ℕ) (done queue : List Pending) (visited : List ℕ) (classified : List ClassifiedNode)
      (y : Classification)
      → let x : Classification = record {
        queue = queue;
        visited = visited;
        classified = classified;
      } in
        IsClassified c max types s start x
        → IsComplete c max types s seeds k done queue visited
        → classify_loop c max types s fuel x ≡ some y
        → IsEnded y
  unfolding classify_loop
  classify_loop-IsEnded zero k done [] visited classified y i j e =
      subst IsEnded (some-injective e)
        (record { level = k; done = done; complete = j; classified = i })
  classify_loop-IsEnded zero k done (p ∷ ps) visited classified y i j e = cc
  classify_loop-IsEnded (suc fuel) k done [] visited classified y i j e =
      subst IsEnded (some-injective e)
        (record { level = k; done = done; complete = j; classified = i })
  classify_loop-IsEnded (suc fuel) k done (p ∷ ps) visited classified y i j e =
      let x : Classification = record { queue = ps; visited = visited; classified = classified } in
      let next = take_turn c max types s p x in
      let (a, rest) = i.queued in
      let (node, stored) = Affects-stored h a in
      let (now, j') =
        take_turn-IsComplete c max types s seeds h k done p ps visited classified node stored j in
      classify_loop-IsEnded fuel p.depth now next.queue next.visited next.classified y
        (take_turn-IsClassified c max types s start h p x a
          (record { queued = rest; affected = i.affected; once = i.once }))
        j' e

  -- A node that is affected within the depth was expanded.
  ended_near :
      (y : Classification) (i : IsEnded y) (m d : ℕ)
      → Affects c s start m d
      → d ≤ max
      → near m d i.done ≡ true
  unfolding near
  ended_near y i m d (directly k e f t p) b =
      i.complete.from_seeds e.from_node_id (near-seed c s h start k e f t p) b
  ended_near y i m d (further {n} {d = lower} a f) b =
      i.complete.closed n lower m (ended_near y i n lower a (omega (arith, b))) b f

seed_depth : (c : PropagationConfig) (e : GraphEdge) (p : Pending) → seed c e ≡ some p → p.depth ≡ 1
seed_depth c e p h = ground arith

-- In a sound store, a classification misses nothing: every node of a target type that a change of the
-- start affects at a depth that is allowed is classified, once.
pub classify_impact_complete :
    (q : ClassifyRequest) (s : GraphState) (r : ClassificationResult) (m d : ℕ) (node : GraphNode)
    → IsSound s
    → classify_impact q s ≡ ok r
    → Affects (config_of q) s q.start_node_id m d
    → d ≤ max_depth_of q
    → get m s.nodes ≡ some node
    → is_target (targets_of q) node ≡ true
    → count m (map (λ r. r.node.id) r.classified_nodes) ≡ 1
unfolding classify_impact near
classify_impact_complete q s r m d node h e a b stored target =
    let c = config_of q in
    let max = max_depth_of q in
    let types = targets_of q in
    let x = seeded q s in
    let fuel = work (branching s s.nodes) max x.queue in
    let edges = list_edges_to q.start_node_id s in
    let level =
      All-filter_map {0, 0, 0, 0} (λ e. Unit) (λ p. p.depth ≡ 1) (seed c) edges
        (λ e p u. seed_depth c e p) (All_every {0, 0} _ edges (λ e. tt)) in
    elim (Option-cases (get q.start_node_id s.nodes)) [
      | inl f ↦ absurd (ground (arith, f, e))
      | inr (n, f) ↦ elim (Option-cases (classify_loop c max types s fuel x)) [
        | inl g ↦ absurd (ground (arith, f, g, e))
        | inr (y, g) ↦
            let i =
              classify_loop-IsEnded c max types s q.start_node_id h fuel 0 [] x.queue [] [] y
                (seeded-IsClassified q s h)
                (record {
                  ordered = level-IsOrdered 0 1 x.queue (omega arith) level;
                  two_levels = All-map _ (λ p. p.depth ≤ 1) x.queue (λ p e. omega (arith, e)) level;
                  closed = λ n d m g. absurd (ground arith);
                  from_seeds = λ m g b. ground arith;
                  expanded = λ n v. absurd (ground arith);
                  targets = λ n d node g. absurd (ground arith);
                })
                g in
            let met = ended_near c max types s q.start_node_id h y i m d a b in
            ground
              (arith, f, g, e, i.classified.once m, i.complete.targets m d node met stored target)
      ]
    ]
