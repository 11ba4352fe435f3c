-- ===== src/Graph/Classification/Soundness.antt =====
-- What `classify_impact` returns: affected nodes, each once.
use intent_rebase.Base.{
  ℕ, zero, suc, ◌+◌, ◌-◌, ◌≤◌, true, false, some, List, [], ◌∷◌, ◌++◌, map, filter_map, All,
  All-append, All-filter_map, count, count-append, ltb, get, ◌≡◌, refl, sym, subst, arith, inl, inr,
  Bool-cases, Option-cases, if◌then◌else◌, ok,
}
use mathlib.Core.List.{map-append}
use intent_rebase.Graph.Types.{GraphNode, NodeType, PropagationConfig, ClassifyRequest}
use intent_rebase.Graph.Store.{GraphState, list_edges_from, list_edges_to}
use intent_rebase.Graph.Store.Integrity.{IsSound}
use intent_rebase.Graph.Store.Isolation.{list_edges_from_exact, list_edges_to_exact}
use intent_rebase.Graph.Classification.Defs.{
  ClassifiedNode, ClassificationResult, Pending, Classification, config_of, max_depth_of,
  targets_of, is_target, seed, incoming, outgoing, propagated, impact_at, seen, classify_node,
  explored, take_turn, classify_loop, branching, work, seeded, classify_impact,
}
use intent_rebase.Graph.Classification.Affects.{
  Affects, IsAffected, seed-Affects, incoming-Affects, outgoing-Affects,
}
use intent_rebase.Graph.Classification.Fuel.{turns-positive, take_turn-work}

-- The loop holds affected nodes in the queue, and has classified each visited node once.
pub record IsClassified (c : PropagationConfig) (max : ℕ) (types : List NodeType) (s : GraphState)
    (start : ℕ) (x : Classification) : Type 0 where
  pub queued : All (λ q. Affects c s start q.node_id q.depth) x.queue
  pub affected : All (IsAffected c max types s start) x.classified
  pub once :
      (k : ℕ) → count k (map (λ r. r.node.id) x.classified) ≡ (if seen k x.visited then 1 else 0)

-- The steps of the loop, for one configuration and one start.
module _ (c : PropagationConfig) (max : ℕ) (types : List NodeType) (s : GraphState) (start : ℕ)
    (h : IsSound s) where
  explored-Affects :
      (p : Pending)
      → Affects c s start p.node_id p.depth
      → All (λ q. Affects c s start q.node_id q.depth) (explored c max s p)
  unfolding propagated
  explored-Affects p a =
      let Q : Pending → Type 0 = λ q. Affects c s start q.node_id q.depth in
      let into = list_edges_to p.node_id s in
      let out = list_edges_from p.node_id s in
      elim (Bool-cases (ltb p.depth max)) [
        | inl below ↦ rw below (
            All-append Q (filter_map (incoming c p.depth) into)
              (filter_map (outgoing c p.depth) out)
              (All-filter_map _ Q (incoming c p.depth) into
                (λ e q (f, t, i) g. incoming-Affects c s start p.node_id p.depth e q a f t g)
                (list_edges_to_exact s h p.node_id).1)
              (All-filter_map _ Q (outgoing c p.depth) out
                (λ e q (f, t, i) g. outgoing-Affects c s start p.node_id p.depth e q a f t g)
                (list_edges_from_exact s h p.node_id).1))
        | inr deep ↦ rw deep tt
      ]

  classify_node-IsClassified :
      (p : Pending) (n : GraphNode) (x : Classification)
      → Affects c s start p.node_id p.depth
      → get p.node_id s.nodes ≡ some n
      → p.depth ≤ max
      → seen p.node_id x.visited ≡ false
      → is_target types n ≡ true
      → IsClassified c max types s start x
      → IsClassified c max types s start (classify_node c max s p n x)
  classify_node-IsClassified p n x a found within new target i =
      let key : n.id ≡ p.node_id = h.node_keys p.node_id n found in
      record {
        queued = All-append _ x.queue (explored c max s p) i.queued (explored-Affects p a);
        affected = All-append _ x.classified _ i.affected (
          record {
            depth = p.depth;
            affects = rw key a;
            within = within;
            stored = subst (λ j. get j s.nodes ≡ some n) (sym key) found;
            target = target;
            impact = refl;
          },
          tt,
        );
        once = λ k.
            let r : ClassifiedNode = record {
              node = n;
              impact = impact_at p.depth;
              reason = p.reason;
            } in
            let counted : count k (map (λ r. r.node.id) (x.classified ++ r ∷ []))
                ≡ count k (map (λ r. r.node.id) x.classified) + count k (n.id ∷ []) =
              rw (map-append (λ (r : ClassifiedNode). r.node.id) x.classified (r ∷ []))
                (count-append k (map (λ r. r.node.id) x.classified) (n.id ∷ [])) in
            ground (arith, counted, key, new, i.once k);
      }

  pub take_turn-IsClassified :
      (p : Pending) (x : Classification)
      → Affects c s start p.node_id p.depth
      → IsClassified c max types s start x
      → IsClassified c max types s start (take_turn c max types s p x)
  unfolding take_turn
  take_turn-IsClassified p x a i = elim (Bool-cases (ltb max p.depth)) [
    | inl deep ↦ rw deep i
    | inr within ↦ elim (Bool-cases (seen p.node_id x.visited)) [
      | inl old ↦ rw (within, old) i
      | inr new ↦ elim (Option-cases (get p.node_id s.nodes)) [
        | inl missing ↦ rw (within, new, missing) i
        | inr (n, found) ↦ elim (Bool-cases (is_target types n)) [
          | inl target ↦
              rw (within, new, found, target)
                (classify_node-IsClassified p n x a found (ground arith) new target i)
          | inr other ↦
              rw (within, new, found, other)
                (record {
                  queued =
                      All-append _ x.queue (explored c max s p) i.queued (explored-Affects p a);
                  affected = i.affected;
                  once = i.once;
                })
        ]
      ]
    ]
  ]

  -- The loop ends with enough fuel, and keeps what it found.
  classify_loop-IsClassified :
      (fuel : ℕ) (queue : List Pending) (visited : List ℕ) (classified : List ClassifiedNode)
      → let x : Classification = record {
        queue = queue;
        visited = visited;
        classified = classified;
      } in
        IsClassified c max types s start x
        → work (branching s s.nodes) max queue ≤ fuel
        → (y : Classification) × (classify_loop c max types s fuel x ≡ some y)
          × IsClassified c max types s start y
  unfolding classify_loop work
  classify_loop-IsClassified zero [] visited classified i enough = (_, refl, i)
  classify_loop-IsClassified zero (p ∷ ps) visited classified i enough =
      absurd (omega (arith, enough, turns-positive (branching s s.nodes) (suc max - p.depth)))
  classify_loop-IsClassified (suc fuel) [] visited classified i enough = (_, refl, i)
  classify_loop-IsClassified (suc fuel) (p ∷ ps) visited classified i enough =
      let x : Classification = record { queue = ps; visited = visited; classified = classified } in
      let next = take_turn c max types s p x in
      let (a, rest) = i.queued in
      classify_loop-IsClassified fuel next.queue next.visited next.classified
        (take_turn-IsClassified p x a
          (record { queued = rest; affected = i.affected; once = i.once }))
        (omega (arith, enough, take_turn-work c max types s p x))

pub seeded-IsClassified :
    (q : ClassifyRequest) (s : GraphState)
    → IsSound s
    → IsClassified (config_of q) (max_depth_of q) (targets_of q) s q.start_node_id (seeded q s)
seeded-IsClassified q s h =
    let c = config_of q in
    let seeds =
      All-filter_map _ (λ p. Affects c s q.start_node_id p.node_id p.depth) (seed c)
        (list_edges_to q.start_node_id s)
        (λ e p (f, t, i) g. seed-Affects c s q.start_node_id e p f t g)
        (list_edges_to_exact s h q.start_node_id).1 in
    record { queued = seeds; affected = tt; once = λ k. refl }

-- In a sound store, a classification from a stored node ends and returns a result, with the depth of
-- the request. Every classified node is stored, of a target type, and affected by a change of the
-- start at a depth that is allowed, its impact is direct exactly when that depth is 1; and no node is
-- classified twice.
pub classify_impact_sound :
    (q : ClassifyRequest) (s : GraphState) (start : GraphNode)
    → IsSound s
    → get q.start_node_id s.nodes ≡ some start
    → (r : ClassificationResult) × (classify_impact q s ≡ ok r)
      × (r.max_depth ≡ max_depth_of q)
      × All
          (IsAffected (config_of q) (max_depth_of q) (targets_of q) s q.start_node_id)
          r.classified_nodes
      × ((k : ℕ) → count k (map (λ r. r.node.id) r.classified_nodes) ≤ 1)
unfolding classify_impact
classify_impact_sound q s start h e =
    let c = config_of q in
    let max = max_depth_of q in
    let x = seeded q s in
    let (y, done, i) =
      classify_loop-IsClassified c max (targets_of q) s q.start_node_id h
        (work (branching s s.nodes) max x.queue) x.queue [] [] (seeded-IsClassified q s h)
        (omega arith) in
    (
      record { classified_nodes = y.classified; start_node_id = start.id; max_depth = max },
      ground (arith, e, done),
      refl,
      i.affected,
      λ k. ground (arith, i.once k),
    )
