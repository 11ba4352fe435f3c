-- ===== src/Graph/Classification/Levels.antt =====
-- The queue of the classification holds the entries by depth, of two levels at most, and what has
-- left it is not forgotten.
use intent_rebase.Base.{
  ℕ, suc, ◌≤◌, Bool, true, ◌&&◌, ◌||◌, some, List, [], ◌∷◌, ◌++◌, All, All-append, ltb, leb, ◌==◌,
  get, ◌≡◌, subst, arith, inl, inr, Bool-cases,
}
use intent_rebase.Graph.Types.{GraphNode, NodeType, PropagationConfig}
use intent_rebase.Graph.Store.{GraphState}
use intent_rebase.Graph.Store.Integrity.{IsSound}
use intent_rebase.Graph.Traversal.Soundness.{All-map}
use intent_rebase.Graph.Classification.Defs.{
  ClassifiedNode, Pending, Classification, propagated, seen, is_target, explored, take_turn,
}
use intent_rebase.Graph.Classification.Affects.{Follows}
use intent_rebase.Graph.Classification.Fuel.{propagated_depth}
use intent_rebase.Graph.Classification.Near.{near, near-append, near_mono, near-propagated}

abbrev pub IsOrdered : ℕ → List Pending → Type 0
IsOrdered k [] = Unit
IsOrdered k (p ∷ ps) = (k ≤ p.depth) × IsOrdered p.depth ps

pub level-IsOrdered :
    (k j : ℕ) (qs : List Pending) → k ≤ j → All (λ q. q.depth ≡ j) qs → IsOrdered k qs
level-IsOrdered k j [] le h = tt
level-IsOrdered k j (q ∷ qs) le (e, h) =
    (omega (arith, e, le), level-IsOrdered q.depth j qs (omega (arith, e)) h)

append-IsOrdered :
    (k j : ℕ) (ps qs : List Pending)
    → k ≤ j
    → IsOrdered k ps
    → All (λ p. p.depth ≤ j) ps
    → All (λ q. q.depth ≡ j) qs
    → IsOrdered k (ps ++ qs)
append-IsOrdered k j [] qs le o b h = level-IsOrdered k j qs le h
append-IsOrdered k j (p ∷ ps) qs le (first, o) (below, b) h =
    (first, append-IsOrdered p.depth j ps qs below o b h)

-- The node is to be met, or was, at no greater depth.
abbrev pub known : ℕ → ℕ → List Pending → List Pending → Bool
known m d queue done = near m d queue || near m d done

-- What holds between the turns, with the entries that were expanded.
pub record IsComplete (c : PropagationConfig) (max : ℕ) (types : List NodeType) (s : GraphState)
    (seeds : List Pending) (k : ℕ) (done queue : List Pending) (visited : List ℕ) : Type 0 where
  pub ordered : IsOrdered k queue
  pub two_levels : All (λ q. q.depth ≤ suc k) queue
  pub closed :
      (n d m : ℕ)
      → near n d done ≡ true
      → suc d ≤ max
      → Follows c s n m
      → known m (suc d) queue done ≡ true
  pub from_seeds : (m : ℕ) → near m 1 seeds ≡ true → 1 ≤ max → known m 1 queue done ≡ true
  pub expanded : (n : ℕ) → seen n visited ≡ true → near n k done ≡ true
  pub targets :
      (n d : ℕ) (node : GraphNode)
      → near n d done ≡ true
      → get n s.nodes ≡ some node
      → is_target types node ≡ true
      → seen n visited ≡ true

module _ (c : PropagationConfig) (max : ℕ) (types : List NodeType) (s : GraphState)
    (seeds : List Pending) (h : IsSound s) where
  explored_level : (p : Pending) → All (λ q. q.depth ≡ suc p.depth) (explored c max s p)
  explored_level p = elim (Bool-cases (ltb p.depth max)) [
    | inl below ↦ rw below (propagated_depth c s p.node_id p.depth)
    | inr deep ↦ rw deep tt
  ]

  -- An entry that is too deep, or whose node was met before, leaves the queue without a trace.
  passed-IsComplete :
      (k : ℕ) (done : List Pending) (p : Pending) (ps : List Pending) (visited : List ℕ)
      → IsComplete c max types s seeds k done (p ∷ ps) visited
      → ((m d : ℕ) → d ≤ max → known m d (p ∷ ps) done ≡ true → known m d ps done ≡ true)
      → IsComplete c max types s seeds p.depth done ps visited
  passed-IsComplete k done p ps visited i kept =
      let (le, ordered) = i.ordered in
      let (below, levels) = i.two_levels in
      record {
        ordered = ordered;
        two_levels = All-map _ (λ q. q.depth ≤ suc p.depth) ps (λ q b. omega (arith, b, le)) levels;
        closed = λ n d m g b f. kept m (suc d) b (i.closed n d m g b f);
        from_seeds = λ m g b. kept m 1 b (i.from_seeds m g b);
        expanded = λ n v. near_mono n k p.depth done le (i.expanded n v);
        targets = i.targets;
      }

  deep_kept :
      (p : Pending) (ps done : List Pending) (m d : ℕ)
      → ltb max p.depth ≡ true
      → d ≤ max
      → known m d (p ∷ ps) done ≡ true
      → known m d ps done ≡ true
  unfolding near
  deep_kept p ps done m d deep b g = ground arith

  old_kept :
      (p : Pending) (ps done : List Pending) (m d : ℕ)
      → near p.node_id p.depth done ≡ true
      → known m d (p ∷ ps) done ≡ true
      → known m d ps done ≡ true
  unfolding near
  old_kept p ps done m d old g = elim (Bool-cases (p.node_id == m && leb p.depth d)) [
    | inl here ↦
        let at_m : near m p.depth done ≡ true = ground arith in
        ground (arith, near_mono m p.depth d done (ground arith) at_m)
    | inr other ↦ ground arith
  ]

  expanded_kept :
      (p : Pending) (ps done : List Pending) (m d : ℕ)
      → known m d (p ∷ ps) done ≡ true
      → known m d (ps ++ explored c max s p) (p ∷ done) ≡ true
  unfolding near
  expanded_kept p ps done m d g = ground (arith, near-append m d ps (explored c max s p))

  -- What the expanded entry is followed to is in the queue.
  expanded_closed :
      (p : Pending) (ps done : List Pending) (n d m : ℕ)
      → (p.node_id == n && leb p.depth d) ≡ true
      → suc d ≤ max
      → Follows c s n m
      → known m (suc d) (ps ++ explored c max s p) (p ∷ done) ≡ true
  expanded_closed p ps done n d m here b f =
      let is : n ≡ p.node_id = ground arith in
      let le : p.depth ≤ d = ground arith in
      let below : ltb p.depth max ≡ true = ground arith in
      let f' = subst (λ j. Follows c s j m) is f in
      let held = near-propagated c s h p.node_id m d p.depth f' le in
      rw below (ground (arith, held, near-append m (suc d) ps (propagated c s p.node_id p.depth)))

  -- An entry that is expanded, whether its node is of a target type or not.
  expanded-IsComplete :
      (k : ℕ) (done : List Pending) (p : Pending) (ps : List Pending) (visited now : List ℕ)
      → IsComplete c max types s seeds k done (p ∷ ps) visited
      → ((n : ℕ) → seen n now ≡ true → (seen n visited || p.node_id == n) ≡ true)
      → ((n : ℕ) → seen n visited ≡ true → seen n now ≡ true)
      → ((node : GraphNode)
          → get p.node_id s.nodes ≡ some node
          → is_target types node ≡ true
          → seen p.node_id now ≡ true)
      → IsComplete c max types s seeds p.depth (p ∷ done) (ps ++ explored c max s p) now
  unfolding near
  expanded-IsComplete k done p ps visited now i new kept target =
      let (le, ordered) = i.ordered in
      let (below, levels) = i.two_levels in
      let level = All-map _ (λ q. q.depth ≤ suc p.depth) ps (λ q b. omega (arith, b, le)) levels in
      record {
        ordered =
            append-IsOrdered p.depth (suc p.depth) ps (explored c max s p) (omega arith) ordered
              level (explored_level p);
        two_levels = All-append _ ps (explored c max s p) level (
            All-map _ (λ q. q.depth ≤ suc p.depth) (explored c max s p) (λ q e. omega (arith, e))
              (explored_level p));
        closed = λ n d m g b f. elim (Bool-cases (p.node_id == n && leb p.depth d)) [
          | inl here ↦ expanded_closed p ps done n d m here b f
          | inr other ↦ expanded_kept p ps done m (suc d) (i.closed n d m (ground arith) b f)
        ];
        from_seeds = λ m g b. expanded_kept p ps done m 1 (i.from_seeds m g b);
        expanded = λ n v. elim (Bool-cases (p.node_id == n)) [
          | inl here ↦ ground arith
          | inr other ↦
              let before : seen n visited ≡ true = ground (arith, new n v) in
              ground (arith, near_mono n k p.depth done le (i.expanded n before))
        ];
        targets = λ n d node g stored t. elim (Bool-cases (p.node_id == n && leb p.depth d)) [
          | inl here ↦
              let is : p.node_id ≡ n = ground arith in
              ground (arith, is, stored, target node (rw is stored) t)
          | inr other ↦ kept n (i.targets n d node (ground arith) stored t)
        ];
      }

  -- A turn keeps all of it.
  pub take_turn-IsComplete :
      (k : ℕ) (done : List Pending) (p : Pending) (ps : List Pending) (visited : List ℕ)
      (classified : List ClassifiedNode) (node : GraphNode)
      → get p.node_id s.nodes ≡ some node
      → IsComplete c max types s seeds k done (p ∷ ps) visited
      → let x : Classification = record {
        queue = ps;
        visited = visited;
        classified = classified;
      } in
        let y = take_turn c max types s p x in
        (now : List Pending) × IsComplete c max types s seeds p.depth now y.queue y.visited
  unfolding take_turn
  take_turn-IsComplete k done p ps visited classified node stored i =
      let (le, ordered) = i.ordered in
      elim (Bool-cases (ltb max p.depth)) [
        | inl deep ↦
            rw deep
              (done, passed-IsComplete k done p ps visited i (λ m d. deep_kept p ps done m d deep))
        | inr within ↦ elim (Bool-cases (seen p.node_id visited)) [
          | inl old ↦
              let met = near_mono p.node_id k p.depth done le (i.expanded p.node_id old) in
              rw (within, old)
                (
                  done,
                  passed-IsComplete k done p ps visited i (λ m d b. old_kept p ps done m d met),
                )
          | inr new ↦ elim (Bool-cases (is_target types node)) [
            | inl target ↦
                rw (within, new, stored, target)
                  (
                    p ∷ done,
                    expanded-IsComplete k done p ps visited (p.node_id ∷ visited) i
                        (λ n v. ground arith) (λ n v. ground arith) (λ m f t. ground arith),
                  )
            | inr other ↦
                rw (within, new, stored, other)
                  (
                    p ∷ done,
                    expanded-IsComplete k done p ps visited visited i (λ n v. ground arith)
                        (λ n v. v) (λ m f t. absurd (ground (arith, stored, f, other, t))),
                  )
          ]
        ]
      ]
