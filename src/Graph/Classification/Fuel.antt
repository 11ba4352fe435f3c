-- ===== src/Graph/Classification/Fuel.antt =====
-- The classification ends: the fuel that `classify_impact` gives is enough.
use intent_rebase.Base.{
  ℕ, zero, suc, ◌+◌, ◌-◌, ◌*◌, ◌≤◌, true, Option, some, List, [], ◌∷◌, filter_map, length,
  length-append, total, total-append, ltb, ◌==◌, Map, get, ◌≡◌, ap, arith, inl, inr, All,
  All-append, All-filter_map, All_every, Bool-cases, Option-cases,
}
use native.Mathlib.Nat.{mul-le-mul_right}
use intent_rebase.Graph.Types.{GraphNode, GraphEdge, NodeType, PropagationConfig}
use intent_rebase.Graph.Store.{GraphState, list_edges_from, list_edges_to}
use intent_rebase.Graph.Classification.Defs.{
  Pending, Classification, incoming, outgoing, propagated, explored, take_turn, branching, turns,
  work,
}

length-filter_map-le :
    {A B : Type 0} (f : A → Option B) (xs : List A) → length (filter_map f xs) ≤ length xs
length-filter_map-le f [] = omega arith
length-filter_map-le f (x ∷ xs) = ground (arith, length-filter_map-le f xs)

edges_at-le :
    (s : GraphState) (k : ℕ) (n : GraphNode) (m : Map GraphNode)
    → get k m ≡ some n
    → length (list_edges_to k s) + length (list_edges_from k s) ≤ branching s m
edges_at-le s k n [] h = absurd (ground arith)
edges_at-le s k n ((j, x) ∷ m) h = elim (Bool-cases (j == k)) [
  | inl same ↦ ground arith
  | inr other ↦ ground (arith, edges_at-le s k n m (ground arith))
]

length-propagated :
    (c : PropagationConfig) (s : GraphState) (k depth : ℕ) (n : GraphNode)
    → get k s.nodes ≡ some n
    → length (propagated c s k depth) ≤ branching s s.nodes
unfolding propagated
length-propagated c s k depth n h = omega (
  arith,
  length-append (filter_map (incoming c depth) (list_edges_to k s))
      (filter_map (outgoing c depth) (list_edges_from k s)),
  length-filter_map-le (incoming c depth) (list_edges_to k s),
  length-filter_map-le (outgoing c depth) (list_edges_from k s),
  edges_at-le s k n s.nodes h,
)

-- Every entry that an expansion adds is one level below.
incoming_depth :
    (c : PropagationConfig) (d : ℕ) (e : GraphEdge) (p : Pending)
    → incoming c d e ≡ some p
    → p.depth ≡ suc d
incoming_depth c d e p h = ground arith

outgoing_depth :
    (c : PropagationConfig) (d : ℕ) (e : GraphEdge) (p : Pending)
    → outgoing c d e ≡ some p
    → p.depth ≡ suc d
outgoing_depth c d e p h = ground arith

pub propagated_depth :
    (c : PropagationConfig) (s : GraphState) (k d : ℕ)
    → All (λ p. p.depth ≡ suc d) (propagated c s k d)
unfolding propagated
propagated_depth c s k d =
    let into = list_edges_to k s in
    let out = list_edges_from k s in
    All-append (λ p. p.depth ≡ suc d) (filter_map (incoming c d) into)
      (filter_map (outgoing c d) out)
      (All-filter_map {0, 0, 0, 0} (λ e. Unit) _ (incoming c d) into
        (λ e p u. incoming_depth c d e p) (All_every {0, 0} _ into (λ e. tt)))
      (All-filter_map {0, 0, 0, 0} (λ e. Unit) _ (outgoing c d) out
        (λ e p u. outgoing_depth c d e p) (All_every {0, 0} _ out (λ e. tt)))

total-level :
    (f : ℕ → ℕ) (d : ℕ) (ps : List Pending)
    → All (λ p. p.depth ≡ d) ps
    → total (λ p. f p.depth) ps ≡ length ps * f d
total-level f d [] h = omega arith
total-level f d (p ∷ ps) (e, h) = omega (arith, ap f e, total-level f d ps h)

turns_below :
    (b max d : ℕ) → ltb d max ≡ true → turns b (suc max - d) ≡ 1 + b * turns b (suc max - suc d)
turns_below b max d h = let e : suc max - d ≡ suc (suc max - suc d) = ground arith in ap (turns b) e

pub turns-positive : (b n : ℕ) → 1 ≤ turns b n
turns-positive b zero = omega arith
turns-positive b (suc n) = omega arith

-- An expansion adds less work than its entry had.
work-explored :
    (c : PropagationConfig) (max : ℕ) (s : GraphState) (p : Pending) (n : GraphNode)
    → get p.node_id s.nodes ≡ some n
    → suc (work (branching s s.nodes) max (explored c max s p))
      ≤ turns (branching s s.nodes) (suc max - p.depth)
unfolding work
work-explored c max s p n h =
    let b = branching s s.nodes in
    let new = propagated c s p.node_id p.depth in
    let next = turns b (suc max - suc p.depth) in
    elim (Bool-cases (ltb p.depth max)) [
      | inl below ↦ rw below (
          omega (
            arith,
            turns_below b max p.depth below,
            total-level (λ d. turns b (suc max - d)) (suc p.depth) new
                (propagated_depth c s p.node_id p.depth),
            mul-le-mul_right next (length-propagated c s p.node_id p.depth n h),
          ))
      | inr deep ↦ rw deep (omega (arith, turns-positive b (suc max - p.depth)))
    ]

-- A turn takes at least one from the work.
pub take_turn-work :
    (c : PropagationConfig) (max : ℕ) (types : List NodeType) (s : GraphState) (p : Pending)
    (x : Classification)
    → suc (work (branching s s.nodes) max (take_turn c max types s p x).queue)
      ≤ turns (branching s s.nodes) (suc max - p.depth) + work (branching s s.nodes) max x.queue
unfolding take_turn work
take_turn-work c max types s p x =
    let b = branching s s.nodes in
    let measured : Pending → ℕ = λ q. turns b (suc max - q.depth) in
    let some_turns = turns-positive b (suc max - p.depth) in
    elim (Option-cases (get p.node_id s.nodes)) [
      | inl missing ↦ ground (arith, some_turns)
      | inr (n, found) ↦ ground (
        arith,
        some_turns,
        work-explored c max s p n found,
        total-append measured x.queue (explored c max s p),
      )
    ]
