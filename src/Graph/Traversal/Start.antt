-- ===== src/Graph/Traversal/Start.antt =====
-- Where `find_reachable` returns the start itself.
use intent_rebase.Base.{
  ℕ, suc, zero, not, ◌&&◌, some, List, [], ◌∷◌, ◌≡◌, ap, sym, ◌∙◌, inl, inr, arith, ◌==◌, ==_refl,
  get, Bool-cases, Option-cases, ok, some-injective,
}
use intent_rebase.Graph.Types.{TraversalOptions, ReachabilityResult}
use intent_rebase.Graph.Store.{GraphState}
use intent_rebase.Graph.Traversal.Defs.{
  Entry, Search, admitted, seen, advance, loop, initial, fuel_of, find_reachable,
}

module _ (options : TraversalOptions) (s : GraphState) (start : ℕ) where
  -- The start is among the visited nodes just if it is asked for.
  abbrev HasStart : Search → Type 0
  HasStart x = seen start x.visited ≡ options.include_start

  advance-HasStart : (q : Entry) (x : Search) → HasStart x → HasStart (advance options s start q x)
  unfolding advance
  advance-HasStart q x h =
      elim (Bool-cases (admitted options s start q && not (seen q.node_id x.visited))) [
        | inl new ↦ elim (Bool-cases (q.node_id == start)) [
          | inl same ↦ rw new (ground (arith, h, new, same))
          | inr other ↦ rw new (ground (arith, h, other))
        ]
        | inr old ↦ rw old h
      ]

  loop-HasStart :
      (fuel : ℕ) (queue : List Entry) (visited incoming : List ℕ) (y : Search)
      → let x : Search = record { queue = queue; visited = visited; incoming_edges = incoming } in
        HasStart x → loop options s start fuel x ≡ some y → HasStart y
  unfolding loop
  loop-HasStart zero [] visited incoming y h e =
      ap (λ z. seen start z.visited) (sym (some-injective e)) ∙ h
  loop-HasStart zero (q ∷ qs) visited incoming y h e = cc
  loop-HasStart (suc fuel) [] visited incoming y h e =
      ap (λ z. seen start z.visited) (sym (some-injective e)) ∙ h
  loop-HasStart (suc fuel) (q ∷ qs) visited incoming y h e =
      let x : Search = record { queue = qs; visited = visited; incoming_edges = incoming } in
      let next = advance options s start q x in
      loop-HasStart fuel next.queue next.visited next.incoming_edges y (advance-HasStart q x h) e

  initial-HasStart : HasStart (initial options s start)
  initial-HasStart = ground (arith, ==_refl start)

  pub start_returned :
      (r : ReachabilityResult)
      → find_reachable start options s ≡ ok r
      → seen start r.reachable_nodes ≡ options.include_start
  unfolding find_reachable
  start_returned r e =
      let x = initial options s start in
      elim (Option-cases (get start s.nodes)) [
        | inl f ↦ absurd (ground (arith, f, e))
        | inr (n, f) ↦ elim (Option-cases (loop options s start (fuel_of options s start) x)) [
          | inl g ↦ absurd (ground (arith, f, g, e))
          | inr (y, g) ↦
              let has =
                loop-HasStart (fuel_of options s start) x.queue x.visited [] y initial-HasStart g in
              ground (arith, f, g, e, has)
        ]
      ]
