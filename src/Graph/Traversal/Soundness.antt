-- ===== src/Graph/Traversal/Soundness.antt =====
-- What `find_reachable` returns: nodes at the end of a walk.
use intent_rebase.Base.{
  ℕ, ◌≤◌, suc, zero, Bool, false, not, ◌&&◌, Option, none, some, List, [], ◌∷◌, map, filter, All,
  All-append, ◌≡◌, refl, inl, inr, arith, get, Bool-cases, ok,
}
use intent_rebase.Graph.Types.{GraphNode, TraversalOptions, ReachabilityResult}
use intent_rebase.Graph.Store.{GraphState, list_edges_from}
use intent_rebase.Graph.Store.Integrity.{HasEnd, IsSound}
use intent_rebase.Graph.Store.Isolation.{Walk, here, along, Walk-HasEnd, list_edges_from_exact}
use intent_rebase.Graph.Traversal.Defs.{
  Entry, entry_of, Search, edge_passes_filter, successors, admitted, expanded, too_deep,
  at_max_depth, seen, advance, loop, initial, fuel_of, find_reachable,
}
use intent_rebase.Graph.Traversal.Fuel.{potential, advance-potential, initial-potential}

-- A depth that the option allows.
abbrev pub Within : Option ℕ → ℕ → Type 0
Within none d = Unit
Within (some max) d = d ≤ max

no_hops : (max : Option ℕ) → Within max 0
no_hops none = tt
no_hops (some max) = omega arith

-- A node at the end of a walk from the start of at most the greatest depth.
pub record IsReached (options : TraversalOptions) (s : GraphState) (start n : ℕ) : Type 0 where
  pub hops : ℕ
  pub walk : Walk s start n hops
  pub within : Within options.max_depth hops

-- The queue holds ends of walks, with their lengths, and the visited nodes are reached.
record IsSearched (options : TraversalOptions) (s : GraphState) (start : ℕ) (x : Search)
    : Type 0 where
  pub queued : All (λ q. Walk s start q.node_id q.depth) x.queue
  pub reached : All (IsReached options s start) x.visited

pub All-map :
    {A : Type 0} (P Q : A → Type 0) (xs : List A) → ((a : A) → P a → Q a) → All P xs → All Q xs
All-map P Q [] g h = tt
All-map P Q (x ∷ xs) g (h, hs) = (g x h, All-map P Q xs g hs)

All-filter-map :
    {A B : Type 0} (P : A → Type 0) (Q : B → Type 0) (f : A → B) (p : A → Bool) (xs : List A)
    → ((a : A) → P a → Q (f a))
    → All P xs
    → All Q (map f (filter p xs))
All-filter-map P Q f p [] g h = tt
All-filter-map P Q f p (x ∷ xs) g (h, hs) =
    let rest = All-filter-map P Q f p xs g hs in
    elim (Bool-cases (p x)) [
      | inl is ↦ rw (is, filter) (g x h, rest)
      | inr other ↦ rw (other, filter) rest
    ]

successors-Walk :
    (options : TraversalOptions) (s : GraphState) (start n d : ℕ)
    → IsSound s
    → Walk s start n d
    → All (λ q. Walk s start q.node_id q.depth) (successors options s n (suc d))
successors-Walk options s start n d h walk =
    All-filter-map _ (λ q. Walk s start q.node_id q.depth) (entry_of (suc d))
      (edge_passes_filter options) (list_edges_from n s) (λ e (f, p, r). along e.id e walk f p)
      (list_edges_from_exact s h n).1

expanded-Walk :
    (options : TraversalOptions) (s : GraphState) (start : ℕ) (q : Entry)
    → IsSound s
    → Walk s start q.node_id q.depth
    → All (λ p. Walk s start p.node_id p.depth) (expanded options s q)
expanded-Walk options s start q h walk =
    elim (Bool-cases (at_max_depth options.max_depth q.depth)) [
      | inl deep ↦ rw deep tt
      | inr other ↦ rw other (successors-Walk options s start q.node_id q.depth h walk)
    ]

not_too_deep : (max : Option ℕ) (d : ℕ) → too_deep max d ≡ false → Within max d
not_too_deep none d e = tt
not_too_deep (some max) d e = ground arith

advance-IsSearched :
    (options : TraversalOptions) (s : GraphState) (start : ℕ) (q : Entry) (x : Search)
    → IsSound s
    → Walk s start q.node_id q.depth
    → IsSearched options s start x
    → IsSearched options s start (advance options s start q x)
unfolding advance
advance-IsSearched options s start q x h walk i =
    elim (Bool-cases (admitted options s start q && not (seen q.node_id x.visited))) [
      | inl new ↦ rw new (record {
        queued =
            All-append _ x.queue (expanded options s q) i.queued
              (expanded-Walk options s start q h walk);
        reached = (
          record {
            hops = q.depth;
            walk = walk;
            within = not_too_deep options.max_depth q.depth (ground arith);
          },
          i.reached,
        );
      })
      | inr old ↦ rw old i
    ]

-- The search ends with enough fuel, and keeps what it found.
loop-IsSearched :
    (options : TraversalOptions) (s : GraphState) (start t w fuel : ℕ) (queue : List Entry)
    (visited incoming : List ℕ)
    → let x : Search = record { queue = queue; visited = visited; incoming_edges = incoming } in
      IsSound s
      → HasEnd s start t w
      → IsSearched options s start x
      → potential s x ≤ fuel
      → (y : Search) × (loop options s start fuel x ≡ some y) × IsSearched options s start y
unfolding loop potential
loop-IsSearched options s start t w zero [] visited incoming h from i enough = (_, refl, i)
loop-IsSearched options s start t w zero (q ∷ qs) visited incoming h from i enough =
    absurd (omega (arith, enough))
loop-IsSearched options s start t w (suc fuel) [] visited incoming h from i enough = (_, refl, i)
loop-IsSearched options s start t w (suc fuel) (q ∷ qs) visited incoming h from i enough =
    let x : Search = record { queue = qs; visited = visited; incoming_edges = incoming } in
    let next = advance options s start q x in
    let (walk, walks) = i.queued in
    let end = Walk-HasEnd h walk from in
    loop-IsSearched options s start t w fuel next.queue next.visited next.incoming_edges h from
      (advance-IsSearched options s start q x h walk
        (record { queued = walks; reached = i.reached }))
      (omega (arith, enough, advance-potential options s start q x end.node end.found))

initial-IsSearched :
    (options : TraversalOptions) (s : GraphState) (start : ℕ)
    → IsSound s
    → IsSearched options s start (initial options s start)
unfolding edge_passes_filter
initial-IsSearched options s start h =
    let queued = successors-Walk options s start start 0 h here in
    elim (Bool-cases options.include_start) [
      | inl with ↦ rw with (record {
        queued = queued;
        reached = (record { hops = 0; walk = here; within = no_hops options.max_depth }, tt);
      })
      | inr without ↦ rw without (record { queued = queued; reached = tt })
    ]

-- In a sound store, a search from a stored node ends and returns a result. Every node of the result is
-- at the end of a walk along stored edges from the start, of at most the greatest depth, and is a
-- stored node of the tenant and the workflow of the start.
pub find_reachable_sound :
    (options : TraversalOptions) (s : GraphState) (start : ℕ) (n : GraphNode)
    → IsSound s
    → get start s.nodes ≡ some n
    → (r : ReachabilityResult) × (find_reachable start options s ≡ ok r)
      × All
          (λ m. IsReached options s start m × HasEnd s m n.tenant_id n.workflow_id)
          r.reachable_nodes
unfolding find_reachable
find_reachable_sound options s start n h e =
    let from : HasEnd s start n.tenant_id n.workflow_id = record {
      node = n;
      found = e;
      tenant = refl;
      workflow = refl;
    } in
    let x = initial options s start in
    let (y, done, i) =
      loop-IsSearched options s start n.tenant_id n.workflow_id (fuel_of options s start) x.queue
        x.visited [] h from (initial-IsSearched options s start h)
        (initial-potential options s start) in
    (
      record { reachable_nodes = y.visited; incoming_edges = y.incoming_edges },
      ground (arith, e, done),
      All-map _ _ y.visited (λ m g. (g, Walk-HasEnd h g.walk from)) i.reached,
    )
