-- ===== src/Graph/Classification/Affects.antt =====
-- How a change of a node affects other nodes, and that the queue of the classification follows it.
use intent_rebase.Base.{ℕ, suc, ◌≤◌, true, ◌&&◌, ◌||◌, some, List, get, ◌≡◌, refl, subst, arith}
use intent_rebase.Graph.Types.{
  GraphEdge, NodeType, EdgeType, depends_on, triggers, generated_from, validated_by, edge_type_eq,
  PropagationConfig,
}
use intent_rebase.Graph.Store.{GraphState}
use intent_rebase.Graph.Classification.Defs.{
  ClassifiedNode, Pending, traversable, is_target, seed, incoming, outgoing, impact_at,
}

-- A change of the node is followed to another one, along a stored edge and where the configuration
-- lets it.
pub data Follows (c : PropagationConfig) (s : GraphState) (n : ℕ) : ℕ → Type 0 where
  dependent :
      (k : ℕ) (e : GraphEdge)
      → get k s.edges ≡ some e
      → e.to_node_id ≡ n
      → (edge_type_eq e.edge_type depends_on && traversable c e.edge_type) ≡ true
      → Follows c s n e.from_node_id
  downstream :
      (k : ℕ) (e : GraphEdge)
      → get k s.edges ≡ some e
      → e.from_node_id ≡ n
      → ((edge_type_eq e.edge_type triggers || edge_type_eq e.edge_type generated_from)
          && traversable c e.edge_type)
        ≡ true
      → Follows c s n e.to_node_id

-- A change of the start affects the node, at this many hops.
pub data Affects (c : PropagationConfig) (s : GraphState) (start : ℕ) : ℕ → ℕ → Type 0 where
  directly :
      (k : ℕ) (e : GraphEdge)
      → get k s.edges ≡ some e
      → e.to_node_id ≡ start
      → ((edge_type_eq e.edge_type depends_on || edge_type_eq e.edge_type validated_by)
          && traversable c e.edge_type)
        ≡ true
      → Affects c s start e.from_node_id 1
  further : {n m d : ℕ} → Affects c s start n d → Follows c s n m → Affects c s start m (suc d)

-- What is said of a classified node: it is stored, of a target type, affected at a depth that is
-- allowed, and its impact is direct exactly at depth 1.
pub record IsAffected (c : PropagationConfig) (max : ℕ) (types : List NodeType) (s : GraphState)
    (start : ℕ) (r : ClassifiedNode) : Type 0 where
  pub depth : ℕ
  pub affects : Affects c s start r.node.id depth
  pub within : depth ≤ max
  pub stored : get r.node.id s.nodes ≡ some r.node
  pub target : is_target types r.node ≡ true
  pub impact : r.impact ≡ impact_at depth

pub seed-Affects :
    (c : PropagationConfig) (s : GraphState) (start : ℕ) (e : GraphEdge) (p : Pending)
    → get e.id s.edges ≡ some e
    → e.to_node_id ≡ start
    → seed c e ≡ some p
    → Affects c s start p.node_id p.depth
seed-Affects c s start e p f t h =
    let passes : ((edge_type_eq e.edge_type depends_on || edge_type_eq e.edge_type validated_by)
          && traversable c e.edge_type)
        ≡ true =
      ground arith in
    let node : e.from_node_id ≡ p.node_id = ground arith in
    let depth : 1 ≡ p.depth = ground arith in
    subst (λ n. Affects c s start n p.depth) node
      (subst (λ d. Affects c s start e.from_node_id d) depth (directly e.id e f t passes))

pub incoming-Affects :
    (c : PropagationConfig) (s : GraphState) (start n d : ℕ) (e : GraphEdge) (p : Pending)
    → Affects c s start n d
    → get e.id s.edges ≡ some e
    → e.to_node_id ≡ n
    → incoming c d e ≡ some p
    → Affects c s start p.node_id p.depth
incoming-Affects c s start n d e p a f t h =
    let passes : (edge_type_eq e.edge_type depends_on && traversable c e.edge_type) ≡ true =
      ground arith in
    let node : e.from_node_id ≡ p.node_id = ground arith in
    let depth : suc d ≡ p.depth = ground arith in
    subst (λ n. Affects c s start n p.depth) node
      (subst (λ d. Affects c s start e.from_node_id d) depth
        (further a (dependent e.id e f t passes)))

-- The test of an outgoing edge, with the type that the edge has.
pub outgoing_passes :
    (c : PropagationConfig) (t : EdgeType)
    → ((edge_type_eq t triggers && traversable c triggers)
        || (edge_type_eq t generated_from && traversable c generated_from))
      ≡ ((edge_type_eq t triggers || edge_type_eq t generated_from) && traversable c t)
outgoing_passes c EdgeType.depends_on = refl
outgoing_passes c EdgeType.produces = refl
outgoing_passes c EdgeType.approves = refl
outgoing_passes c EdgeType.triggers = ground arith
outgoing_passes c EdgeType.defines = refl
outgoing_passes c EdgeType.generated_from = ground arith
outgoing_passes c EdgeType.validated_by = refl
outgoing_passes c EdgeType.governed_by = refl
outgoing_passes c EdgeType.derived_from = refl
outgoing_passes c EdgeType.stored_in = refl
outgoing_passes c EdgeType.supersedes = refl
outgoing_passes c EdgeType.blocks = refl
outgoing_passes c EdgeType.compensates = refl

pub outgoing-Affects :
    (c : PropagationConfig) (s : GraphState) (start n d : ℕ) (e : GraphEdge) (p : Pending)
    → Affects c s start n d
    → get e.id s.edges ≡ some e
    → e.from_node_id ≡ n
    → outgoing c d e ≡ some p
    → Affects c s start p.node_id p.depth
outgoing-Affects c s start n d e p a f t h =
    let same = outgoing_passes c e.edge_type in
    let passes : ((edge_type_eq e.edge_type triggers || edge_type_eq e.edge_type generated_from)
          && traversable c e.edge_type)
        ≡ true =
      ground (arith, same) in
    let node : e.to_node_id ≡ p.node_id = ground arith in
    let depth : suc d ≡ p.depth = ground arith in
    subst (λ n. Affects c s start n p.depth) node
      (subst (λ d. Affects c s start e.to_node_id d) depth
        (further a (downstream e.id e f t passes)))
