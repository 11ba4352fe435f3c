-- ===== src/Engine/Plan/Choice.antt =====
-- The checkpoint that a plan selects.
use intent_rebase.Base.{
  Bool, true, false, Option, none, some, List, [], ◌≡◌, refl, Member, inl, inr,
}
use intent_rebase.Engine.Plan.Types.{
  DecisionClass, a, b, c, d, e, AffectedItemsPreview, CheckpointCandidate,
}
use intent_rebase.Engine.Plan.Checkpoints.{
  most_recent, before_side_effects, last_known_good, minimal, has_affected_items, candidates_for,
  compute_checkpoint_candidates, select_best_checkpoint, with_heuristic,
}

-- The checkpoint of each class.
abbrev pub wanted : DecisionClass → Option CheckpointCandidate
wanted a = none
wanted b = some most_recent
wanted c = some minimal
wanted d = some before_side_effects
wanted e = some last_known_good

abbrev pub Offered : Option CheckpointCandidate → List CheckpointCandidate → Type 0
Offered none xs = xs ≡ []
Offered (some x) xs = Member x xs

choice_for :
    (class : DecisionClass) (affected : Bool)
    → let xs = candidates_for class affected in
      (select_best_checkpoint xs class ≡ wanted class)
      × Offered (select_best_checkpoint xs class) xs
unfolding select_best_checkpoint
choice_for a affected = (refl, refl)
choice_for b true = (refl, inl refl)
choice_for b false = (refl, inl refl)
choice_for c true = (refl, inr (inr (inl refl)))
choice_for c false = (refl, inr (inl refl))
choice_for d true = (refl, inr (inr (inl refl)))
choice_for d false = (refl, inr (inl refl))
choice_for e true = (refl, inr (inr (inr (inl refl))))
choice_for e false = (refl, inr (inr (inl refl)))

-- The choice does not depend on the affected items: it is the checkpoint of the class, which stands
-- among the candidates; class A has no candidate and no choice. No selection is ready.
pub checkpoint_of_class :
    (class : DecisionClass) (items : AffectedItemsPreview)
    → let s = with_heuristic class items in
      (s.selected ≡ wanted class) × Offered s.selected s.candidates × (s.ready ≡ false)
unfolding with_heuristic compute_checkpoint_candidates
checkpoint_of_class class items =
    let found = choice_for class (has_affected_items items) in (found.0, found.1, refl)
