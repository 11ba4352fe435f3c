-- ===== src/Engine/Plan/Checkpoints.antt =====
-- The candidate checkpoints of a plan and the choice among them
-- (crates/rebase-engine/src/planner.rs).
use intent_rebase.Base.{
  is_empty, String, Bool, true, false, not, ◌&&◌, ◌||◌, Option, none, some, List, [], ◌∷◌, ◌++◌,
  any, if◌then◌else◌, str_eq,
}
use intent_rebase.Engine.Plan.Types.{
  DecisionClass, a, b, c, d, e, class_eq, AffectedItemsStatus, available, unavailable,
  AffectedItemsPreview, CheckpointCandidate, CheckpointSelection,
}

abbrev is_available : AffectedItemsStatus → Bool
is_available available = true
is_available unavailable = false

abbrev pub has_affected_items : AffectedItemsPreview → Bool
has_affected_items items =
    is_available items.status
    && (not (is_empty items.affected_artifacts)
        || not (is_empty items.affected_approvals)
        || not (is_empty items.side_effects))

abbrev candidate : String → String → String → CheckpointCandidate
candidate id label description = record {
  id = id;
  label = label;
  description = description;
  validated = false;
}

abbrev pub most_recent : CheckpointCandidate
most_recent =
    candidate "checkpoint-most-recent" "Most Recent Checkpoint"
      "Resume from the most recent checkpoint before changes"

abbrev pub before_invalidation : CheckpointCandidate
before_invalidation =
    candidate "checkpoint-before-invalidation" "Before First Invalidation"
      "Resume before any affected items were invalidated by the changes"

abbrev pub before_side_effects : CheckpointCandidate
before_side_effects =
    candidate "checkpoint-before-side-effects" "Before Side Effects"
      "Resume before any irreversible side effects were triggered by the changes"

abbrev pub last_known_good : CheckpointCandidate
last_known_good =
    candidate "checkpoint-last-known-good" "Last Known Good State"
      "Resume from the last fully validated state before issues began"

abbrev pub minimal : CheckpointCandidate
minimal =
    candidate "checkpoint-minimal" "Minimal Checkpoint"
      "Resume at the minimal checkpoint needed to repair scope changes"

abbrev push_if : Bool → CheckpointCandidate → List CheckpointCandidate → List CheckpointCandidate
push_if true x xs = xs ++ (x ∷ [])
push_if false x xs = xs

abbrev pub candidates_for : DecisionClass → Bool → List CheckpointCandidate
candidates_for class affected =
    if class_eq class a
    then []
    else push_if (class_eq class c) minimal (
        push_if (class_eq class e) last_known_good (
          push_if (class_eq class d || class_eq class e) before_side_effects
            (push_if affected before_invalidation (most_recent ∷ []))))

unfoldable pub compute_checkpoint_candidates :
    DecisionClass → AffectedItemsPreview → List CheckpointCandidate
compute_checkpoint_candidates class items = candidates_for class (has_affected_items items)

abbrev pub has_id : String → CheckpointCandidate → Bool
has_id id x = str_eq x.id id

abbrev offers : List CheckpointCandidate → String → Bool
offers candidates id = any (has_id id) candidates

abbrev selected_id : List CheckpointCandidate → DecisionClass → String
selected_id candidates a = "checkpoint-most-recent"
selected_id candidates b = "checkpoint-most-recent"
selected_id candidates c =
    if offers candidates "checkpoint-minimal"
    then "checkpoint-minimal"
    else "checkpoint-most-recent"
selected_id candidates d =
    if offers candidates "checkpoint-before-side-effects"
    then "checkpoint-before-side-effects"
    else if offers candidates "checkpoint-before-invalidation"
    then "checkpoint-before-invalidation"
    else "checkpoint-most-recent"
selected_id candidates e =
    if offers candidates "checkpoint-last-known-good"
    then "checkpoint-last-known-good"
    else if offers candidates "checkpoint-before-side-effects"
    then "checkpoint-before-side-effects"
    else "checkpoint-most-recent"

abbrev pub find_first : {A : Type 0} → (A → Bool) → List A → Option A
find_first p [] = none
find_first p (x ∷ xs) = let rest = find_first p xs in if p x then some x else rest

-- The arm for class A of the choice by class is not reached.
unfoldable pub select_best_checkpoint :
    List CheckpointCandidate → DecisionClass → Option CheckpointCandidate
select_best_checkpoint candidates class =
    if is_empty candidates || class_eq class a
    then none
    else find_first (has_id (selected_id candidates class)) candidates

unfoldable pub with_heuristic : DecisionClass → AffectedItemsPreview → CheckpointSelection
with_heuristic class items =
    let candidates = compute_checkpoint_candidates class items in
    record {
      ready = false;
      candidates = candidates;
      selected = select_best_checkpoint candidates class;
    }
