-- ===== src/Orchestrator/Examples.antt =====
-- The theorems on the gate between a plan and its application, at two versions of an intent.
use intent_rebase.Base.{ℕ, [], ◌∷◌, true, inl, ◌≡◌, refl, arith}
use intent_rebase.Engine.Examples.{
  thousandths, first, second, first_diff, first_plan, first_made, first_planned,
}
use intent_rebase.Engine.Diff.Defs.{diff_intent_version, diff_constraints_section, diff_constraints}
use intent_rebase.Engine.Diff.Keyed.{changes}
use intent_rebase.Engine.Revalidation.{classify_approvals}
use intent_rebase.Orchestrator.Pipeline.{blocked_manual_review}
use intent_rebase.Orchestrator.Gate.{outcome_of, weaker_oversight_blocked, policy_change_blocked}
use intent_rebase.Base.{is_empty, false, get, map, filter}
use intent_rebase.Graph.Types.{stale}
use intent_rebase.Graph.Store.History.{History}
use intent_rebase.Graph.Examples.{lineage, lineage-History}
use intent_rebase.Orchestrator.Updater.{update_each, invalidate_artifacts, invalidation_reason}
use intent_rebase.Orchestrator.Settling.{settled}
use intent_rebase.Orchestrator.Updates.{graph_updates_exact, is_stale}

weaker_oversight_blocked_example :
    (outcome_of first_plan ≡ blocked_manual_review)
    × ((classify_approvals first_plan (5 ∷ [])).stale_ids ≡ [])
    × ((classify_approvals first_plan (5 ∷ [])).requires_manual_review ≡ true)
weaker_oversight_blocked_example =
    weaker_oversight_blocked ℕ first second first_diff first_plan (5 ∷ []) first_made first_planned
      (inl ("r1", omega arith))

policy_changed : is_empty first_diff.constraints.policy ≡ false
unfolding diff_intent_version diff_constraints_section diff_constraints changes
policy_changed = refl

policy_change_blocked_example : outcome_of first_plan ≡ blocked_manual_review
policy_change_blocked_example = policy_change_blocked ℕ first_diff policy_changed

graph_updates_exact_example :
    let t = (update_each (9 ∷ 2 ∷ []) stale [] lineage).1 in
    let (signals, u) = invalidate_artifacts (9 ∷ 2 ∷ []) 1 1 2 "ops" 200 lineage in
    (get 2 t.nodes ≡ settled stale (get 2 lineage.nodes))
    × History t
    × (u ≡ (update_each (9 ∷ 2 ∷ []) stale (invalidation_reason 1 1 2) lineage).1)
    × (map (λ x. x.node_id) signals ≡ filter (λ id. is_stale (get id u.nodes)) (9 ∷ 2 ∷ []))
graph_updates_exact_example =
    graph_updates_exact (9 ∷ 2 ∷ []) stale [] 1 1 2 "ops" 200 lineage 2 lineage-History
