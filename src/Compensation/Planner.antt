-- ===== src/Compensation/Planner.antt =====
-- The two planners of crates/compensation-service/src/compensation_planner.rs: the one that routes by
-- the class of a side effect (`BoundedCompensationPlanner`), which the service uses, and the older one
-- (`InMemoryCompensationPlanner`). The n-th identifier that `Uuid::new_v4` gives is an argument,
-- `new_id n`.
pub mod Coverage
use intent_rebase.Base.{
  ℕ, suc, Option, some, none, List, [], ◌∷◌, Message, lit, int, uuid, Result, ok,
}
use intent_rebase.Compensation.SideEffect.{
  SideEffect, SideEffectClass, s0_pure_read, s1_internal_reversible, s2_external_reversible,
  s3_external_partially_reversible, s4_irreversible,
}
use intent_rebase.Compensation.Action.{
  CompensationAction, RebaseContext, StrategyType, rollback, counter_action, followup_notice,
  escalation, from_side_effect, new_action, manual_only,
}

-- " for rebase v{} -> v{}".
for_rebase : RebaseContext → Message → Message
for_rebase c rest = lit " for rebase v" ∷ int c.from_version ∷ lit " -> v" ∷ int c.to_version ∷ rest

-- The strategy of a class, none for a pure read.
abbrev pub strategy_of : SideEffectClass → Option StrategyType
strategy_of s0_pure_read = none
strategy_of s1_internal_reversible = some rollback
strategy_of s2_external_reversible = some counter_action
strategy_of s3_external_partially_reversible = some followup_notice
strategy_of s4_irreversible = some escalation

unfoldable pub rationale_of : SideEffectClass → SideEffect → RebaseContext → Message
unfolding for_rebase
rationale_of s0_pure_read e c = []
rationale_of s1_internal_reversible e c =
    lit "Auto rollback internal reversible effect '" ∷ lit e.effect_type ∷ lit "'" ∷ for_rebase c []
rationale_of s2_external_reversible e c =
    lit "Counter-action for external reversible effect '"
    ∷ lit e.effect_type
    ∷ lit "' targeting "
    ∷ lit e.target
    ∷ for_rebase c []
rationale_of s3_external_partially_reversible e c =
    lit "Send followup notice for partially reversible effect '"
    ∷ lit e.effect_type
    ∷ lit "' targeting "
    ∷ lit e.target
    ∷ lit " - manual intervention required"
    ∷ for_rebase c []
rationale_of s4_irreversible e c =
    lit "ESCALATION: Irreversible effect '"
    ∷ lit e.effect_type
    ∷ lit "' targeting "
    ∷ lit e.target
    ∷ lit " cannot be compensated"
    ∷ for_rebase c (lit " - manual investigation required" ∷ [])

unfoldable pub classify_and_plan_action :
    ℕ → ℕ → ℕ → SideEffect → RebaseContext → Option CompensationAction
unfolding rationale_of from_side_effect
classify_and_plan_action id now tenant_id e c = elim (strategy_of e.effect_class) [
  | none ↦ none
  | some strategy ↦
      some (from_side_effect id now tenant_id e c strategy (rationale_of e.effect_class e c))
]

-- `filter_map` over the side effects; only a planned action takes an identifier.
abbrev plan_from : (ℕ → ℕ) → ℕ → ℕ → ℕ → RebaseContext → List SideEffect → List CompensationAction
plan_from new_id n now tenant_id c [] = []
plan_from new_id n now tenant_id c (e ∷ es) =
    elim (classify_and_plan_action (new_id n) now tenant_id e c) [
      | none ↦ plan_from new_id n now tenant_id c es
      | some a ↦ a ∷ plan_from new_id (suc n) now tenant_id c es
    ]

unfoldable pub plan_from_side_effects :
    (ℕ → ℕ) → ℕ → RebaseContext → List SideEffect → ℕ → List CompensationAction
plan_from_side_effects new_id now c side_effects tenant_id =
    plan_from new_id 0 now tenant_id c side_effects

pub record InMemoryCompensationPlanner : Type 0 where
  pub default_strategy : StrategyType

abbrev pub with_rollback_default : InMemoryCompensationPlanner
with_rollback_default = record { default_strategy = rollback }

abbrev plan_ids :
    InMemoryCompensationPlanner
    → (ℕ → ℕ)
    → ℕ
    → ℕ
    → RebaseContext
    → List ℕ
    → ℕ
    → List CompensationAction
plan_ids planner new_id n now c [] tenant_id = []
plan_ids planner new_id n now c (side_effect_id ∷ ids) tenant_id =
    new_action (new_id n) now tenant_id side_effect_id c.intent_id c manual_only
      planner.default_strategy
      (lit "Compensation for rebase "
        ∷ int c.from_version
        ∷ lit " -> "
        ∷ int c.to_version
        ∷ lit " on intent "
        ∷ uuid c.intent_id
        ∷ [])
    ∷ plan_ids planner new_id (suc n) now c ids tenant_id

unfoldable pub plan :
    InMemoryCompensationPlanner
    → (ℕ → ℕ)
    → ℕ
    → RebaseContext
    → List ℕ
    → ℕ
    → Result (List CompensationAction)
unfolding new_action
plan planner new_id now c side_effect_ids tenant_id =
    ok (plan_ids planner new_id 0 now c side_effect_ids tenant_id)
