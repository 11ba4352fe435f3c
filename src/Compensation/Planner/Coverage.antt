-- ===== src/Compensation/Planner/Coverage.antt =====
-- What the planner's actions come to: pairs that the service executes, and executors that accept the
-- side effect of the plan.
use intent_rebase.Base.{
  ℕ, some-injective, zero, suc, map, subst, sym, ◌∙◌, Bool, true, false, some, none, List, [], ◌∷◌,
  filter, not, ◌≡◌, refl, inl, inr, arith, length, Result, ok, err, ==_refl, Option-cases,
}
use mathlib.Core.Path.{ap₂}
use intent_rebase.Compensation.SideEffect.{
  SideEffect, SideEffectClass, s0_pure_read, s1_internal_reversible, s2_external_reversible,
  s3_external_partially_reversible, s4_irreversible, class_eq,
}
use intent_rebase.Compensation.Action.{
  CompensationAction, ExecutionResult, RebaseContext, StrategyType, CompensationFeasibility,
  feasibility_of, from_side_effect, rollback, counter_action, followup_notice, escalation,
  automatic, semi_automatic, manual_only, not_possible, pending, is_service_executable,
}
use intent_rebase.Compensation.Planner.{
  classify_and_plan_action, plan_from_side_effects, plan_from, strategy_of, rationale_of,
}
use intent_rebase.Compensation.Service.{Service, SideEffectRepo, run_executor}

-- The strategy and the feasibility that go with a class of side effects.
pub data IsHandled : SideEffectClass → StrategyType → CompensationFeasibility → Type 0 where
  rolls_back : IsHandled s1_internal_reversible rollback automatic
  counteracts : IsHandled s2_external_reversible counter_action semi_automatic
  follows_up : IsHandled s3_external_partially_reversible followup_notice manual_only
  escalates : IsHandled s4_irreversible escalation not_possible

-- The action planned for a side effect: it names the side effect and its intent, is handled as the
-- class of the side effect asks for, waits for approval, has its whole retry budget, and is of a pair
-- of strategy and feasibility that the service executes.
pub record IsPlanned (now t : ℕ) (c : RebaseContext) (e : SideEffect) (a : CompensationAction)
    : Type 0 where
  pub tenant : a.tenant_id ≡ t
  pub effect : a.side_effect_id ≡ e.id
  pub intent : a.intent_id ≡ e.intent_id
  pub context : a.trigger_context ≡ c
  pub handled : IsHandled e.effect_class a.strategy_type a.feasibility
  pub waiting : a.status ≡ pending
  pub fresh : a.attempt_count ≡ 0
  pub budget : a.max_retries ≡ 3
  pub version : a.lock_version ≡ 0
  pub planned_at : a.generated_at ≡ now
  pub executable : is_service_executable a ≡ true

-- The first numbers of a supply.
abbrev pub taken : (ℕ → ℕ) → ℕ → ℕ → List ℕ
taken new_id n zero = []
taken new_id n (suc k) = new_id n ∷ taken new_id (suc n) k

-- The members of two lists, which are equally long, are related one by one.
abbrev pub Pairwise : {A B : Type 0} → (A → B → Type 0) → List A → List B → Type 0
Pairwise R [] [] = Unit
Pairwise R (x ∷ xs) (y ∷ ys) = R x y × Pairwise R xs ys
Pairwise R _ _ = ⊥

abbrev pub is_effect : SideEffect → Bool
is_effect e = not (class_eq e.effect_class s0_pure_read)

-- The strategy of a class, with the feasibility that the constructor gives.
strategy_of-IsHandled :
    (k : SideEffectClass) (s : StrategyType)
    → strategy_of k ≡ some s
    → IsHandled k s (feasibility_of k)
strategy_of-IsHandled s0_pure_read s h = cc
strategy_of-IsHandled s1_internal_reversible s h =
    subst (λ x. IsHandled s1_internal_reversible x automatic) (some-injective h) rolls_back
strategy_of-IsHandled s2_external_reversible s h =
    subst (λ x. IsHandled s2_external_reversible x semi_automatic) (some-injective h) counteracts
strategy_of-IsHandled s3_external_partially_reversible s h =
    subst (λ x. IsHandled s3_external_partially_reversible x manual_only) (some-injective h)
      follows_up
strategy_of-IsHandled s4_irreversible s h =
    subst (λ x. IsHandled s4_irreversible x not_possible) (some-injective h) escalates

module _ (id now t : ℕ) (e : SideEffect) (c : RebaseContext) where
  abbrev built : StrategyType → CompensationAction
  built s = from_side_effect id now t e c s (rationale_of e.effect_class e c)

  planned_as :
      (s : StrategyType)
      → strategy_of e.effect_class ≡ some s
      → classify_and_plan_action id now t e c ≡ some (built s)
  unfolding classify_and_plan_action
  planned_as s h = rw (h, classify_and_plan_action) refl

  built-IsPlanned :
      (s : StrategyType)
      → strategy_of e.effect_class ≡ some s
      → IsPlanned now t c e (built s) × ((built s).id ≡ id)
  unfolding from_side_effect is_service_executable
  built-IsPlanned s h = (
    record {
      tenant = refl;
      effect = refl;
      intent = refl;
      context = refl;
      handled = strategy_of-IsHandled e.effect_class s h;
      waiting = refl;
      fresh = refl;
      budget = refl;
      version = refl;
      planned_at = refl;
      executable = ground arith;
    },
    refl,
  )

  classify_and_plan_action-IsPlanned :
      (a : CompensationAction)
      → classify_and_plan_action id now t e c ≡ some a
      → IsPlanned now t c e a × (a.id ≡ id)
  unfolding classify_and_plan_action
  classify_and_plan_action-IsPlanned a p = elim (Option-cases (strategy_of e.effect_class)) [
    | inl h ↦ absurd (ground (arith, p, h))
    | inr (s, h) ↦
        subst (λ b. IsPlanned now t c e b × (b.id ≡ id)) (some-injective (sym (planned_as s h) ∙ p))
          (built-IsPlanned s h)
  ]

  planned_some :
      (a : CompensationAction) → classify_and_plan_action id now t e c ≡ some a → is_effect e ≡ true
  unfolding classify_and_plan_action
  planned_some a p = ground arith

  planned_none : classify_and_plan_action id now t e c ≡ none → is_effect e ≡ false
  unfolding classify_and_plan_action
  planned_none p = ground arith

plan_from-IsPlanned :
    (new_id : ℕ → ℕ) (n now t : ℕ) (c : RebaseContext) (es : List SideEffect)
    → let plan = plan_from new_id n now t c es in
      Pairwise (IsPlanned now t c) (filter is_effect es) plan
      × (map (λ a. a.id) plan ≡ taken new_id n (length plan))
plan_from-IsPlanned new_id n now t c [] = (tt, refl)
plan_from-IsPlanned new_id n now t c (e ∷ es) =
    elim (Option-cases (classify_and_plan_action (new_id n) now t e c)) [
      | inl p ↦
          rw (p, planned_none (new_id n) now t e c p, plan_from)
            (plan_from-IsPlanned new_id n now t c es)
      | inr (a, p) ↦
          let (planned, id) = classify_and_plan_action-IsPlanned (new_id n) now t e c a p in
          let (rest, ids) = plan_from-IsPlanned new_id (suc n) now t c es in
          rw (p, planned_some (new_id n) now t e c a p, plan_from)
            ((planned, rest), ap₂ (λ j js. j ∷ js) id ids)
    ]

-- The planner makes one action for each side effect that is no pure read, in their order, and no
-- other: the n-th action is for the n-th of these side effects, whose identifier, intent and rebase it
-- names, with the strategy and the feasibility of its class. It takes the n-th new identifier, is
-- pending at lock version 0, has its whole retry budget, and is executable by the service.
pub plan_from_side_effects-IsPlanned :
    (new_id : ℕ → ℕ) (now t : ℕ) (c : RebaseContext) (es : List SideEffect)
    → let plan = plan_from_side_effects new_id now c es t in
      Pairwise (IsPlanned now t c) (filter is_effect es) plan
      × (map (λ a. a.id) plan ≡ taken new_id 0 (length plan))
unfolding plan_from_side_effects
plan_from_side_effects-IsPlanned new_id now t c es = plan_from-IsPlanned new_id 0 now t c es

abbrev pub succeeded : Result ExecutionResult → Bool
succeeded (ok r) = r.success
succeeded (err e) = false

-- The executor of a planned action succeeds, if the side effect repository gives the side effect
-- that the plan was made from, and it belongs to the tenant.
pub planned_action_succeeds :
    (svc : Service) (repo : SideEffectRepo) (id now later t : ℕ) (e : SideEffect)
    (c : RebaseContext) (a : CompensationAction)
    → svc.side_effect_repo ≡ some repo
    → repo.find_effect e.id ≡ ok e
    → e.tenant_id ≡ t
    → classify_and_plan_action id now t e c ≡ some a
    → succeeded (run_executor svc later a) ≡ true
unfolding run_executor classify_and_plan_action
planned_action_succeeds svc repo id now later t e c a p q same plan = ground (arith, ==_refl t)
