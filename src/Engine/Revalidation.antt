-- ===== src/Engine/Revalidation.antt =====
-- The approvals that a plan makes stale (crates/rebase-engine/src/approval_revalidation.rs). The
-- identifier of an approval is the text of a `Uuid` in the code, and that number here.
use intent_rebase.Base.{
  ℕ, Bool, true, false, ◌&&◌, none, some, List, [], ◌∷◌, map, filter, any, ◌==◌, ==_refl, All,
  All-filter, Bool-cases, ◌≡◌, ◌≢◌, ◌↔◌, ◌⊎◌, inl, inr, arith, if◌then◌else◌,
}
use intent_rebase.Engine.Types.{RiskTier, low, medium, high, critical}
use intent_rebase.Engine.Plan.Types.{
  DecisionClass, a, b, c, d, e, class_eq, AffectedItem, RebasePlan, RevalidationStrategy, deferred,
  full, incremental, drop, log_notify, ApprovalNeedingRevalidation,
}
use intent_rebase.Engine.Plan.Defs.{is_affecting, revalidation_of}

pub record ApprovalRevalidationResult : Type 0 where
  pub strategy : RevalidationStrategy
  pub stale_ids : List ℕ
  pub revalidation_required : List ApprovalNeedingRevalidation
  pub requires_manual_review : Bool

abbrev pub correlation_id : AffectedItem → ℕ
correlation_id item = elim item.external_ref [ none ↦ item.node_id | some ext ↦ ext.ref_id ]

abbrev pub affected : RebasePlan → List AffectedItem
affected plan = filter (λ item. is_affecting item.impact) plan.affected_items.affected_approvals

unfoldable pub compute_affected_approval_ids : RebasePlan → List ℕ
compute_affected_approval_ids plan = map correlation_id (affected plan)

abbrev pub contains : ℕ → List ℕ → Bool
contains id ids = any (λ x. x == id) ids

abbrev outcome :
    RevalidationStrategy
    → List ℕ
    → List ApprovalNeedingRevalidation
    → Bool
    → ApprovalRevalidationResult
outcome strategy stale required review = record {
  strategy = strategy;
  stale_ids = stale;
  revalidation_required = required;
  requires_manual_review = review;
}

abbrev is_high_tier : RiskTier → Bool
is_high_tier high = true
is_high_tier _ = false

-- The rules by class, where the tier is high.
abbrev by_class : RebasePlan → List ℕ → List ℕ → DecisionClass → ApprovalRevalidationResult
by_class plan current stale a =
    let use_incremental = is_high_tier plan.risk_tier && class_eq plan.decision_class a in
    outcome (if use_incremental then incremental else drop)
      (if use_incremental then stale else current) [] false
by_class plan current stale b =
    outcome incremental stale (map revalidation_of (affected plan)) false
by_class plan current stale c = outcome full stale (map revalidation_of (affected plan)) false
by_class plan current stale d = outcome full stale (map revalidation_of (affected plan)) true
by_class plan current stale e = outcome deferred [] [] true

abbrev by_tier : RebasePlan → List ℕ → List ℕ → RiskTier → ApprovalRevalidationResult
by_tier plan current stale critical = outcome full current [] true
by_tier plan current stale medium = outcome log_notify [] [] false
by_tier plan current stale low = outcome incremental [] [] false
by_tier plan current stale high = by_class plan current stale plan.decision_class

unfoldable pub classify_approvals : RebasePlan → List ℕ → ApprovalRevalidationResult
classify_approvals plan current =
    let stale = filter (λ id. contains id current) (compute_affected_approval_ids plan) in
    if class_eq plan.decision_class e
    then outcome deferred [] [] true
    else by_tier plan current stale plan.risk_tier

All-contains-∷ :
    (y : ℕ) (xs ys : List ℕ)
    → All (λ id. contains id ys ≡ true) xs
    → All (λ id. contains id (y ∷ ys) ≡ true) xs
All-contains-∷ y [] ys h = tt
All-contains-∷ y (x ∷ xs) ys (h, hs) = (ground arith, All-contains-∷ y xs ys hs)

contains-All : (xs : List ℕ) → All (λ id. contains id xs ≡ true) xs
contains-All [] = tt
contains-All (x ∷ xs) = (ground (arith, ==_refl x), All-contains-∷ x xs xs (contains-All xs))

-- The two lists that the rules choose from.
module _ (current stale : List ℕ) (h : All (λ id. contains id current ≡ true) stale) where
  abbrev Current : List ℕ → Type 0
  Current ids = All (λ id. contains id current ≡ true) ids

  by_class-Current :
      (plan : RebasePlan) (tier : RiskTier) (class : DecisionClass)
      → Current (if is_high_tier tier && class_eq class a then stale else current)
  by_class-Current plan high a = h
  by_class-Current plan low class = contains-All current
  by_class-Current plan medium class = contains-All current
  by_class-Current plan critical class = contains-All current
  by_class-Current plan high b = contains-All current
  by_class-Current plan high c = contains-All current
  by_class-Current plan high d = contains-All current
  by_class-Current plan high e = contains-All current

  by_class-stale :
      (plan : RebasePlan) (class : DecisionClass)
      → Current (by_class plan current stale class).stale_ids
  by_class-stale plan a = by_class-Current plan plan.risk_tier plan.decision_class
  by_class-stale plan b = h
  by_class-stale plan c = h
  by_class-stale plan d = h
  by_class-stale plan e = tt

  by_tier-stale :
      (plan : RebasePlan) (tier : RiskTier) → Current (by_tier plan current stale tier).stale_ids
  by_tier-stale plan critical = contains-All current
  by_tier-stale plan medium = tt
  by_tier-stale plan low = tt
  by_tier-stale plan high = by_class-stale plan plan.decision_class

stale_current :
    (plan : RebasePlan) (current : List ℕ)
    → All (λ id. contains id current ≡ true) (classify_approvals plan current).stale_ids
unfolding classify_approvals
stale_current plan current =
    let ids = compute_affected_approval_ids plan in
    let stale = filter (λ id. contains id current) ids in
    let kept =
      by_tier-stale current stale (All-filter (λ id. contains id current) ids) plan
        plan.risk_tier in
    elim (Bool-cases (class_eq plan.decision_class e)) [
      | inl is ↦ rw (is, if◌then◌else◌) tt
      | inr other ↦ rw (other, if◌then◌else◌) kept
    ]

revalidation_review :
    (plan : RebasePlan) (current : List ℕ)
    → let r = classify_approvals plan current in
      (r.strategy ≢ drop)
      × ((r.requires_manual_review ≡ true) ↔ (
          (plan.decision_class ≡ e)
          ⊎ (plan.risk_tier ≡ critical)
          ⊎ ((plan.decision_class ≡ d) × (plan.risk_tier ≡ high))))
unfolding classify_approvals
revalidation_review plan current = ground arith

-- The approvals that are made stale are current ones. No approval is dropped for a trivial change:
-- the strategy `Drop` is never chosen. A manual review is asked for just in class E, in the critical
-- tier, and in class D of the high tier.
pub classify_approvals_lem :
    (plan : RebasePlan) (current : List ℕ)
    → let r = classify_approvals plan current in
      All (λ id. contains id current ≡ true) r.stale_ids
      × (r.strategy ≢ drop)
      × ((r.requires_manual_review ≡ true) ↔ (
          (plan.decision_class ≡ e)
          ⊎ (plan.risk_tier ≡ critical)
          ⊎ ((plan.decision_class ≡ d) × (plan.risk_tier ≡ high))))
classify_approvals_lem plan current =
    let review = revalidation_review plan current in
    (stale_current plan current, review.0, review.1)
