-- ===== src/Compensation/Repo/Query.antt =====
-- What the listing queries return, in a repository whose indexes agree with its actions.
use intent_rebase.Base.{
  ℕ, true, ◌&&◌, some, List, map, ◌≡◌, arith, ◌==◌, get, count-fetched, All-fetched, held, count,
  All,
}
use intent_rebase.Compensation.Action.{CompensationAction, CompensationStatus, status_eq}
use intent_rebase.Compensation.Repo.Defs.{ActionRepo, list_by_status, list_by_intent}
use intent_rebase.Compensation.Repo.Index.{IsIndexed}

abbrev pub ids : List CompensationAction → List ℕ
ids = map (λ a. a.id)

status_eq→eq : (a b : CompensationStatus) → status_eq a b ≡ true → a ≡ b
status_eq→eq a b h = ground arith

module _ (r : ActionRepo) (h : IsIndexed r) where
  -- The listing by status returns every stored action of the tenant with the status, held, and no
  -- other action.
  pub list_by_status_exact :
      (t : ℕ) (s : CompensationStatus)
      → ((k : ℕ)
          → count k (ids (list_by_status t s r))
            ≡ held (λ a. a.tenant_id == t && status_eq a.status s) (get k r.actions))
        × All
            (λ a. (get a.id r.actions ≡ some a) × (a.tenant_id ≡ t) × (a.status ≡ s))
            (list_by_status t s r)
  unfolding list_by_status
  list_by_status_exact t s = (
    λ k.
        ground (
          arith,
          count-fetched (λ a. a.id) r.actions h.keyed k (r.by_status t s),
          h.statuses t s k,
        ),
    All-fetched (λ a. a.id) r.actions h.keyed _ (r.by_status t s)
        (λ k a p e. ground (arith, h.statuses t s k, h.keyed k a e, status_eq→eq a.status s)),
  )

  -- The listing by intent, likewise.
  pub list_by_intent_exact :
      (t i : ℕ)
      → ((k : ℕ)
          → count k (ids (list_by_intent i t r))
            ≡ held (λ a. a.tenant_id == t && a.intent_id == i) (get k r.actions))
        × All
            (λ a. (get a.id r.actions ≡ some a) × (a.tenant_id ≡ t) × (a.intent_id ≡ i))
            (list_by_intent i t r)
  unfolding list_by_intent
  list_by_intent_exact t i = (
    λ k.
        ground
          (arith, count-fetched (λ a. a.id) r.actions h.keyed k (r.by_intent t i), h.intents t i k),
    All-fetched (λ a. a.id) r.actions h.keyed _ (r.by_intent t i)
        (λ k a p e. ground (arith, h.intents t i k, h.keyed k a e)),
  )
