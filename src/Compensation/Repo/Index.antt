-- ===== src/Compensation/Repo/Index.antt =====
-- The secondary indexes agree with the stored actions.
use intent_rebase.Base.{
  ℕ, ◌&&◌, some, none, ◌≡◌, refl, arith, ◌==◌, get, get-insert, held, count, count-append,
  count-retain_ne, retain_ne, [], ◌∷◌,
}
use intent_rebase.Base.Int32
use intent_rebase.Compensation.Action.{CompensationAction, CompensationStatus, status_eq}
use intent_rebase.Compensation.Repo.Defs.{ActionRepo, empty, create, store}

pub record IsIndexed (r : ActionRepo) : Type 0 where
  pub keyed : (k : ℕ) (a : CompensationAction) → get k r.actions ≡ some a → a.id ≡ k
  pub tenants : (t k : ℕ) → count k (r.by_tenant t) ≡ held (λ a. a.tenant_id == t) (get k r.actions)
  pub side_effects :
      (e k : ℕ) → count k (r.by_side_effect e) ≡ held (λ a. a.side_effect_id == e) (get k r.actions)
  pub statuses :
      (t : ℕ) (s : CompensationStatus) (k : ℕ)
      → count k (r.by_status t s)
        ≡ held (λ a. a.tenant_id == t && status_eq a.status s) (get k r.actions)
  pub intents :
      (t i k : ℕ)
      → count k (r.by_intent t i)
        ≡ held (λ a. a.tenant_id == t && a.intent_id == i) (get k r.actions)

pub empty-IsIndexed : IsIndexed empty
unfolding empty
empty-IsIndexed = record {
  keyed = λ k a e. cc;
  tenants = λ t k. refl;
  side_effects = λ e k. refl;
  statuses = λ t s k. refl;
  intents = λ t i k. refl;
}

pub create-IsIndexed :
    (a : CompensationAction) (r : ActionRepo)
    → get a.id r.actions ≡ none
    → IsIndexed r
    → IsIndexed (create a r).1
unfolding create
create-IsIndexed a r fresh h = record {
  keyed = λ k b e. ground (arith, get-insert k a.id a r.actions, h.keyed k b);
  tenants = λ t k. ground (
    arith,
    get-insert k a.id a r.actions,
    count-append k (r.by_tenant t) (a.id ∷ []),
    h.tenants t k,
  );
  side_effects = λ t k. ground (
    arith,
    get-insert k a.id a r.actions,
    count-append k (r.by_side_effect t) (a.id ∷ []),
    h.side_effects t k,
  );
  statuses = λ t s k. ground (
    arith,
    get-insert k a.id a r.actions,
    count-append k (r.by_status t s) (a.id ∷ []),
    h.statuses t s k,
  );
  intents = λ t i k. ground (
    arith,
    get-insert k a.id a r.actions,
    count-append k (r.by_intent t i) (a.id ∷ []),
    h.intents t i k,
  );
}

-- The next version of an action: of the same identifier, tenant, side effect and intent.
pub record Revises (a b : CompensationAction) : Type 0 where
  pub lock_version : b.lock_version ≡ Int32.succ a.lock_version
  pub id : b.id ≡ a.id
  pub tenant_id : b.tenant_id ≡ a.tenant_id
  pub side_effect_id : b.side_effect_id ≡ a.side_effect_id
  pub intent_id : b.intent_id ≡ a.intent_id

store_statuses :
    (id : ℕ) (a b : CompensationAction) (r : ActionRepo)
    → get id r.actions ≡ some a
    → Revises a b
    → IsIndexed r
    → (t : ℕ) (s : CompensationStatus) (k : ℕ)
    → count k ((store id a b r).by_status t s)
      ≡ held (λ c. c.tenant_id == t && status_eq c.status s) (get k (store id a b r).actions)
store_statuses id a b r e same h t s k = ground (
  arith,
  get-insert k id b r.actions,
  h.statuses t s k,
  count-retain_ne k id (r.by_status t s),
  count-append k (r.by_status t s) (id ∷ []),
  count-append k (retain_ne id (r.by_status t s)) (id ∷ []),
)

pub store-IsIndexed :
    (id : ℕ) (a b : CompensationAction) (r : ActionRepo)
    → get id r.actions ≡ some a
    → Revises a b
    → IsIndexed r
    → IsIndexed (store id a b r)
store-IsIndexed id a b r e same h = record {
  keyed = λ k c f. ground (arith, get-insert k id b r.actions, h.keyed k c, h.keyed id a e);
  tenants = λ t k. ground (arith, get-insert k id b r.actions, h.tenants t k);
  side_effects = λ t k. ground (arith, get-insert k id b r.actions, h.side_effects t k);
  statuses = store_statuses id a b r e same h;
  intents = λ t i k. ground (arith, get-insert k id b r.actions, h.intents t i k);
}
