-- ===== src/Compensation/Service/Locality.antt =====
-- A call on one action leaves every other action as it is.
use intent_rebase.Base.{
  ℕ, String, false, Option, none, ◌≡◌, refl, inl, inr, arith, ◌==◌, get, get-insert, Result,
}
use intent_rebase.Compensation.Action.{CompensationAction, approved}
use intent_rebase.Compensation.Repo.{ActionRepo}
use intent_rebase.Compensation.Repo.Locking.{
  Outcome, unchanged, updated, update_status-Outcome, record_result-Outcome, reapprove-Outcome,
}
use intent_rebase.Compensation.Service.Defs.{
  Service, World, approve_action, execute_action, reapprove_action,
}
use intent_rebase.Compensation.Service.Steps.{approve_cases, execute_cases, reapprove_cases}

Outcome-other :
    {id v : ℕ} {change : CompensationAction → CompensationAction} {r : ActionRepo}
    {x : Result CompensationAction × ActionRepo}
    → Outcome id v change r x
    → (k : ℕ) → (k == id) ≡ false
    → get k x.1.actions ≡ get k r.actions
Outcome-other (unchanged e) k other = refl
Outcome-other {id} {r = r} (updated b s u) k other =
    rw u.applied (ground (arith, get-insert k id b r.actions))

module _ (w : World) (k id : ℕ) (other : (k == id) ≡ false) where
  pub approve-other :
      (now v : ℕ) (by : Option String)
      → get k (approve_action now id v by w).1.repo.actions ≡ get k w.repo.actions
  approve-other now v by = elim (approve_cases now id v by w) [
    | inl same ↦ rw same refl
    | inr (a, e, p, same) ↦
        rw same (Outcome-other (update_status-Outcome now id approved v by none w.repo) k other)
  ]

  pub reapprove-other :
      (v : ℕ) → get k (reapprove_action id v w).1.repo.actions ≡ get k w.repo.actions
  reapprove-other v = elim (reapprove_cases id v w) [
    | inl same ↦ rw same refl
    | inr (a, e, p, n, same) ↦ rw same (Outcome-other (reapprove-Outcome id v w.repo) k other)
  ]

  pub execute-other :
      (svc : Service) (now : ℕ) (by : Option String)
      → get k (execute_action svc now id by w).1.repo.actions ≡ get k w.repo.actions
  execute-other svc now by = elim (execute_cases svc now id by w) [
    | inl same ↦ rw same refl
    | inr (a, result, e, p, f, same) ↦
        rw same (Outcome-other (record_result-Outcome id result a.lock_version by w.repo) k other)
  ]
