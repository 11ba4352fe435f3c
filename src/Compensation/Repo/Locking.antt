-- ===== src/Compensation/Repo/Locking.antt =====
-- Optimistic locking: what an update reads and writes under the lock version of its caller.
use intent_rebase.Base.{
  ℕ, String, Option, some, ◌≡◌, refl, sym, subst, inl, inr, arith, ◌==◌, get, Option-cases,
  Bool-cases, Result, ok, err, Error, compensation_action_not_found, concurrency_conflict,
}
use intent_rebase.Compensation.Action.{
  CompensationAction, CompensationStatus, ExecutionResult, status_eq, failed,
}
use intent_rebase.Compensation.Repo.Defs.{
  ActionRepo, locked, store, update_status, record_result, reapprove, with_status, with_result,
  reapproved,
}
use intent_rebase.Compensation.Repo.Index.{Revises, IsIndexed, store-IsIndexed}

-- The checks at the head of an update either refuse, or give the stored action.
pub data Locked (id version : ℕ) (r : ActionRepo) : Type 0 where
  refused : (e : Error) → locked id version r ≡ err e → Locked id version r
  held :
      (a : CompensationAction)
      → get id r.actions ≡ some a
      → a.lock_version ≡ version
      → locked id version r ≡ ok a
      → Locked id version r

pub Locked-cases : (id version : ℕ) (r : ActionRepo) → Locked id version r
Locked-cases id version r = elim (Option-cases (get id r.actions)) [
  | inl e ↦ refused (compensation_action_not_found id) (ground arith)
  | inr (a, e) ↦ elim (Bool-cases (a.lock_version == version)) [
    | inl same ↦ held a e (ground arith) (ground arith)
    | inr other ↦ refused (concurrency_conflict id) (ground arith)
  ]
]

pub with_status-Revises :
    (s : CompensationStatus) (now : ℕ) (approved_by waived_by : Option String)
    (a : CompensationAction)
    → Revises a (with_status s now approved_by waived_by a)
unfolding with_status
with_status-Revises s now approved_by waived_by a = ground arith

pub with_result-Revises :
    (result : ExecutionResult) (by : Option String) (a : CompensationAction)
    → Revises a (with_result result by a)
unfolding with_result
with_result-Revises result by a = ground arith

pub reapproved-Revises : (a : CompensationAction) → Revises a (reapproved a)
unfolding reapproved
reapproved-Revises a = ground arith

-- An update that succeeds, under the caller's lock version, replaces the action `id` by its revision
-- `change`, which it returns.
pub record Updates (id version : ℕ) (change : CompensationAction → CompensationAction)
    (r s : ActionRepo) (b : CompensationAction) : Type 0 where
  pub before : CompensationAction
  pub found : get id r.actions ≡ some before
  pub version_held : before.lock_version ≡ version
  pub changed : b ≡ change before
  pub revises : Revises before b
  pub applied : s ≡ store id before b r

-- What an update does: an error leaves the repository as it was.
pub data Outcome (id version : ℕ) (change : CompensationAction → CompensationAction)
    (r : ActionRepo) : Result CompensationAction × ActionRepo → Type 0 where
  unchanged : (e : Error) → Outcome id version change r (err e, r)
  updated :
      (b : CompensationAction) (s : ActionRepo)
      → Updates id version change r s b
      → Outcome id version change r (ok b, s)

change-Outcome :
    (id version : ℕ) (change : CompensationAction → CompensationAction) (r : ActionRepo)
    (a : CompensationAction)
    → get id r.actions ≡ some a
    → a.lock_version ≡ version
    → Revises a (change a)
    → Outcome id version change r (ok (change a), store id a (change a) r)
change-Outcome id version change r a e v k = updated _ _ (record {
  before = a;
  found = e;
  version_held = v;
  changed = refl;
  revises = k;
  applied = refl;
})

-- `update_status` makes one update under the lock or changes nothing.
pub update_status-Outcome :
    (now id : ℕ) (s : CompensationStatus) (version : ℕ) (approved_by waived_by : Option String)
    (r : ActionRepo)
    → Outcome id version
        (with_status s now approved_by waived_by)
        r
        (update_status now id s version approved_by waived_by r)
unfolding update_status
update_status-Outcome now id s version approved_by waived_by r = elim (Locked-cases id version r) [
  | refused e f ↦ rw (f, update_status) (unchanged e)
  | held a e v f ↦
      rw (f, update_status)
        (change-Outcome id version (with_status s now approved_by waived_by) r a e v
          (with_status-Revises s now approved_by waived_by a))
]

-- So does `record_result`.
pub record_result-Outcome :
    (id : ℕ) (result : ExecutionResult) (version : ℕ) (by : Option String) (r : ActionRepo)
    → Outcome id version (with_result result by) r (record_result id result version by r)
unfolding record_result
record_result-Outcome id result version by r = elim (Locked-cases id version r) [
  | refused e f ↦ rw (f, record_result) (unchanged e)
  | held a e v f ↦
      rw (f, record_result)
        (change-Outcome id version (with_result result by) r a e v
          (with_result-Revises result by a))
]

-- So does `reapprove`.
pub reapprove-Outcome :
    (id version : ℕ) (r : ActionRepo) → Outcome id version reapproved r (reapprove id version r)
unfolding reapprove
reapprove-Outcome id version r = elim (Locked-cases id version r) [
  | refused e f ↦ rw (f, reapprove) (unchanged e)
  | held a e v f ↦ elim (Bool-cases (status_eq a.status failed)) [
    | inl is ↦
        rw (f, is, reapprove) (change-Outcome id version reapproved r a e v (reapproved-Revises a))
    | inr other ↦ rw (f, other, reapprove) (unchanged _)
  ]
]

-- Every update keeps the indexes in agreement with the actions.
pub Outcome-IsIndexed :
    {id version : ℕ} {change : CompensationAction → CompensationAction} {r : ActionRepo}
    {result : Result CompensationAction × ActionRepo}
    → Outcome id version change r result
    → IsIndexed r
    → IsIndexed result.1
Outcome-IsIndexed (unchanged e) h = h
Outcome-IsIndexed {id} {r = r} (updated b s u) h =
    subst IsIndexed (sym u.applied) (store-IsIndexed id u.before b r u.found u.revises h)
