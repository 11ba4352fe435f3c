-- ===== src/Compensation/Repo/History.antt =====
-- The repository over time: its indexes after any history, and two callers with one lock version.
use intent_rebase.Base.{
  ℕ, String, Option, none, ◌≡◌, ◌≢◌, sym, ap, arith, get, get-insert, Result, ok, err,
  concurrency_conflict, Act, Error, ok-injective,
}
use mathlib.Core.Path.{subst₂}
use intent_rebase.Base.Int32
use intent_rebase.Compensation.Action.{CompensationAction, CompensationStatus, ExecutionResult}
use intent_rebase.Compensation.Repo.Defs.{
  ActionRepo, empty, create, locked, update_status, record_result, reapprove, with_status,
  with_result, reapproved,
}
use intent_rebase.Compensation.Repo.Index.{IsIndexed, empty-IsIndexed, create-IsIndexed}
use intent_rebase.Compensation.Repo.Locking.{
  Outcome, unchanged, updated, Updates, update_status-Outcome, record_result-Outcome,
  reapprove-Outcome, Outcome-IsIndexed,
}

-- A write under a lock version.
pub data Write : Type 0 where
  sets_status : ℕ → CompensationStatus → Option String → Option String → Write
  records : ExecutionResult → Option String → Write
  reapproves : Write

unfoldable pub write : ℕ → ℕ → Write → Act ActionRepo CompensationAction
write id version (sets_status now s approved_by waived_by) =
    update_status now id s version approved_by waived_by
write id version (records result by) = record_result id result version by
write id version reapproves = reapprove id version

change_of : Write → CompensationAction → CompensationAction
change_of (sets_status now s approved_by waived_by) = with_status s now approved_by waived_by
change_of (records result by) = with_result result by
change_of reapproves = reapproved

write-Outcome :
    (id version : ℕ) (w : Write) (r : ActionRepo)
    → Outcome id version (change_of w) r (write id version w r)
unfolding write change_of
write-Outcome id version (sets_status now s p q) r = update_status-Outcome now id s version p q r
write-Outcome id version (records result by) r = record_result-Outcome id result version by r
write-Outcome id version reapproves r = reapprove-Outcome id version r

-- The histories of the repository: calls in any order, by any callers, that may fail. A created
-- action has a new identifier, as `Uuid::new_v4` gives.
pub data History : ActionRepo → Type 0 where
  start : History empty
  creates :
      {r : ActionRepo} (a : CompensationAction)
      → History r
      → get a.id r.actions ≡ none
      → History (create a r).1
  writes :
      {r : ActionRepo} (id version : ℕ) (w : Write) → History r → History (write id version w r).1

-- After every history the map of the actions and the four indexes agree.
pub History-IsIndexed : {r : ActionRepo} → History r → IsIndexed r
History-IsIndexed start = empty-IsIndexed
History-IsIndexed (creates {r} a h fresh) = create-IsIndexed a r fresh (History-IsIndexed h)
History-IsIndexed (writes {r} id version w h) =
    Outcome-IsIndexed (write-Outcome id version w r) (History-IsIndexed h)

-- An update that succeeded, from its result.
pub Outcome-ok :
    {id v : ℕ} {change : CompensationAction → CompensationAction} {r : ActionRepo}
    {x : Result CompensationAction × ActionRepo}
    → Outcome id v change r x
    → (b : CompensationAction) (s : ActionRepo) → x ≡ (ok b, s)
    → Updates id v change r s b
Outcome-ok (unchanged e) b s h = cc
Outcome-ok {id} {v} {change} {r} (updated c t u) b s h =
    subst₂ (Updates id v change r) (ap (λ y. y.1) h) (ok-injective (ap (λ y. y.0) h)) u

-- An update that failed left the repository as it was.
pub Outcome-err :
    {id v : ℕ} {change : CompensationAction → CompensationAction} {r : ActionRepo}
    {x : Result CompensationAction × ActionRepo}
    → Outcome id v change r x
    → (e : Error) (s : ActionRepo) → x ≡ (err e, s)
    → s ≡ r
Outcome-err (unchanged f) e s h = sym (ap (λ y. y.1) h)
Outcome-err (updated c t u) e s h = cc

succ-ne : (v : ℕ) → Int32.succ v ≢ v
succ-ne v e = omega arith

stale :
    {id v : ℕ} {change : CompensationAction → CompensationAction} {r s : ActionRepo}
    {b : CompensationAction}
    → Updates id v change r s b
    → locked id v s ≡ err (concurrency_conflict id)
stale {id} {v} {r = r} {s} {b} u = rw u.applied (
    ground (arith, get-insert id id b r.actions, succ-ne v, u.revises.lock_version, u.version_held))

write_refused :
    (id v : ℕ) (w : Write) (s : ActionRepo)
    → locked id v s ≡ err (concurrency_conflict id)
    → write id v w s ≡ (err (concurrency_conflict id), s)
unfolding write update_status record_result reapprove
write_refused id v (sets_status now t p q) s e = rw (e, update_status)
write_refused id v (records result by) s e = rw (e, record_result)
write_refused id v reapproves s e = rw (e, reapprove)

-- Of two callers that hold one lock version of an action, the one that writes second is refused with
-- a conflict and changes nothing, whichever writes the two make.
pub second_writer_refused :
    (id v : ℕ) (w w' : Write) (r s : ActionRepo) (b : CompensationAction)
    → write id v w r ≡ (ok b, s)
    → write id v w' s ≡ (err (concurrency_conflict id), s)
second_writer_refused id v w w' r s b h =
    write_refused id v w' s (stale (Outcome-ok (write-Outcome id v w r) b s h))
