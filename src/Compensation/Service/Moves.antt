-- ===== src/Compensation/Service/Moves.antt =====
-- The moves of an action, and what a call does to the repository.
use intent_rebase.Base.{ℕ, true, some, ◌≡◌, get}
use intent_rebase.Base.Int32
use intent_rebase.Compensation.Action.{
  CompensationAction, pending, approved, executed, failed, waived,
}
use intent_rebase.Compensation.Action.Retry.{can_be_reapproved}
use intent_rebase.Compensation.Repo.{ActionRepo, store}
use intent_rebase.Compensation.Repo.Index.{Revises}

-- One move of an action: what the documentation of `CompensationStatus` allows, with the count of
-- attempts, which only an execution raises.
pub data Move (a b : CompensationAction) : Type 0 where
  approves : a.status ≡ pending → b.status ≡ approved → b.attempt_count ≡ a.attempt_count → Move a b
  waives : a.status ≡ pending → b.status ≡ waived → b.attempt_count ≡ a.attempt_count → Move a b
  executes :
      a.status ≡ approved
      → b.status ≡ executed
      → b.attempt_count ≡ Int32.succ a.attempt_count
      → Move a b
  fails :
      a.status ≡ approved
      → b.status ≡ failed
      → b.attempt_count ≡ Int32.succ a.attempt_count
      → Move a b
  retries :
      a.status ≡ failed
      → can_be_reapproved a ≡ true
      → b.status ≡ pending
      → b.attempt_count ≡ a.attempt_count
      → Move a b

-- What a call does to the repository: nothing, or one move of one action to its next version.
pub data RepoStep (r s : ActionRepo) : Type 0 where
  quiet : s ≡ r → RepoStep r s
  moves :
      (id : ℕ) (a b : CompensationAction)
      → get id r.actions ≡ some a
      → Revises a b
      → b.max_retries ≡ a.max_retries
      → Move a b
      → s ≡ store id a b r
      → RepoStep r s
