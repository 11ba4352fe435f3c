-- ===== src/Compensation/Service/Writes.antt =====
-- The two public calls of the service that write a status or a result as they are told: they pass on
-- to the repository, which checks the lock version only and not the diagram of statuses.
use intent_rebase.Base.{ℕ, String, Option, none, Act}
use intent_rebase.Compensation.Action.{CompensationAction, CompensationStatus, ExecutionResult}
use intent_rebase.Compensation.Repo
use intent_rebase.Compensation.Service.Types.{World, on_repo}

unfoldable pub update_status : ℕ → ℕ → CompensationStatus → ℕ → Act World CompensationAction
unfolding Repo.update_status
update_status now action_id new_status lock_version =
    on_repo (Repo.update_status now action_id new_status lock_version none none)

unfoldable pub record_result :
    ℕ → ExecutionResult → ℕ → Option String → Act World CompensationAction
unfolding Repo.record_result
record_result action_id result lock_version executed_by =
    on_repo (Repo.record_result action_id result lock_version executed_by)
