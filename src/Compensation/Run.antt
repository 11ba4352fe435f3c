-- ===== src/Compensation/Run.antt =====
-- Orchestration runs (crates/compensation-service/src/orchestration_run.rs) and their in-memory
-- repository (orchestration_run_repo.rs). The counters count the items of one list, so they stay
-- below the bound of `usize`.
use intent_rebase.Base.{
  ℕ, ◌+◌, String, Bool, true, false, ◌&&◌, Option, some, none, List, [], ◌∷◌, ◌++◌, ◌==◌,
  if◌then◌else◌, length, Map, get, insert, Act, ok, err, or_err, lit, Text, said,
  orchestration_run_not_found,
}

pub data RunStatus : Type 0 where
  run_pending running run_completed completed_with_errors run_failed : RunStatus

pub data Decision : Type 0 where
  approve reapprove execute skip not_found : Decision

pub record RunItemResult : Type 0 where
  pub action_id : ℕ
  pub action_taken : Decision
  pub success : Bool
  pub reason : Text
  pub resulting_status : String

pub record OrchestrationRun : Type 0 where
  pub id : ℕ
  pub tenant_id : ℕ
  pub intent_id : Option ℕ
  pub action_ids : List ℕ
  pub status : RunStatus
  pub initiated_by : Option String
  pub created_at : ℕ
  pub started_at : Option ℕ
  pub completed_at : Option ℕ
  pub succeeded_count : ℕ
  pub failed_count : ℕ
  pub skipped_count : ℕ
  pub not_found_count : ℕ
  pub total_count : ℕ
  pub item_results : List RunItemResult

unfoldable pub new_run : ℕ → ℕ → ℕ → List ℕ → Option String → Option ℕ → OrchestrationRun
new_run id now tenant_id action_ids initiated_by intent_id = record {
  id = id;
  tenant_id = tenant_id;
  intent_id = intent_id;
  action_ids = action_ids;
  status = run_pending;
  initiated_by = initiated_by;
  created_at = now;
  started_at = none;
  completed_at = none;
  succeeded_count = 0;
  failed_count = 0;
  skipped_count = 0;
  not_found_count = 0;
  total_count = length action_ids;
  item_results = [];
}

unfoldable pub mark_started : ℕ → OrchestrationRun → OrchestrationRun
mark_started now r = record r { status = running; started_at = some now }

unfoldable pub mark_completed : ℕ → OrchestrationRun → OrchestrationRun
mark_completed now r = record r {
  completed_at = some now;
  status =
      if r.failed_count == 0 && r.not_found_count == 0
      then run_completed
      else if r.succeeded_count == 0
      then run_failed
      else completed_with_errors;
}

abbrev item : ℕ → Decision → Bool → Text → String → RunItemResult
item action_id decision success reason resulting_status = record {
  action_id = action_id;
  action_taken = decision;
  success = success;
  reason = reason;
  resulting_status = resulting_status;
}

unfoldable pub record_success : ℕ → Decision → Text → String → OrchestrationRun → OrchestrationRun
record_success action_id decision reason resulting_status r = record r {
  succeeded_count = r.succeeded_count + 1;
  item_results = r.item_results ++ item action_id decision true reason resulting_status ∷ [];
}

unfoldable pub record_failure : ℕ → Decision → Text → String → OrchestrationRun → OrchestrationRun
record_failure action_id decision reason resulting_status r = record r {
  failed_count = r.failed_count + 1;
  item_results = r.item_results ++ item action_id decision false reason resulting_status ∷ [];
}

unfoldable pub record_skipped : ℕ → Decision → Text → OrchestrationRun → OrchestrationRun
record_skipped action_id decision reason r = record r {
  skipped_count = r.skipped_count + 1;
  item_results = r.item_results ++ item action_id decision true reason "skipped" ∷ [];
}

unfoldable pub record_not_found : ℕ → OrchestrationRun → OrchestrationRun
record_not_found action_id r = record r {
  not_found_count = r.not_found_count + 1;
  item_results =
      r.item_results
      ++ item action_id not_found false (said (lit "Action not found or access denied" ∷ []))
          "not_found"
        ∷ [];
}

-- The in-memory repository of runs; the index by tenant, which only a listing reads, is left out.
unfoldable pub create_run_entry : OrchestrationRun → Act (Map OrchestrationRun) OrchestrationRun
create_run_entry run m = (ok run, insert run.id run m)

unfoldable pub get_run : ℕ → Act (Map OrchestrationRun) OrchestrationRun
get_run run_id m = (or_err (get run_id m) (orchestration_run_not_found run_id), m)

unfoldable pub update_run : OrchestrationRun → Act (Map OrchestrationRun) OrchestrationRun
update_run run m = elim (get run.id m) [
  | some _ ↦ (ok run, insert run.id run m)
  | none ↦ (err (orchestration_run_not_found run.id), m)
]
