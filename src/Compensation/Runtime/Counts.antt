-- ===== src/Compensation/Runtime/Counts.antt =====
-- What a run reports: every listed action once, in order, under one of three counters.
use intent_rebase.Base.{
  ℕ, ◌+◌, String, List, [], ◌∷◌, ◌++◌, map, append-nil, append_assoc, ◌∙◌, ◌≡◌, refl, ap, sym, inl,
  inr, arith, length, Bool-cases, Result, ok, err, compensation_action_not_found, Text,
}
use intent_rebase.Compensation.Run.{
  OrchestrationRun, RunItemResult, Decision, record_success, record_failure, record_not_found,
}
use intent_rebase.Compensation.Runtime.Defs.{recorded}

-- The run after one action is recorded.
pub data Entered (id : ℕ) (run next : OrchestrationRun) : Type 0 where
  succeeded :
      (d : Decision) (t : Text) (s : String)
      → next ≡ record_success id d t s run
      → Entered id run next
  failed :
      (d : Decision) (t : Text) (s : String)
      → next ≡ record_failure id d t s run
      → Entered id run next
  missing : next ≡ record_not_found id run → Entered id run next

pub recorded-Entered :
    (id : ℕ) (r : Result RunItemResult) (run : OrchestrationRun)
    → Entered id run (recorded id r run)
recorded-Entered id (ok i) run = elim (Bool-cases i.success) [
  | inl good ↦ succeeded i.action_taken i.reason i.resulting_status (rw good refl)
  | inr bad ↦ failed i.action_taken i.reason i.resulting_status (rw bad refl)
]
recorded-Entered id (err (compensation_action_not_found _)) run = missing refl
recorded-Entered id (err _) run = failed _ _ _ refl

-- What stays of a run and what is counted while the actions `ids` are passed over.
pub record Counted (ids : List ℕ) (run next : OrchestrationRun) : Type 0 where
  pub id : next.id ≡ run.id
  pub action_ids : next.action_ids ≡ run.action_ids
  pub skipped : next.skipped_count ≡ run.skipped_count
  pub total : next.total_count ≡ run.total_count
  pub sum :
      next.succeeded_count + next.failed_count + next.not_found_count
      ≡ run.succeeded_count + run.failed_count + run.not_found_count + length ids
  pub items :
      map (λ i. i.action_id) next.item_results ≡ map (λ i. i.action_id) run.item_results ++ ids

map-append-one :
    (id : ℕ) (i : RunItemResult) (is : List RunItemResult)
    → i.action_id ≡ id
    → map (λ i. i.action_id) (is ++ i ∷ []) ≡ map (λ i. i.action_id) is ++ id ∷ []
map-append-one id i [] e = ap (λ x. x ∷ []) e
map-append-one id i (j ∷ is) e = ap (λ x. j.action_id ∷ x) (map-append-one id i is e)

pub Entered-Counted :
    {id : ℕ} {run next : OrchestrationRun} → Entered id run next → Counted (id ∷ []) run next
unfolding record_success record_failure record_not_found
Entered-Counted {id} {run} (succeeded d t s e) = rw e (record {
  id = refl;
  action_ids = refl;
  skipped = refl;
  total = refl;
  sum = omega arith;
  items = map-append-one id _ run.item_results refl;
})
Entered-Counted {id} {run} (failed d t s e) = rw e (record {
  id = refl;
  action_ids = refl;
  skipped = refl;
  total = refl;
  sum = omega arith;
  items = map-append-one id _ run.item_results refl;
})
Entered-Counted {id} {run} (missing e) = rw e (record {
  id = refl;
  action_ids = refl;
  skipped = refl;
  total = refl;
  sum = omega arith;
  items = map-append-one id _ run.item_results refl;
})

pub Counted-[] : (run : OrchestrationRun) → Counted [] run run
Counted-[] run = record {
  id = refl;
  action_ids = refl;
  skipped = refl;
  total = refl;
  sum = omega arith;
  items = sym (append-nil _);
}

pub Counted-∷ :
    {id : ℕ} {ids : List ℕ} {run mid next : OrchestrationRun}
    → Counted (id ∷ []) run mid
    → Counted ids mid next
    → Counted (id ∷ ids) run next
Counted-∷ {id} {ids} {run} c d = record {
  id = d.id ∙ c.id;
  action_ids = d.action_ids ∙ c.action_ids;
  skipped = d.skipped ∙ c.skipped;
  total = d.total ∙ c.total;
  sum = ground arith;
  items =
      d.items
      ∙ ap (λ x. x ++ ids) c.items
      ∙ append_assoc (map (λ i. i.action_id) run.item_results) (id ∷ []) ids;
}
