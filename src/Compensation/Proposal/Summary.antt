-- ===== src/Compensation/Proposal/Summary.antt =====
-- The summary of the dry run adds up.
use intent_rebase.Base.{
  ℕ, ◌+◌, List, [], ◌∷◌, ◌==◌, length, length-append, get, ◌≡◌, ◌∙◌, refl, inl, inr, arith,
  Bool-cases, Option-cases,
}
use intent_rebase.Compensation.Action.{CompensationAction}
use intent_rebase.Compensation.Repo.{ActionRepo}
use intent_rebase.Compensation.Proposal

-- What a pass over a number of actions adds to the counts and the lists.
record Adds (n : ℕ) (x y : Proposal.OrchestrationDryRunResult) : Type 0 where
  pub decided :
      y.summary.can_approve + y.summary.can_reapprove + y.summary.can_execute + y.summary.no_actions
      ≡ x.summary.can_approve + x.summary.can_reapprove + x.summary.can_execute
        + x.summary.no_actions + n
  pub listed : length y.proposals + length y.not_found ≡ length x.proposals + length x.not_found + n
  pub missing :
      y.summary.not_found_count + length x.not_found
      ≡ x.summary.not_found_count + length y.not_found
  pub total : y.summary.total ≡ x.summary.total

-- Each proposed action is under one count.
counted_once :
    (p : Proposal.OrchestrationAction) (s : Proposal.OrchestrationDryRunSummary)
    → ((Proposal.counted p s).can_approve
          + (Proposal.counted p s).can_reapprove
          + (Proposal.counted p s).can_execute
          + (Proposal.counted p s).no_actions
        ≡ s.can_approve + s.can_reapprove + s.can_execute + s.no_actions + 1)
      × ((Proposal.counted p s).not_found_count ≡ s.not_found_count)
      × ((Proposal.counted p s).total ≡ s.total)
counted_once Proposal.approve s = (omega arith, refl, refl)
counted_once Proposal.reapprove s = (omega arith, refl, refl)
counted_once Proposal.execute s = (omega arith, refl, refl)
counted_once Proposal.no_action s = (omega arith, refl, refl)

considered-Adds :
    (a : CompensationAction) (x : Proposal.OrchestrationDryRunResult)
    → Adds 1 x (Proposal.considered a x)
considered-Adds a x =
    let proposal = Proposal.compute_action_proposal a in
    let (sum, missing, total) = counted_once proposal.proposed_action x.summary in
    record {
      decided = sum;
      listed = omega (arith, length-append x.proposals (proposal ∷ []));
      missing = omega (arith, missing);
      total = total;
    }

missed-Adds : (id : ℕ) (x : Proposal.OrchestrationDryRunResult) → Adds 1 x (Proposal.missed id x)
missed-Adds id x = record {
  decided = omega arith;
  listed = omega (arith, length-append x.not_found (id ∷ []));
  missing = omega (arith, length-append x.not_found (id ∷ []));
  total = refl;
}

turn-Adds :
    (t : ℕ) (r : ActionRepo) (id : ℕ) (x : Proposal.OrchestrationDryRunResult)
    → Adds 1 x (Proposal.turn t r id x)
turn-Adds t r id x = elim (Option-cases (get id r.actions)) [
  | inl e ↦ rw (e, Proposal.turn) (missed-Adds id x)
  | inr (a, e) ↦ elim (Bool-cases (a.tenant_id == t)) [
    | inl same ↦ rw (e, Proposal.turn, same) (considered-Adds a x)
    | inr other ↦ rw (e, Proposal.turn, other) (missed-Adds id x)
  ]
]

passes-Adds :
    (t : ℕ) (r : ActionRepo) (ids : List ℕ) (x : Proposal.OrchestrationDryRunResult)
    → Adds (length ids) x (Proposal.passes t r ids x)
unfolding Proposal.passes
passes-Adds t r [] x = record {
  decided = omega arith;
  listed = omega arith;
  missing = refl;
  total = refl;
}
passes-Adds t r (id ∷ ids) x =
    let one = turn-Adds t r id x in
    let rest = passes-Adds t r ids (Proposal.turn t r id x) in
    record {
      decided = omega (arith, one.decided, rest.decided);
      listed = omega (arith, one.listed, rest.listed);
      missing = omega (arith, one.missing, rest.missing);
      total = rest.total ∙ one.total;
    }

-- The summary of a dry run adds up: every listed action is under one of the four counts of proposed
-- actions, is either in the list of proposals or in the list of those not found, and the count of those
-- not found is the length of that list.
pub dry_run_adds_up :
    (t : ℕ) (ids : List ℕ) (r : ActionRepo)
    → let x = Proposal.plan_orchestration_actions t ids r in
      (x.summary.total ≡ length ids)
      × (x.summary.can_approve + x.summary.can_reapprove + x.summary.can_execute
            + x.summary.no_actions
          ≡ x.summary.total)
      × (length x.proposals + length x.not_found ≡ x.summary.total)
      × (x.summary.not_found_count ≡ length x.not_found)
unfolding Proposal.plan_orchestration_actions
dry_run_adds_up t ids r =
    let h = passes-Adds t r ids _ in
    (
      h.total,
      omega (arith, h.decided, h.total),
      omega (arith, h.listed, h.total),
      omega (arith, h.missing),
    )
