-- ===== src/Compensation/Runtime/Passes.antt =====
-- The loop of a run, step by step: it ends, and the run that it returns is stored.
use intent_rebase.Base.{
  ℕ, insert, Act, ◌>>=◌, some, List, [], ◌∷◌, ◌∙◌, ◌≡◌, refl, subst, arith, get, get-insert, Result,
  ok,
}
use intent_rebase.Compensation.Run.{
  OrchestrationRun, update_run, mark_started, mark_completed, get_run,
}
use intent_rebase.Compensation.Service.{Service}
use intent_rebase.Compensation.Runtime.Defs.{
  process_single_action, RuntimeWorld, recorded, on_runs, run_items, execute_existing_run,
}
use intent_rebase.Compensation.Runtime.Counts.{
  Counted, recorded-Entered, Entered-Counted, Counted-[], Counted-∷,
}
use intent_rebase.Compensation.Runtime.Effects.{
  RepoPath, still, step, process-RepoStep, process-Spares,
}

pub run_stored :
    {A : Type 0} (id : ℕ) (next old : OrchestrationRun) (k : OrchestrationRun → Act RuntimeWorld A)
    (w : RuntimeWorld)
    → next.id ≡ id
    → get id w.runs ≡ some old
    → (on_runs (update_run next) >>= k) w ≡ k next (record w { runs = insert id next w.runs })
unfolding update_run
run_stored id next old k w same e = ground arith

-- The pass over one action: it is processed, and then the run that records it is stored.
pub run_items-∷ :
    (svc : Service) (now t id : ℕ) (ids : List ℕ) (run old : OrchestrationRun) (w : RuntimeWorld)
    → get run.id w.runs ≡ some old
    → let p = process_single_action svc now t id w.world in
      let next = recorded id p.0 run in
      run_items svc now t (id ∷ ids) run w
      ≡ run_items svc now t ids next (record { world = p.1; runs = insert run.id next w.runs })
unfolding run_items
run_items-∷ svc now t id ids run old w e =
    let p = process_single_action svc now t id w.world in
    run_stored run.id (recorded id p.0 run) old (run_items svc now t ids)
      (record { world = p.1; runs = w.runs }) ((Entered-Counted (recorded-Entered id p.0 run)).id) e

-- A pass that ends: it returns a run, which is the stored one.
record Passed (t : ℕ) (ids : List ℕ) (run : OrchestrationRun) (w : RuntimeWorld)
    (x : Result OrchestrationRun × RuntimeWorld) : Type 0 where
  pub final : OrchestrationRun
  pub returns : x.0 ≡ ok final
  pub counted : Counted ids run final
  pub before : OrchestrationRun
  pub stored : get run.id x.1.runs ≡ some before
  pub path : RepoPath t w.world.repo x.1.world.repo

run_items-Passed :
    (svc : Service) (now t : ℕ) (ids : List ℕ) (run old : OrchestrationRun) (w : RuntimeWorld)
    → get run.id w.runs ≡ some old
    → Passed t ids run w (run_items svc now t ids run w)
unfolding run_items
run_items-Passed svc now t [] run old w e = record {
  final = run;
  returns = refl;
  counted = Counted-[] run;
  before = old;
  stored = e;
  path = still;
}
run_items-Passed svc now t (id ∷ ids) run old w e =
    let p = process_single_action svc now t id w.world in
    let next = recorded id p.0 run in
    let c = Entered-Counted (recorded-Entered id p.0 run) in
    let rest =
      run_items-Passed svc now t ids next next
        (record { world = p.1; runs = insert run.id next w.runs })
        (ground (arith, get-insert next.id run.id next w.runs)) in
    rw (run_items-∷ svc now t id ids run old w e) (record {
      final = rest.final;
      returns = rest.returns;
      counted = Counted-∷ c rest.counted;
      before = rest.before;
      stored =
          subst
            (λ k.
              get k
                (run_items svc now t ids next
                  (record { world = p.1; runs = insert run.id next w.runs })).1.runs
              ≡ some rest.before)
            c.id rest.stored;
      path =
          step (process-RepoStep svc now t id w.world) (process-Spares svc now t id w.world)
            rest.path;
    })

returned :
    {A B : Type 0} (m : Act RuntimeWorld A) (k : A → Act RuntimeWorld B) (w : RuntimeWorld) (a : A)
    → (m w).0 ≡ ok a
    → (m >>= k) w ≡ k a (m w).1
returned m k w a e = ground arith

run_found :
    {A : Type 0} (id : ℕ) (run : OrchestrationRun) (k : OrchestrationRun → Act RuntimeWorld A)
    (w : RuntimeWorld)
    → get id w.runs ≡ some run
    → (on_runs (get_run id) >>= k) w ≡ k run w
unfolding get_run
run_found id run k w e = ground arith

run_stored_last :
    (id : ℕ) (next old : OrchestrationRun) (w : RuntimeWorld)
    → next.id ≡ id
    → get id w.runs ≡ some old
    → on_runs (update_run next) w ≡ (ok next, record w { runs = insert id next w.runs })
unfolding update_run
run_stored_last id next old w same e = ground arith

-- A run that starts from the stored `run`: it returns, and the run that it returns is the stored one.
pub record Executed (now : ℕ) (run : OrchestrationRun) (w : RuntimeWorld)
    (x : Result OrchestrationRun × RuntimeWorld) : Type 0 where
  pub passed : OrchestrationRun
  pub returns : x.0 ≡ ok (mark_completed now passed)
  pub counted : Counted run.action_ids run passed
  pub stored : get run.id x.1.runs ≡ some (mark_completed now passed)
  pub path : RepoPath run.tenant_id w.world.repo x.1.world.repo

pub execute_existing_run-Executed :
    (svc : Service) (now : ℕ) (run : OrchestrationRun) (w : RuntimeWorld)
    → get run.id w.runs ≡ some run
    → Executed now run w (execute_existing_run svc now run.id w)
unfolding execute_existing_run mark_started mark_completed
execute_existing_run-Executed svc now run w e =
    let begun = mark_started now run in
    let w1 = record w { runs = insert run.id begun w.runs } in
    let pass = run_items svc now run.tenant_id run.action_ids begun in
    let p =
      run_items-Passed svc now run.tenant_id run.action_ids begun begun w1
        (ground (arith, get-insert run.id run.id begun w.runs)) in
    let done = mark_completed now p.final in
    let c = p.counted in
    let finish : OrchestrationRun → Act RuntimeWorld OrchestrationRun =
      (λ q. on_runs (update_run (mark_completed now q))) in
    let rest : OrchestrationRun → Act RuntimeWorld OrchestrationRun =
      (λ b. run_items svc now run.tenant_id b.action_ids b >>= finish) in
    let start : OrchestrationRun → Act RuntimeWorld OrchestrationRun = (λ r.
      on_runs (update_run (mark_started now r)) >>= λ b.
      run_items svc now r.tenant_id b.action_ids b >>= finish) in
    rw
      (run_found run.id run start w e
        ∙ run_stored run.id begun run rest w refl e
        ∙ returned pass finish w1 p.final p.returns
        ∙ run_stored_last run.id done p.before (pass w1).1 c.id p.stored)
      (record {
        passed = p.final;
        returns = refl;
        counted = record {
          id = c.id;
          action_ids = c.action_ids;
          skipped = c.skipped;
          total = c.total;
          sum = c.sum;
          items = c.items;
        };
        stored = ground (arith, get-insert run.id run.id done (pass w1).1.runs);
        path = p.path;
      })
