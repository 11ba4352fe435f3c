-- ===== src/Compensation/Repo/Defs.antt =====
-- The state and the operations of `InMemoryCompensationActionRepository`.
use intent_rebase.Base.{
  fetched, ℕ, String, ◌&&◌, not, Option, some, none, List, [], ◌∷◌, ◌++◌, leb, ◌==◌, if◌then◌else◌,
  Map, get, insert, filter, retain_ne, Act, Result, ok, err, or_err, compensation_action_not_found,
  concurrency_conflict, invalid_compensation_action_transition, lit, zero, suc,
}
use intent_rebase.Base.Int32
use intent_rebase.Compensation.Action.{
  CompensationAction, CompensationStatus, ExecutionResult, pending, approved, executed, failed,
  waived, status_eq, status_debug,
}

pub record ActionRepo : Type 0 where
  pub actions : Map CompensationAction
  pub by_tenant : ℕ → List ℕ
  pub by_side_effect : ℕ → List ℕ
  pub by_status : ℕ → CompensationStatus → List ℕ
  pub by_intent : ℕ → ℕ → List ℕ

unfoldable pub empty : ActionRepo
empty = record {
  actions = [];
  by_tenant = λ _. [];
  by_side_effect = λ _. [];
  by_status = λ _ _. [];
  by_intent = λ _ _. [];
}

-- `index.entry(k).or_insert_with(Vec::new).push(id)`, for an index under one key, under a tenant and
-- a status, and under a tenant and an intent.
abbrev pub push : ℕ → ℕ → (ℕ → List ℕ) → ℕ → List ℕ
push k id index j = if j == k then index j ++ id ∷ [] else index j

abbrev pub push_status :
    ℕ → CompensationStatus → ℕ → (ℕ → CompensationStatus → List ℕ) → ℕ → CompensationStatus → List ℕ
push_status t s id index u r = if u == t && status_eq s r then index u r ++ id ∷ [] else index u r

abbrev pub push_intent : ℕ → ℕ → ℕ → (ℕ → ℕ → List ℕ) → ℕ → ℕ → List ℕ
push_intent t i id index u j = if u == t && j == i then index u j ++ id ∷ [] else index u j

-- Out of the list of the old status.
abbrev pub drop_status :
    ℕ → CompensationStatus → ℕ → (ℕ → CompensationStatus → List ℕ) → ℕ → CompensationStatus → List ℕ
drop_status t s id index u r =
    if u == t && status_eq s r then retain_ne id (index u r) else index u r

unfoldable pub create : CompensationAction → Act ActionRepo CompensationAction
create a r = (
  ok a,
  record {
    actions = insert a.id a r.actions;
    by_tenant = push a.tenant_id a.id r.by_tenant;
    by_side_effect = push a.side_effect_id a.id r.by_side_effect;
    by_status = push_status a.tenant_id a.status a.id r.by_status;
    by_intent = push_intent a.tenant_id a.intent_id a.id r.by_intent;
  },
)

unfoldable pub find : ℕ → Act ActionRepo CompensationAction
find action_id r = (or_err (get action_id r.actions) (compensation_action_not_found action_id), r)

-- Newest first; entries of one time keep their order.
insert_by_time : CompensationAction → List CompensationAction → List CompensationAction
insert_by_time a [] = a ∷ []
insert_by_time a (b ∷ bs) =
    let rest = insert_by_time a bs in
    if leb b.generated_at a.generated_at then a ∷ b ∷ bs else b ∷ rest

unfoldable pub sort_by_time : List CompensationAction → List CompensationAction
unfolding insert_by_time
sort_by_time [] = []
sort_by_time (a ∷ as') = insert_by_time a (sort_by_time as')

abbrev truncate : ℕ → List CompensationAction → List CompensationAction
truncate zero xs = []
truncate (suc n) [] = []
truncate (suc n) (x ∷ xs) = x ∷ truncate n xs

abbrev limited : Option ℕ → List CompensationAction → List CompensationAction
limited none xs = xs
limited (some l) xs = truncate l xs

unfoldable pub list_by_tenant : ℕ → Option ℕ → ActionRepo → List CompensationAction
list_by_tenant tenant_id limit r =
    limited limit (sort_by_time (fetched r.actions (r.by_tenant tenant_id)))

unfoldable pub list_by_side_effect : ℕ → ℕ → ActionRepo → List CompensationAction
list_by_side_effect side_effect_id tenant_id r =
    filter (λ a. a.tenant_id == tenant_id) (fetched r.actions (r.by_side_effect side_effect_id))

unfoldable pub list_by_intent : ℕ → ℕ → ActionRepo → List CompensationAction
list_by_intent intent_id tenant_id r = fetched r.actions (r.by_intent tenant_id intent_id)

unfoldable pub list_by_status : ℕ → CompensationStatus → ActionRepo → List CompensationAction
list_by_status tenant_id status r = fetched r.actions (r.by_status tenant_id status)

-- The checks that open each update: the action exists, and the caller has its lock version.
abbrev pub locked : ℕ → ℕ → ActionRepo → Result CompensationAction
locked action_id lock_version r = elim (get action_id r.actions) [
  | none ↦ err (compensation_action_not_found action_id)
  | some a ↦ if a.lock_version == lock_version then ok a else err (concurrency_conflict action_id)
]

-- What ends each update: the action is written back and moves to the list of its new status.
abbrev pub store : ℕ → CompensationAction → CompensationAction → ActionRepo → ActionRepo
store action_id old a r = record r {
  actions = insert action_id a r.actions;
  by_status =
      push_status old.tenant_id a.status action_id
        (drop_status old.tenant_id old.status action_id r.by_status);
}

abbrev or_keep : Option String → Option String → Option String
or_keep (some actor) _ = some actor
or_keep none old = old

stamp :
    CompensationStatus → ℕ → Option String → Option String → CompensationAction → CompensationAction
stamp approved now approved_by waived_by a = record a {
  approved_at = some now;
  approved_by = or_keep approved_by a.approved_by;
}
stamp waived now approved_by waived_by a = record a {
  waived_at = some now;
  waived_by = or_keep waived_by a.waived_by;
}
stamp executed now approved_by waived_by a = record a { executed_at = some now }
stamp failed now approved_by waived_by a = record a { failed_at = some now }
stamp pending now approved_by waived_by a = a

-- The action after `update_status`.
unfoldable pub with_status :
    CompensationStatus → ℕ → Option String → Option String → CompensationAction → CompensationAction
unfolding stamp
with_status new_status now approved_by waived_by a =
    stamp new_status now approved_by waived_by
      (record a { lock_version = Int32.succ a.lock_version; status = new_status })

unfoldable pub update_status :
    ℕ
    → ℕ
    → CompensationStatus
    → ℕ
    → Option String
    → Option String
    → Act ActionRepo CompensationAction
update_status now action_id new_status lock_version approved_by waived_by r =
    elim (locked action_id lock_version r) [
      | err e ↦ (err e, r)
      | ok a ↦
          let b = with_status new_status now approved_by waived_by a in
          (ok b, store action_id a b r)
    ]

-- The action after `record_result`.
unfoldable pub with_result :
    ExecutionResult → Option String → CompensationAction → CompensationAction
with_result result executed_by a =
    let b = record a {
      lock_version = Int32.succ a.lock_version;
      attempt_count = Int32.succ a.attempt_count;
      execution_result_payload = some result;
    } in
    if result.success
    then record b {
      status = executed;
      executed_at = some result.completed_at;
      executed_by = or_keep executed_by a.executed_by;
    }
    else record b { status = failed; failed_at = some result.completed_at }

unfoldable pub record_result :
    ℕ → ExecutionResult → ℕ → Option String → Act ActionRepo CompensationAction
record_result action_id result lock_version executed_by r = elim (locked action_id lock_version r) [
  | err e ↦ (err e, r)
  | ok a ↦ let b = with_result result executed_by a in (ok b, store action_id a b r)
]

-- The action after `reapprove`.
unfoldable pub reapproved : CompensationAction → CompensationAction
reapproved a = record a {
  lock_version = Int32.succ a.lock_version;
  status = pending;
  failed_at = none;
}

unfoldable pub reapprove : ℕ → ℕ → Act ActionRepo CompensationAction
reapprove action_id lock_version r = elim (locked action_id lock_version r) [
  | err e ↦ (err e, r)
  | ok a ↦
      if not (status_eq a.status failed)
      then (
        err (
            invalid_compensation_action_transition (status_debug a.status) "Pending"
              (lit "Only Failed actions can be reapproved" ∷ [])),
        r,
      )
      else let b = reapproved a in (ok b, store action_id a b r)
]
