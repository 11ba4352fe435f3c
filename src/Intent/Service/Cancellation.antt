-- ===== src/Intent/Service/Cancellation.antt =====
-- The requests for approval that a new version cancels.
use intent_rebase.Base.{
  ℕ, String, false, Option, none, some, [], if◌then◌else◌, get, on_some, get-map_values, values,
  filter, length, ok, Message, ◌≡◌, refl, ap, ◌∙◌, arith, inl, inr, Bool-cases,
}
use intent_rebase.Base.Int32.{succ}
use intent_rebase.Intent.Types.{Intent, CreateVersionRequest, CreateVersionResponse}
use intent_rebase.Intent.Approval.Defs.{
  ApprovalRequest, ApprovalRepo, pending, cancelled, resolved, of_intent, cancel_where,
  cancel_pending_by_intent, list_pending_by_intent,
}
use intent_rebase.Intent.Approval.Writes.{cancels_pending, write}
use intent_rebase.Intent.Approval.Index.{IsIndexed, write-IsIndexed}
use intent_rebase.Intent.Approval.Listing.{holds, none_pending}
use intent_rebase.Intent.Service.Defs.{
  IntentService, IntentState, create_version, after_version, cancellation_reason, cancelled_event,
  audited,
}
use intent_rebase.Intent.Service.Versions.{create_version_ok, repo_after}

no_longer_pending :
    (k tenant now : ℕ) (by : String) (reason : Message) (o : Option ApprovalRequest)
    → holds (of_intent pending k tenant) (
        on_some
          (λ p.
            if of_intent pending k tenant p then resolved cancelled now by (some reason) p else p)
          o)
      ≡ false
unfolding resolved
no_longer_pending k tenant now by reason none = refl
no_longer_pending k tenant now by reason (some p) =
    elim (Bool-cases (of_intent pending k tenant p)) [
      | inl is ↦ rw is (ground arith)
      | inr other ↦ rw other other
    ]

after_version_approvals :
    (svc : IntentService) (now : ℕ) (i : Intent) (k to : ℕ) (s : IntentState) (a : ApprovalRepo)
    → s.approval_repo ≡ some a
    → after_version svc now i k to s ≡ record s {
      approval_repo = some (
          write
            (cancels_pending now k i.tenant_id svc.system_actor_id
              (cancellation_reason i.current_version to))
            a);
      audit_log =
          audited svc
            (cancelled_event svc i k to
              (length (filter (of_intent pending k i.tenant_id) (values a.requests))))
            s.audit_log;
    }
unfolding after_version write cancel_pending_by_intent cancel_where
after_version_approvals svc now i k to s a h = rw (h, after_version) refl

-- A version that is created cancels every request for approval that is pending for the intent and
-- its tenant: none is listed any more, every other request is as it was, and each cancelled one
-- says who cancelled it, when and between which versions. Their number goes into one audit event,
-- which is recorded if it is not 0, an audit repository is there and the write succeeds.
pub new_version_cancels_pending :
    (svc : IntentService) (v now k j : ℕ) (q : CreateVersionRequest) (expected row : Option ℕ)
    (x : CreateVersionResponse) (s t : IntentState) (a : ApprovalRepo)
    → s.approval_repo ≡ some a
    → IsIndexed a
    → create_version svc v now k q expected row s ≡ (ok x, t)
    → (i : Intent) × (b : ApprovalRepo) × (get k s.repo.intents ≡ some i)
      × (t.approval_repo ≡ some b)
      × (list_pending_by_intent k i.tenant_id b ≡ [])
      × (get j b.requests
          ≡ on_some
              (λ p.
                if of_intent pending k i.tenant_id p
                then resolved cancelled now svc.system_actor_id
                    (some (cancellation_reason i.current_version (succ i.current_version)))
                    p
                else p)
              (get j a.requests))
      × (t.audit_log
          ≡ audited svc
              (cancelled_event svc i k
                (succ i.current_version)
                (length (filter (of_intent pending k i.tenant_id) (values a.requests))))
              s.audit_log)
unfolding write cancel_pending_by_intent cancel_where
new_version_cancels_pending svc v now k j q expected row x s t a configured indexed h =
    let (i, found, fits, after) = create_version_ok svc v now k q row s expected x t h in
    let to : ℕ = succ i.current_version in
    let u = record s { repo = repo_after svc v now k q row s i } in
    let w =
      cancels_pending now k i.tenant_id svc.system_actor_id
        (cancellation_reason i.current_version to) in
    let f : ApprovalRequest → ApprovalRequest = λ p.
      if of_intent pending k i.tenant_id p
      then resolved cancelled now svc.system_actor_id
          (some (cancellation_reason i.current_version to)) p
      else p in
    let t_is = after ∙ after_version_approvals svc now i k to u a configured in
    (
      i,
      write w a,
      found,
      ap (λ z. z.approval_repo) t_is,
      none_pending (write w a) k i.tenant_id (write-IsIndexed w a indexed) (λ m.
          ap (holds (of_intent pending k i.tenant_id)) (get-map_values m f a.requests)
          ∙ no_longer_pending k i.tenant_id now svc.system_actor_id
              (cancellation_reason i.current_version to) (get m a.requests)),
      get-map_values j f a.requests,
      ap (λ z. z.audit_log) t_is,
    )
