-- ===== src/Intent/Approval/Index.antt =====
-- The two indexes of the requests for approval, and the listings that read them.
use intent_rebase.Base.{
  ℕ, Bool, none, some, [], ◌∷◌, ◌==◌, ==_iff, if◌then◌else◌, Map, get, get-insert, count,
  count-append, held, ◌≡◌, refl, sym, ap, ◌∙◌, arith, inl, inr,
}
use intent_rebase.Intent.Approval.Defs.{
  ApprovalRequest, ApprovalRepo, empty, create_approval_request, update_approval_request_status,
  mark_expired, cancel_where, cancel_pending_by_intent, cancel_approved_by_intent,
  cancel_approved_by_ids,
}
use intent_rebase.Intent.Approval.Writes.{
  Write, updates, expires, cancels_pending, cancels_approved, cancels_ids, write, rewound,
  IsWritten,
}
use intent_rebase.Intent.Approval.History.{write-IsWritten, Reaches, here, creates, writes}

-- Each request is stored under its identifier, and each index holds it once, under its own key.
pub record IsIndexed (r : ApprovalRepo) : Type 0 where
  pub keyed : (k : ℕ) (q : ApprovalRequest) → get k r.requests ≡ some q → q.id ≡ k
  pub intents :
      (i k : ℕ) → count k (r.by_intent i) ≡ held (λ q. q.intent_id == i) (get k r.requests)
  pub tenants :
      (t k : ℕ) → count k (r.by_tenant t) ≡ held (λ q. q.tenant_id == t) (get k r.requests)

pub empty-IsIndexed : IsIndexed empty
unfolding empty
empty-IsIndexed = record { keyed = λ k q h. cc; intents = λ i k. refl; tenants = λ t k. refl }

create-IsIndexed :
    (q : ApprovalRequest) (r : ApprovalRepo)
    → get q.id r.requests ≡ none
    → IsIndexed r
    → IsIndexed (create_approval_request q r).1
unfolding create_approval_request
create-IsIndexed q r fresh h = record {
  keyed = λ k p e. ground (arith, get-insert k q.id q r.requests, h.keyed k p, ==_iff k q.id);
  intents = λ i k. ground (
    arith,
    get-insert k q.id q r.requests,
    h.intents i k,
    count-append k (r.by_intent i) (q.id ∷ []),
    ==_iff k q.id,
    ==_iff i q.intent_id,
  );
  tenants = λ t k. ground (
    arith,
    get-insert k q.id q r.requests,
    h.tenants t k,
    count-append k (r.by_tenant t) (q.id ∷ []),
    ==_iff k q.id,
    ==_iff t q.tenant_id,
  );
}

write_indexes :
    (w : Write) (r : ApprovalRepo)
    → ((write w r).by_intent ≡ r.by_intent) × ((write w r).by_tenant ≡ r.by_tenant)
unfolding write update_approval_request_status mark_expired cancel_where cancel_pending_by_intent
    cancel_approved_by_intent cancel_approved_by_ids
write_indexes (updates now id status by notes) r = ground arith
write_indexes (expires now id by reason) r = ground arith
write_indexes (cancels_pending now intent tenant by reason) r = (refl, refl)
write_indexes (cancels_approved now intent tenant by reason) r = (refl, refl)
write_indexes (cancels_ids now ids tenant by reason) r = (refl, refl)

-- A later request is held under the keys of the earlier one.
held_same :
    (p : ApprovalRequest → Bool) (m m' : Map ApprovalRequest) (k : ℕ)
    → ((x y : ApprovalRequest) → rewound x y ≡ x → p y ≡ p x)
    → IsWritten m m'
    → held p (get k m') ≡ held p (get k m)
held_same p m m' k same h = elim (h k) [
  | inl (missing, missing') ↦ rw (missing, missing') refl
  | inr (x, y, found, found', (kept, path, final)) ↦
      rw (found, found') (ap (λ b. if b then 1 else 0) (same x y kept))
]

keyed_same :
    (m m' : Map ApprovalRequest)
    → IsWritten m m'
    → ((k : ℕ) (q : ApprovalRequest) → get k m ≡ some q → q.id ≡ k)
    → (k : ℕ) (q : ApprovalRequest) → get k m' ≡ some q
    → q.id ≡ k
keyed_same m m' h keyed k q e = elim (h k) [
  | inl (missing, missing') ↦ absurd (cc)
  | inr (x, y, found, found', (kept, path, final)) ↦
      let y_q : y ≡ q = cc in ap (λ z. z.id) (sym y_q) ∙ ap (λ z. z.id) kept ∙ keyed k x found
]

pub write-IsIndexed : (w : Write) (r : ApprovalRepo) → IsIndexed r → IsIndexed (write w r)
write-IsIndexed w r h =
    let written = write-IsWritten w r in
    let (same_intents, same_tenants) = write_indexes w r in
    record {
      keyed = keyed_same r.requests (write w r).requests written h.keyed;
      intents = λ i k.
          ap (λ f. count k (f i)) same_intents
          ∙ h.intents i k
          ∙ sym (
              held_same (λ q. q.intent_id == i) r.requests (write w r).requests k
                (λ x y e. ap (λ z. z.intent_id == i) e) written);
      tenants = λ t k.
          ap (λ f. count k (f t)) same_tenants
          ∙ h.tenants t k
          ∙ sym (
              held_same (λ q. q.tenant_id == t) r.requests (write w r).requests k
                (λ x y e. ap (λ z. z.tenant_id == t) e) written);
    }

pub Reaches-IsIndexed : {r s : ApprovalRepo} → IsIndexed r → Reaches r s → IsIndexed s
Reaches-IsIndexed h here = h
Reaches-IsIndexed h (creates {s} q past fresh) =
    create-IsIndexed q s fresh (Reaches-IsIndexed h past)
Reaches-IsIndexed h (writes {s} w past) = write-IsIndexed w s (Reaches-IsIndexed h past)
