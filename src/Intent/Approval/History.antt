-- ===== src/Intent/Approval/History.antt =====
-- The requests for approval over time: their statuses, their identities and the two indexes.
use intent_rebase.Base.{
  ℕ, String, true, false, none, some, ==_iff, Map, get, get-insert, Message, ◌≡◌, ◌∙◌, arith, inl,
  inr, ◌⊎◌, Bool-cases, Option-cases, subst,
}
use intent_rebase.Intent.Approval.Defs.{
  ApprovalRequest, pending, approved, cancelled, expired, request_status_eq, ApprovalRepo,
  create_approval_request, mark_expired, cancel_pending_by_intent, cancel_approved_by_intent,
  cancel_approved_by_ids, of_intent,
}
use intent_rebase.Intent.Approval.Writes.{
  Write, updates, expires, cancels_pending, cancels_approved, cancels_ids, write, may_become,
  is_final, rewound, IsLater, IsLater-refl, IsLater-trans, IsWritten, unchanged-IsWritten,
  resolve-IsWritten, update-IsWritten, cancel-IsWritten,
}

expire-IsWritten :
    (now id : ℕ) (by : String) (reason : Message) (r : ApprovalRepo)
    → IsWritten r.requests (mark_expired now id by reason r).1.requests
unfolding mark_expired
expire-IsWritten now id by reason r = elim (Option-cases (get id r.requests)) [
  | inl missing ↦ rw (missing, mark_expired) (unchanged-IsWritten r.requests)
  | inr (p, found) ↦ elim (Bool-cases (request_status_eq p.status pending)) [
    | inl is ↦
        rw (found, is, mark_expired)
          (resolve-IsWritten id now expired by (some reason) p r.requests found is)
    | inr other ↦ rw (found, other, mark_expired) (unchanged-IsWritten r.requests)
  ]
]

abbrev CanCancel : ApprovalRequest → Type 0
CanCancel p = (may_become p.status cancelled ≡ true) × (is_final p.status ≡ false)

of_intent-CanCancel :
    (intent tenant : ℕ) (p : ApprovalRequest)
    → (of_intent pending intent tenant p ≡ true) ⊎ (of_intent approved intent tenant p ≡ true)
    → CanCancel p
of_intent-CanCancel intent tenant p h = ground arith

pub write-IsWritten : (w : Write) (r : ApprovalRepo) → IsWritten r.requests (write w r).requests
unfolding write cancel_pending_by_intent cancel_approved_by_intent cancel_approved_by_ids
write-IsWritten (updates now id status by notes) r = update-IsWritten now id status by notes r
write-IsWritten (expires now id by reason) r = expire-IsWritten now id by reason r
write-IsWritten (cancels_pending now intent tenant by reason) r =
    cancel-IsWritten (of_intent pending intent tenant) now by reason r
      (λ p h. of_intent-CanCancel intent tenant p (inl h))
write-IsWritten (cancels_approved now intent tenant by reason) r =
    cancel-IsWritten (of_intent approved intent tenant) now by reason r
      (λ p h. of_intent-CanCancel intent tenant p (inr h))
write-IsWritten (cancels_ids now ids tenant by reason) r =
    cancel-IsWritten _ now by reason r (λ p h. (ground arith, ground arith))

-- The repositories that calls make of a first one. A new request has a new identifier, as
-- `Uuid::new_v4` gives.
pub data Reaches (r : ApprovalRepo) : ApprovalRepo → Type 0 where
  here : Reaches r r
  creates :
      {s : ApprovalRepo} (q : ApprovalRequest)
      → Reaches r s
      → get q.id s.requests ≡ none
      → Reaches r (create_approval_request q s).1
  writes : {s : ApprovalRepo} (w : Write) → Reaches r s → Reaches r (write w s)

created_other :
    (k : ℕ) (p q : ApprovalRequest) (s : ApprovalRepo)
    → get q.id s.requests ≡ none
    → get k s.requests ≡ some p
    → get k (create_approval_request q s).1.requests ≡ some p
unfolding create_approval_request
created_other k p q s fresh found = get-insert k q.id q s.requests ∙ ground (arith, ==_iff k q.id)

abbrev BecomesLater : ℕ → ApprovalRequest → ApprovalRepo → Type 0
BecomesLater k p s = (q : ApprovalRequest) × ((get k s.requests ≡ some q) × IsLater p q)

written-IsLater :
    (k : ℕ) (p o : ApprovalRequest) (m m' : Map ApprovalRequest)
    → IsWritten m m'
    → get k m ≡ some o
    → IsLater p o
    → (q : ApprovalRequest) × ((get k m' ≡ some q) × IsLater p q)
written-IsLater k p o m m' h there later = elim (h k) [
  | inl (missing, _) ↦ absurd (cc)
  | inr (o', q, there', found, later') ↦
      let same : o' ≡ o = cc in
      (q, (found, IsLater-trans p o q later (subst (λ x. IsLater x q) same later')))
]

Reaches-later :
    {r s : ApprovalRepo} (k : ℕ) (p : ApprovalRequest)
    → Reaches r s
    → get k r.requests ≡ some p
    → BecomesLater k p s
Reaches-later k p here found = (p, (found, IsLater-refl p))
Reaches-later k p (creates {s} q h fresh) found =
    let (o, (there, later)) = Reaches-later k p h found in
    (o, (created_other k o q s fresh there, later))
Reaches-later k p (writes {s} w h) found =
    let (o, (there, later)) = Reaches-later k p h found in
    written-IsLater k p o s.requests (write w s).requests (write-IsWritten w s) there later

-- Whatever calls follow, a stored request stays stored under its identifier, the same but for its
-- resolution. A pending request may get any status, an approved one may only be cancelled, and one
-- that is rejected, expired or cancelled does not change any more.
pub request_resolved_once :
    {r s : ApprovalRepo} (k : ℕ) (p : ApprovalRequest)
    → Reaches r s
    → get k r.requests ≡ some p
    → (q : ApprovalRequest) × (get k s.requests ≡ some q)
      × (rewound p q ≡ p)
      × (may_become p.status q.status ≡ true)
      × ((is_final p.status ≡ false) ⊎ (q ≡ p))
request_resolved_once k p h found =
    let (q, (there, (same, path, final))) = Reaches-later k p h found in
    (q, there, same, path, final)
