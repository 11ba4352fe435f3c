-- ===== src/Intent/Approval/Writes.antt =====
-- What one call of the approval repository makes of a stored request.
use intent_rebase.Base.{
  ℕ, String, Bool, true, false, Option, none, some, List, ◌==◌, ==_iff, if◌then◌else◌, Map, get,
  insert, get-insert, map_values, get-map_values, Message, ◌≡◌, refl, ap, ◌∙◌, arith, subst, inl,
  inr, ◌⊎◌, Bool-cases, Option-cases,
}
use intent_rebase.Intent.Approval.Defs.{
  ApprovalRequest, ApprovalRequestStatus, pending, approved, rejected, expired, cancelled,
  request_status_eq, ApprovalRepo, resolved, update_approval_request_status, mark_expired,
  cancel_where, cancel_pending_by_intent, cancel_approved_by_intent, cancel_approved_by_ids,
}

-- A call that changes stored requests.
pub data Write : Type 0 where
  updates : ℕ → ℕ → ApprovalRequestStatus → String → Option Message → Write
  expires : ℕ → ℕ → String → Message → Write
  cancels_pending : ℕ → ℕ → ℕ → String → Message → Write
  cancels_approved : ℕ → ℕ → ℕ → String → Message → Write
  cancels_ids : ℕ → List ℕ → ℕ → String → Message → Write

unfoldable pub write : Write → ApprovalRepo → ApprovalRepo
write (updates now id status by notes) r =
    (update_approval_request_status now id status by notes r).1
write (expires now id by reason) r = (mark_expired now id by reason r).1
write (cancels_pending now intent tenant by reason) r =
    (cancel_pending_by_intent now intent tenant by reason r).1
write (cancels_approved now intent tenant by reason) r =
    (cancel_approved_by_intent now intent tenant by reason r).1
write (cancels_ids now ids tenant by reason) r =
    (cancel_approved_by_ids now ids tenant by reason r).1

-- The statuses that a request may have later.
abbrev pub may_become : ApprovalRequestStatus → ApprovalRequestStatus → Bool
may_become pending _ = true
may_become approved approved = true
may_become approved cancelled = true
may_become rejected rejected = true
may_become expired expired = true
may_become cancelled cancelled = true
may_become _ _ = false

abbrev pub is_final : ApprovalRequestStatus → Bool
is_final rejected = true
is_final expired = true
is_final cancelled = true
is_final _ = false

-- `q` with the resolution of `p`: two requests are the same but for it.
abbrev pub rewound : ApprovalRequest → ApprovalRequest → ApprovalRequest
rewound p q = record q {
  status = p.status;
  updated_at = p.updated_at;
  resolved_at = p.resolved_at;
  resolved_by = p.resolved_by;
  resolution_notes = p.resolution_notes;
}

abbrev pub IsLater : ApprovalRequest → ApprovalRequest → Type 0
IsLater p q =
    (rewound p q ≡ p)
    × (may_become p.status q.status ≡ true)
    × ((is_final p.status ≡ false) ⊎ (q ≡ p))

final_or : (s : ApprovalRequestStatus) → may_become s s ≡ true
final_or s = ground arith

pub IsLater-refl : (p : ApprovalRequest) → IsLater p p
IsLater-refl p = (refl, final_or p.status, inr refl)

may_become_trans :
    (a b c : ApprovalRequestStatus)
    → may_become a b ≡ true
    → may_become b c ≡ true
    → may_become a c ≡ true
may_become_trans a b c h k = ground arith

final_trans :
    (p q s : ApprovalRequest)
    → (is_final p.status ≡ false) ⊎ (q ≡ p)
    → (is_final q.status ≡ false) ⊎ (s ≡ q)
    → (is_final p.status ≡ false) ⊎ (s ≡ p)
final_trans p q s (inl open_p) next = inl open_p
final_trans p q s (inr same) (inl open_q) = inl (subst (λ x. is_final x.status ≡ false) same open_q)
final_trans p q s (inr same) (inr same') = inr (same' ∙ same)

pub IsLater-trans : (p q s : ApprovalRequest) → IsLater p q → IsLater q s → IsLater p s
IsLater-trans p q s (same, path, final) (same', path', final') = (
  ap (rewound p) same' ∙ same,
  may_become_trans p.status q.status s.status path path',
  final_trans p q s final final',
)

resolved-IsLater :
    (p : ApprovalRequest) (status : ApprovalRequestStatus) (now : ℕ) (by : String)
    (notes : Option Message)
    → may_become p.status status ≡ true
    → is_final p.status ≡ false
    → IsLater p (resolved status now by notes p)
unfolding resolved
resolved-IsLater p status now by notes path open' = (refl, path, inl open')

-- What a write makes of a map of requests: a stored request becomes a later one, and an unused
-- identifier stays unused.
abbrev pub IsWritten : Map ApprovalRequest → Map ApprovalRequest → Type 0
IsWritten m m' =
    (k : ℕ)
    → ((get k m ≡ none) × (get k m' ≡ none))
      ⊎ ((p : ApprovalRequest) × (q : ApprovalRequest) × (get k m ≡ some p)
          × (get k m' ≡ some q)
          × IsLater p q)

pub unchanged-IsWritten : (m : Map ApprovalRequest) → IsWritten m m
unchanged-IsWritten m k = elim (Option-cases (get k m)) [
  | inl missing ↦ inl (missing, missing)
  | inr (p, found) ↦ inr (p, p, found, found, IsLater-refl p)
]

insert-IsWritten :
    (id : ℕ) (p q : ApprovalRequest) (m : Map ApprovalRequest)
    → get id m ≡ some p
    → IsLater p q
    → IsWritten m (insert id q m)
insert-IsWritten id p q m found later k = elim (Bool-cases (k == id)) [
  | inl is ↦ inr (p, q, ground (arith, ==_iff k id), get-insert k id q m ∙ rw is refl, later)
  | inr other ↦ elim (Option-cases (get k m)) [
    | inl missing ↦ inl (missing, get-insert k id q m ∙ rw other missing)
    | inr (o, there) ↦ inr (o, o, there, get-insert k id q m ∙ rw other there, IsLater-refl o)
  ]
]

map_values-IsWritten :
    (f : ApprovalRequest → ApprovalRequest) (m : Map ApprovalRequest)
    → ((p : ApprovalRequest) → IsLater p (f p))
    → IsWritten m (map_values f m)
map_values-IsWritten f m h k = elim (Option-cases (get k m)) [
  | inl missing ↦ inl (missing, get-map_values k f m ∙ rw missing refl)
  | inr (p, found) ↦ inr (p, f p, found, get-map_values k f m ∙ rw found refl, h p)
]

pending_open :
    (p : ApprovalRequest) → request_status_eq p.status pending ≡ true → p.status ≡ pending
pending_open p h = ground arith

pub resolve-IsWritten :
    (id now : ℕ) (status : ApprovalRequestStatus) (by : String) (notes : Option Message)
    (p : ApprovalRequest) (m : Map ApprovalRequest)
    → get id m ≡ some p
    → request_status_eq p.status pending ≡ true
    → IsWritten m (insert id (resolved status now by notes p) m)
resolve-IsWritten id now status by notes p m found is =
    let e = pending_open p is in
    insert-IsWritten id p (resolved status now by notes p) m found
      (resolved-IsLater p status now by notes (rw e refl) (rw e refl))

pub update-IsWritten :
    (now id : ℕ) (status : ApprovalRequestStatus) (by : String) (notes : Option Message)
    (r : ApprovalRepo)
    → IsWritten r.requests (update_approval_request_status now id status by notes r).1.requests
unfolding update_approval_request_status
update-IsWritten now id status by notes r = elim (Option-cases (get id r.requests)) [
  | inl missing ↦ rw (missing, update_approval_request_status) (unchanged-IsWritten r.requests)
  | inr (p, found) ↦ elim (Bool-cases (request_status_eq p.status pending)) [
    | inl is ↦
        rw (found, is, update_approval_request_status)
          (resolve-IsWritten id now status by notes p r.requests found is)
    | inr other ↦ rw (found, other, update_approval_request_status) (unchanged-IsWritten r.requests)
  ]
]

pub cancel-IsWritten :
    (test : ApprovalRequest → Bool) (now : ℕ) (by : String) (reason : Message) (r : ApprovalRepo)
    → ((p : ApprovalRequest)
        → test p ≡ true
        → (may_become p.status cancelled ≡ true) × (is_final p.status ≡ false))
    → IsWritten r.requests (cancel_where test now by reason r).1.requests
unfolding cancel_where
cancel-IsWritten test now by reason r h =
    map_values-IsWritten (λ q. if test q then resolved cancelled now by (some reason) q else q)
      r.requests
      (λ p. elim (Bool-cases (test p)) [
        | inl is ↦ rw is (resolved-IsLater p cancelled now by (some reason) (h p is).0 (h p is).1)
        | inr other ↦ rw other (IsLater-refl p)
      ])
