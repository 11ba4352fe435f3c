-- ===== src/Intent/Approval/Listing.antt =====
-- What the listing of pending requests shows.
use intent_rebase.Base.{
  ℕ, Bool, false, ◌&&◌, Option, none, some, List, [], ◌∷◌, ◌==◌, ==_iff, ==_refl, Map, get, count,
  fetched, filter, any, any-sort, sort, ltb, ◌≡◌, refl, sym, ◌∙◌, arith, inl, inr, Bool-cases,
  Option-cases, All, All-sort, All-fetched, subst,
}
use intent_rebase.Intent.Approval.Defs.{
  ApprovalRequest, pending, ApprovalRepo, empty, is_pending_of, newest_first, of_intent,
  list_pending_by_intent, list_pending_by_tenant,
}
use intent_rebase.Intent.Approval.Index.{IsIndexed, empty-IsIndexed, Reaches-IsIndexed}
use intent_rebase.Intent.Approval.History.{Reaches}

abbrev pub has_id : ℕ → ApprovalRequest → Bool
has_id k q = q.id == k

-- The request, if there is one that passes the test.
abbrev pub holds : (ApprovalRequest → Bool) → Option ApprovalRequest → Bool
holds p none = false
holds p (some q) = p q

any-fetched :
    (p : ApprovalRequest → Bool) (m : Map ApprovalRequest) (k : ℕ) (ks : List ℕ)
    → ((j : ℕ) (q : ApprovalRequest) → get j m ≡ some q → q.id ≡ j)
    → any (has_id k) (filter p (fetched m ks)) ≡ holds (λ q. p q && ltb 0 (count k ks)) (get k m)
any-fetched p m k [] keyed = ground arith
any-fetched p m k (j ∷ ks) keyed = elim (Option-cases (get j m)) [
  | inl missing ↦ ground (arith, any-fetched p m k ks keyed, ==_iff j k)
  | inr (q, found) ↦
      ground (arith, any-fetched p m k ks keyed, keyed j q found, ==_iff j k, ==_iff q.id k)
]

All-filtered :
    (P : ApprovalRequest → Type 0) (p : ApprovalRequest → Bool) (xs : List ApprovalRequest)
    → All P xs
    → All P (filter p xs)
All-filtered P p [] h = tt
All-filtered P p (x ∷ xs) (q, h) = elim (Bool-cases (p x)) [
  | inl is ↦ rw (is, filter) (q, All-filtered P p xs h)
  | inr other ↦ rw (other, filter) (All-filtered P p xs h)
]

abbrev pub IsStored : ApprovalRepo → ApprovalRequest → Type 0
IsStored r q = get q.id r.requests ≡ some q

module _ (r : ApprovalRepo) (h : IsIndexed r) where
  All-IsStored :
      (p : ApprovalRequest → Bool) (ks : List ℕ)
      → All (IsStored r) (sort newest_first (filter p (fetched r.requests ks)))
  All-IsStored p ks = All-sort newest_first (IsStored r) (filter p (fetched r.requests ks)) (
      All-filtered (IsStored r) p (fetched r.requests ks) (
        All-fetched (λ q. q.id) r.requests h.keyed (IsStored r) ks
          (λ k q m e. subst (λ j. get j r.requests ≡ some q) (sym (h.keyed k q e)) e)))

  pub pending_listed :
      (intent tenant k : ℕ)
      → (any (has_id k) (list_pending_by_intent intent tenant r)
          ≡ holds (of_intent pending intent tenant) (get k r.requests))
        × (any (has_id k) (list_pending_by_tenant tenant r)
            ≡ holds (is_pending_of tenant) (get k r.requests))
        × All (IsStored r) (list_pending_by_intent intent tenant r)
        × All (IsStored r) (list_pending_by_tenant tenant r)
  unfolding list_pending_by_intent list_pending_by_tenant
  pending_listed intent tenant k =
      let p = is_pending_of tenant in
      let m = r.requests in
      let ks = r.by_intent intent in
      let ts = r.by_tenant tenant in
      (
        any-sort newest_first (has_id k) (filter p (fetched m ks))
            ∙ any-fetched p m k ks h.keyed
            ∙ ground (arith, h.intents intent k),
        any-sort newest_first (has_id k) (filter p (fetched m ts))
            ∙ any-fetched p m k ts h.keyed
            ∙ ground (arith, h.tenants tenant k),
        All-IsStored p ks,
        All-IsStored p ts,
      )

-- After any calls on an empty repository (creating requests with new identifiers, the updates of the
-- status, the expiry and the three cancellations), the listings show just the pending requests of the
-- intent, or of the tenant: a request is listed exactly if it is stored, pending and of the intent, or
-- of the tenant, and every listed request is as it is stored.
pub pending_listed_exact :
    {r : ApprovalRepo} (intent tenant k : ℕ)
    → Reaches empty r
    → (any (has_id k) (list_pending_by_intent intent tenant r)
        ≡ holds (of_intent pending intent tenant) (get k r.requests))
      × (any (has_id k) (list_pending_by_tenant tenant r)
          ≡ holds (is_pending_of tenant) (get k r.requests))
      × All (IsStored r) (list_pending_by_intent intent tenant r)
      × All (IsStored r) (list_pending_by_tenant tenant r)
pending_listed_exact {r} intent tenant k past =
    pending_listed r (Reaches-IsIndexed empty-IsIndexed past) intent tenant k

none_listed : (xs : List ApprovalRequest) → ((k : ℕ) → any (has_id k) xs ≡ false) → xs ≡ []
none_listed [] h = refl
none_listed (x ∷ xs) h = ground (arith, h x.id, ==_refl x.id)

-- Where no stored request is pending for the intent, none is listed.
pub none_pending :
    (r : ApprovalRepo) (intent tenant : ℕ)
    → IsIndexed r
    → ((k : ℕ) → holds (of_intent pending intent tenant) (get k r.requests) ≡ false)
    → list_pending_by_intent intent tenant r ≡ []
none_pending r intent tenant h absent =
    none_listed (list_pending_by_intent intent tenant r)
      (λ k. (pending_listed r h intent tenant k).0 ∙ absent k)
