-- ===== src/Intent/Service/Versions.antt =====
-- The creation of a version by the service: the lock on the version number, and the requests for
-- approval that it cancels.
use intent_rebase.Base.{
  ℕ, false, Option, none, some, [], ◌∷◌, ◌++◌, ◌==◌, ==_iff, ==_refl, get, get-insert, ok, err,
  concurrency_conflict, intent_not_found, ◌≡◌, refl, ap, ◌∙◌, arith, inl, inr, ◌⊎◌, Bool-cases,
  Option-cases, subst,
}
use intent_rebase.Base.Int32.{succ}
use intent_rebase.Engine.Types.{VersionStatus}
use intent_rebase.Intent.Types.{Intent, CreateVersionRequest, CreateVersionResponse}
use intent_rebase.Intent.Repo.Defs.{
  IntentRepo, create_version_with_occ, get_intent_for_update, next_version, ids_of,
}
use intent_rebase.Intent.Repo.Cases.{written}
use intent_rebase.Intent.Approval.Defs.{cancel_where, cancel_pending_by_intent}
use intent_rebase.Intent.Service.Defs.{
  IntentService, IntentState, create_version, after_version, or_given,
}

module _ (svc : IntentService) (v now k : ℕ) (q : CreateVersionRequest) (row : Option ℕ)
    (s : IntentState) where
  abbrev pub response : Intent → CreateVersionResponse
  response i = record {
    intent_version_id = v;
    intent_id = k;
    version_number = succ i.current_version;
    status = VersionStatus.active;
  }

  abbrev pub repo_after : Intent → IntentRepo
  repo_after i =
      written k v (record i { current_version = succ i.current_version })
        (next_version svc.compute_payload_hash i k v now q s.repo) (ids_of k s.repo ++ v ∷ [])
        s.repo

  -- Without a stored intent, or with another current version than the expected one, nothing is
  -- changed.
  create_version_unknown :
      (expected : Option ℕ)
      → get k s.repo.intents ≡ none
      → create_version svc v now k q expected row s ≡ (err (intent_not_found k), s)
  unfolding create_version get_intent_for_update
  create_version_unknown expected h = ground arith

  create_version_conflict :
      (i : Intent) (e : ℕ)
      → get k s.repo.intents ≡ some i
      → (i.current_version == e) ≡ false
      → create_version svc v now k q (some e) row s ≡ (err (concurrency_conflict k), s)
  unfolding create_version get_intent_for_update create_version_with_occ
  create_version_conflict i e h stale = ground arith

  pub create_version_done :
      (i : Intent) (expected : Option ℕ)
      → get k s.repo.intents ≡ some i
      → (expected ≡ none) ⊎ (expected ≡ some i.current_version)
      → create_version svc v now k q expected row s ≡ (
        ok (response i),
        after_version svc now i k (succ i.current_version) (record s { repo = repo_after i }),
      )
  unfolding create_version get_intent_for_update create_version_with_occ
  create_version_done i expected h fits = elim fits [
    | inl free ↦ rw free (ground (arith, ==_refl i.current_version))
    | inr given ↦ rw given (ground (arith, ==_refl i.current_version))
  ]

  pub create_version_ok :
      (expected : Option ℕ) (x : CreateVersionResponse) (t : IntentState)
      → create_version svc v now k q expected row s ≡ (ok x, t)
      → (i : Intent) × (get k s.repo.intents ≡ some i)
        × (i.current_version ≡ or_given expected i.current_version)
        × (t
            ≡ after_version svc now i k (succ i.current_version) (record s { repo = repo_after i }))
  unfolding create_version get_intent_for_update create_version_with_occ
  create_version_ok expected x t h = elim (Option-cases (get k s.repo.intents)) [
    | inl missing ↦ absurd (ground arith)
    | inr (i, found) ↦
        elim (Bool-cases (i.current_version == or_given expected i.current_version)) [
          | inl is ↦ (
            i,
            found,
            (==_iff i.current_version (or_given expected i.current_version)).0 is,
            ground arith,
          )
          | inr other ↦ absurd (ground arith)
        ]
  ]

pub after_version_repo :
    (svc : IntentService) (now : ℕ) (i : Intent) (k to : ℕ) (s : IntentState)
    → (after_version svc now i k to s).repo ≡ s.repo
unfolding after_version cancel_pending_by_intent cancel_where
after_version_repo svc now i k to s = ground arith

succ-ne : (n : ℕ) → (succ n == n) ≡ false
succ-ne n = ground arith

-- Of two callers that expect the same current version of an intent, the one that comes second is
-- refused with a conflict and changes nothing: neither the versions nor the requests for approval
-- nor the audit log.
pub second_version_refused :
    (svc svc' : IntentService) (v v' now now' k : ℕ) (q q' : CreateVersionRequest) (e : ℕ)
    (row row' : Option ℕ) (x : CreateVersionResponse) (s t : IntentState)
    → create_version svc v now k q (some e) row s ≡ (ok x, t)
    → create_version svc' v' now' k q' (some e) row' t ≡ (err (concurrency_conflict k), t)
second_version_refused svc svc' v v' now now' k q q' e row row' x s t h =
    let (i, found, fits, after) = create_version_ok svc v now k q row s (some e) x t h in
    let i' = record i { current_version = succ i.current_version } in
    let u = record s { repo = repo_after svc v now k q row s i } in
    let stored : get k t.repo.intents ≡ some i' =
      ap (λ z. get k z.repo.intents) after
      ∙ ap (λ z. get k z.intents) (after_version_repo svc now i k (succ i.current_version) u)
      ∙ get-insert k k i' s.repo.intents
      ∙ rw (==_refl k) refl in
    create_version_conflict svc' v' now' k q' row' t i' e stored
      (subst (λ n. (succ i.current_version == n) ≡ false) fits (succ-ne i.current_version))
