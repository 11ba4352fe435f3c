-- ===== src/Intent/Service/Reading.antt =====
-- What the service reads after it wrote, and the comparison of two stored versions.
use intent_rebase.Base.{
  ℕ, Option, none, some, ==_refl, get, get-insert, length, ok, ◌+◌, ◌<◌, ◌≡◌, ◌⊎◌, refl, ap, ◌∙◌,
  arith,
}
use intent_rebase.Base.Int32.{succ, sign}
use intent_rebase.Engine.Types.{IntentVersion}
use intent_rebase.Intent.Types.{Intent, CreateVersionRequest}
use intent_rebase.Intent.Repo.Defs.{
  get_intent_for_update, get_version_by_intent_and_number, next_version, ids_of,
}
use intent_rebase.Intent.Repo.History.{IsChained}
use intent_rebase.Intent.Repo.Head.{new_version_found}
use intent_rebase.Intent.Service.Defs.{IntentService, IntentState, create_version, get_intent_head}
use intent_rebase.Intent.Service.Versions.{
  response, repo_after, create_version_done, after_version_repo,
}

head_read :
    (k : ℕ) (s : IntentState) (i : Intent) (x : IntentVersion)
    → get k s.repo.intents ≡ some i
    → get_version_by_intent_and_number k i.current_version s.repo ≡ ok x
    → get_intent_head k s ≡ ok (record { intent = i; version = x; row_version = 0 })
unfolding get_intent_head get_intent_for_update
head_read k s i x stored found = ground arith

-- Over the in-memory repository, whose versions are a chain after every history, a caller that expects
-- no version, or the current one, always succeeds with a stored intent, and the head of the intent is
-- then the version of its request. So a caller that was refused with a conflict gets through by trying
-- again with the version that it reads, unless another one comes in between. The row version that the
-- caller expects plays no part: this repository does not compare it, so a stale one is accepted too,
-- where the documentation of the call and the API ask for a conflict. The bounds: the identifier of the
-- version is new, and there are fewer than 2 ^ 31 versions, as many as an `i32` can number.
pub version_retry_succeeds :
    (svc : IntentService) (v now k : ℕ) (q : CreateVersionRequest) (expected row : Option ℕ)
    (s : IntentState) (i : Intent)
    → IsChained s.repo
    → get k s.repo.intents ≡ some i
    → (expected ≡ none) ⊎ (expected ≡ some i.current_version)
    → get v s.repo.versions ≡ none
    → length (ids_of k s.repo) + 1 < sign
    → let (result, t) = create_version svc v now k q expected row s in
      (result ≡ ok (response svc v now k q row s i))
      × (get_intent_head k t
          ≡ ok (record {
            intent = record i { current_version = succ i.current_version };
            version = next_version svc.compute_payload_hash i k v now q s.repo;
            row_version = 0;
          }))
version_retry_succeeds svc v now k q expected row s i chained stored fits fresh few =
    let done = create_version_done svc v now k q row s i expected stored fits in
    let t = (create_version svc v now k q expected row s).1 in
    let i' = record i { current_version = succ i.current_version } in
    let repo : t.repo ≡ repo_after svc v now k q row s i =
      ap (λ z. z.1.repo) done
      ∙ after_version_repo svc now i k (succ i.current_version)
          (record s { repo = repo_after svc v now k q row s i }) in
    (
      ap (λ z. z.0) done,
      head_read k t i' (next_version svc.compute_payload_hash i k v now q s.repo)
          (ap (λ z. get k z.intents) repo ∙ get-insert k k i' s.repo.intents ∙ rw (==_refl k) refl)
          (ap (get_version_by_intent_and_number k (succ i.current_version)) repo
            ∙ new_version_found svc.compute_payload_hash k v now q i s.repo fresh
                (chained k i stored) few),
    )
