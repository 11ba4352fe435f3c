-- ===== src/Intent/Repo/Head.antt =====
-- The current version of an intent, right after it was created.
use intent_rebase.Base.{
  ℕ, String, none, some, List, [], ◌∷◌, ◌++◌, ==_refl, Map, get, insert, get-insert, length,
  length-append, any-sort, sort, All, All-sort, fetched, ◌+◌, ◌≤◌, ◌<◌, ◌≡◌, ◌⊎◌, refl, ap, ◌∙◌,
  subst, arith, inl, inr, Option-cases, ok,
}
use intent_rebase.Base.Int32.{succ, sign}
use intent_rebase.Engine.Types.{IntentVersion, IntentPayload}
use intent_rebase.Intent.Types.{Intent, CreateVersionRequest}
use intent_rebase.Intent.Repo.Defs.{
  IntentRepo, ids_of, by_number, get_versions_by_intent, get_version_by_intent_and_number,
  next_version,
}
use intent_rebase.Intent.Repo.Chain.{IsChain-insert}
use intent_rebase.Intent.Repo.Cases.{written}
use intent_rebase.Intent.Repo.History.{IsVersioned, next_version-IsVersioned}
use intent_rebase.Intent.Repo.Reading.{
  IsVersionOf, chain_members, chain_has, number_after_lem, find_number_found, numbered,
}

All-fetched_append :
    (P : IntentVersion → Type 0) (m : Map IntentVersion) (v : ℕ) (x : IntentVersion) (vs : List ℕ)
    → All P (fetched m vs)
    → get v m ≡ some x
    → P x
    → All P (fetched m (vs ++ v ∷ []))
All-fetched_append P m v x [] h found p = rw (found, fetched) (p, tt)
All-fetched_append P m v x (w ∷ vs) h found p = elim (Option-cases (get w m)) [
  | inl missing ↦
      let e : fetched m (w ∷ vs) ≡ fetched m vs = rw (missing, fetched) refl in
      rw (missing, fetched) (All-fetched_append P m v x vs (subst (All P) e h) found p)
  | inr (y, there) ↦
      let e : fetched m (w ∷ vs) ≡ y ∷ fetched m vs = rw (there, fetched) refl in
      let parts : P y × All P (fetched m vs) = subst (All P) e h in
      rw (there, fetched) (parts.0, All-fetched_append P m v x vs parts.1 found p)
]

below_or_new :
    (m : Map IntentVersion) (k n : ℕ) (x : IntentVersion) (ys : List IntentVersion)
    → All (IsVersionOf m k 0 n) ys
    → All (λ y. (y.version_number ≤ n) ⊎ (y ≡ x)) ys
below_or_new m k n x [] h = tt
below_or_new m k n x (y ∷ ys) (p, h) = (inl p.3, below_or_new m k n x ys h)

-- Right after its creation the new version is found under its number.
pub new_version_found :
    (hash : IntentPayload → String) (k v now : ℕ) (q : CreateVersionRequest) (i : Intent)
    (r : IntentRepo)
    → get v r.versions ≡ none
    → IsVersioned r.versions k i (ids_of k r)
    → length (ids_of k r) + 1 < sign
    → let i' = record i { current_version = succ i.current_version } in
      let x = next_version hash i k v now q r in
      get_version_by_intent_and_number k
        (succ i.current_version)
        (written k v i' x (ids_of k r ++ v ∷ []) r)
      ≡ ok x
unfolding get_version_by_intent_and_number get_versions_by_intent
new_version_found hash k v now q i r fresh old few =
    let vs = ids_of k r in
    let x = next_version hash i k v now q r in
    let m = insert v x r.versions in
    let i' = record i { current_version = succ i.current_version } in
    let w = written k v i' x (vs ++ v ∷ []) r in
    let n : ℕ = succ i.current_version in
    let (id, chain, current, begun) = old in
    let (id', chain', current', begun') = next_version-IsVersioned hash k v now q i r fresh old in
    let there : get v m ≡ some x = get-insert v v x r.versions ∙ rw (==_refl v) refl in
    let number : i.current_version ≡ length vs =
      current ∙ number_after_lem 0 vs (omega arith) ∙ omega arith in
    let ids : ids_of k w ≡ vs ++ v ∷ [] =
      rw (get-insert k k (vs ++ v ∷ []) r.versions_by_intent, ==_refl k, ids_of) refl in
    let below = below_or_new m k (length vs) x (fetched m vs) (
      chain_members m k 0 (length vs) 0 none vs
        (IsChain-insert r.versions k 0 v x none vs fresh chain) (omega arith) (omega arith)
        (omega arith)) in
    let all =
      All-sort by_number (λ y. (y.version_number ≤ length vs) ⊎ (y ≡ x)) (fetched m (vs ++ v ∷ []))
        (All-fetched_append (λ y. (y.version_number ≤ length vs) ⊎ (y ≡ x)) m v x vs below there
          (inr refl)) in
    let has =
      any-sort by_number (numbered n) (fetched m (vs ++ v ∷ []))
      ∙ chain_has m k 0 n none (vs ++ v ∷ []) chain' (omega (arith, length-append vs (v ∷ [])))
          (omega arith) (omega (arith, length-append vs (v ∷ []))) in
    let (y, found, same, either) =
      find_number_found n (λ y. (y.version_number ≤ length vs) ⊎ (y ≡ x))
        (sort by_number (fetched m (vs ++ v ∷ []))) has all in
    let y_x : y ≡ x = elim either [ inl low ↦ absurd (omega arith) | inr e ↦ e ] in
    rw ids (rw found (ap ok y_x))
