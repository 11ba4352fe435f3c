-- ===== src/Intent/Repo/History.antt =====
-- The histories of the repository keep the versions of every intent a chain.
use intent_rebase.Base.{
  ℕ, String, false, none, some, List, [], ◌∷◌, ◌++◌, ◌==◌, ==_iff, ==_refl, if◌then◌else◌, Map, get,
  insert, get-insert, is_empty, ◌≡◌, refl, sym, ap, ◌∙◌, subst, arith, inl, inr, Bool-cases,
  Option-cases,
}
use intent_rebase.Base.Int32.{succ}
use intent_rebase.Engine.Types.{IntentVersion, IntentPayload}
use intent_rebase.Intent.Types.{Intent, CreateIntentRequest, CreateVersionRequest}
use intent_rebase.Intent.Repo.Defs.{
  IntentRepo, empty, ids_of, last, first_intent, first_version, next_version, create_intent_tx,
  create_version_with_occ,
}
use intent_rebase.Intent.Repo.Cases.{
  written, create_version_missing, create_version_stale, create_version_current,
}
use intent_rebase.Intent.Repo.Chain.{
  number_after, last_or, IsChain, last-eq-last_or, number_after-append, IsChain-insert,
  IsChain-append,
}

-- The stored versions of an intent are a chain from number 1, and the last one is current.
abbrev pub IsVersioned : Map IntentVersion → ℕ → Intent → List ℕ → Type 0
IsVersioned m k i vs =
    (i.id ≡ k)
    × IsChain m k 0 none vs
    × (i.current_version ≡ number_after 0 vs)
    × (is_empty vs ≡ false)

abbrev pub IsChained : IntentRepo → Type 0
IsChained r =
    (k : ℕ) (i : Intent) → get k r.intents ≡ some i → IsVersioned r.versions k i (ids_of k r)

ids_of-insert :
    (j k : ℕ) (vs : List ℕ) (intents : Map Intent) (versions : Map IntentVersion) (r : IntentRepo)
    → ids_of j (record {
      intents = intents;
      versions = versions;
      versions_by_intent = insert k vs r.versions_by_intent;
    })
      ≡ (if j == k then vs else ids_of j r)
ids_of-insert j k vs intents versions r = ground (arith, get-insert j k vs r.versions_by_intent)

pub written-IsChained :
    (k v : ℕ) (i : Intent) (x : IntentVersion) (vs : List ℕ) (r : IntentRepo)
    → IsChained r
    → get v r.versions ≡ none
    → IsVersioned (insert v x r.versions) k i vs
    → IsChained (written k v i x vs r)
written-IsChained k v i x vs r c fresh new j y e =
    let m = insert v x r.versions in
    let ids = ids_of-insert j k vs (insert k i r.intents) m r in
    let found = sym (get-insert j k i r.intents) ∙ e in
    elim (Bool-cases (j == k)) [
      | inl is ↦
          let j_k : k ≡ j = sym ((==_iff j k).0 is) in
          let i_y : i ≡ y = ground arith in
          rw (ids, is)
            (subst (λ z. IsVersioned m j z vs) i_y (subst (λ n. IsVersioned m n i vs) j_k new))
      | inr other ↦
          let (id, chain, current, begun) = c j y (ground arith) in
          rw (ids, other)
            (id, IsChain-insert r.versions j 0 v x none (ids_of j r) fresh chain, current, begun)
    ]

create_intent_tx-IsChained :
    (hash : IntentPayload → String) (intent_id version_id default_tenant now : ℕ)
    (q : CreateIntentRequest) (r : IntentRepo)
    → IsChained r
    → get version_id r.versions ≡ none
    → IsChained (create_intent_tx hash intent_id version_id default_tenant now q r).1
unfolding create_intent_tx
create_intent_tx-IsChained hash intent_id version_id default_tenant now q r c fresh =
    let x = first_version hash intent_id version_id now q in
    written-IsChained intent_id version_id (first_intent intent_id default_tenant now q) x
      (version_id ∷ []) r c fresh
      (
        refl,
        (
          (
            x,
            get-insert version_id version_id x r.versions ∙ rw (==_refl version_id) refl,
            refl,
            refl,
            refl,
            refl,
          ),
          tt,
        ),
        refl,
        refl,
      )

append-begun : (vs : List ℕ) (v : ℕ) → is_empty (vs ++ v ∷ []) ≡ false
append-begun [] v = refl
append-begun (w ∷ vs) v = refl

last_or-last : (vs : List ℕ) → is_empty vs ≡ false → last_or none vs ≡ last vs
last_or-last [] h = cc
last_or-last (v ∷ vs) h = last-eq-last_or none v vs

pub next_version-IsVersioned :
    (hash : IntentPayload → String) (k v now : ℕ) (q : CreateVersionRequest) (i : Intent)
    (r : IntentRepo)
    → get v r.versions ≡ none
    → IsVersioned r.versions k i (ids_of k r)
    → IsVersioned
        (insert v (next_version hash i k v now q r) r.versions)
        k
        (record i { current_version = succ i.current_version })
        (ids_of k r ++ v ∷ [])
next_version-IsVersioned hash k v now q i r fresh (id, chain, current, begun) =
    let vs = ids_of k r in
    let x = next_version hash i k v now q r in
    (
      id,
      IsChain-append (insert v x r.versions) k 0 v none vs
          (IsChain-insert r.versions k 0 v x none vs fresh chain)
          (
            x,
            get-insert v v x r.versions ∙ rw (==_refl v) refl,
            refl,
            refl,
            ap succ current,
            sym (last_or-last vs begun),
          ),
      ap succ current ∙ sym (number_after-append 0 v vs),
      append-begun vs v,
    )

create_version_with_occ-IsChained :
    (hash : IntentPayload → String) (v now k : ℕ) (q : CreateVersionRequest) (expected row : ℕ)
    (r : IntentRepo)
    → IsChained r
    → get v r.versions ≡ none
    → IsChained (create_version_with_occ hash v now k q expected row r).1
create_version_with_occ-IsChained hash v now k q expected row r c fresh =
    elim (Option-cases (get k r.intents)) [
      | inl missing ↦ rw (create_version_missing hash v now k q expected row r missing) c
      | inr (i, found) ↦ elim (Bool-cases (i.current_version == expected)) [
        | inr stale ↦ rw (create_version_stale hash v now k q expected row r i found stale) c
        | inl current ↦ rw (create_version_current hash v now k q expected row r i found current) (
            written-IsChained k v (record i { current_version = succ i.current_version })
              (next_version hash i k v now q r) (ids_of k r ++ v ∷ []) r c fresh
              (next_version-IsVersioned hash k v now q i r fresh (c k i found)))
      ]
    ]

-- The histories of the repository: calls in any order, by any callers, that may fail. A new intent
-- and a new version have new identifiers, as `Uuid::new_v4` gives.
pub data History (hash : IntentPayload → String) : IntentRepo → Type 0 where
  start : History hash empty
  creates :
      {r : IntentRepo} (intent_id version_id default_tenant now : ℕ) (q : CreateIntentRequest)
      → History hash r
      → get intent_id r.intents ≡ none
      → get version_id r.versions ≡ none
      → History hash (create_intent_tx hash intent_id version_id default_tenant now q r).1
  revises :
      {r : IntentRepo} (version_id now intent_id : ℕ) (q : CreateVersionRequest) (expected row : ℕ)
      → History hash r
      → get version_id r.versions ≡ none
      → History hash (create_version_with_occ hash version_id now intent_id q expected row r).1

-- After every history the versions of every intent are a chain: numbered from 1 without a gap, each
-- with the one before as its parent and each stored under its identifier with its intent, and the
-- current version of the intent is the last one.
pub History-IsChained :
    (hash : IntentPayload → String) {r : IntentRepo} → History hash r → IsChained r
unfolding empty
History-IsChained hash start = λ k i h. ground arith
History-IsChained hash (creates {r} id v tenant now q h unused fresh) =
    create_intent_tx-IsChained hash id v tenant now q r (History-IsChained hash h) fresh
History-IsChained hash (revises {r} v now k q expected row h fresh) =
    create_version_with_occ-IsChained hash v now k q expected row r (History-IsChained hash h) fresh
