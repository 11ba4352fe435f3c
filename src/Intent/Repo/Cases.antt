-- ===== src/Intent/Repo/Cases.antt =====
-- The creation of a version (in_memory_intent_repository.rs) in each of its cases.
use intent_rebase.Base.{
  ok, err, intent_not_found, concurrency_conflict, ℕ, String, true, false, none, some, List, [],
  ◌∷◌, ◌++◌, ◌==◌, get, insert, ◌≡◌, arith,
}
use intent_rebase.Base.Int32.{succ}
use intent_rebase.Engine.Types.{VersionStatus, IntentVersion, IntentPayload}
use intent_rebase.Intent.Types.{Intent, CreateVersionRequest}
use intent_rebase.Intent.Repo.Defs.{IntentRepo, ids_of, next_version, create_version_with_occ}

-- A write of one intent and of one version of it.
abbrev pub written : ℕ → ℕ → Intent → IntentVersion → List ℕ → IntentRepo → IntentRepo
written k v i x vs r = record {
  intents = insert k i r.intents;
  versions = insert v x r.versions;
  versions_by_intent = insert k vs r.versions_by_intent;
}

-- What `create_version_with_occ` does, case by case.
module _ (hash : IntentPayload → String) (v now k : ℕ) (q : CreateVersionRequest) (expected row : ℕ)
    (r : IntentRepo) where
  pub create_version_missing :
      get k r.intents ≡ none
      → create_version_with_occ hash v now k q expected row r ≡ (err (intent_not_found k), r)
  unfolding create_version_with_occ
  create_version_missing h = ground arith

  pub create_version_stale :
      (i : Intent)
      → get k r.intents ≡ some i
      → (i.current_version == expected) ≡ false
      → create_version_with_occ hash v now k q expected row r ≡ (err (concurrency_conflict k), r)
  unfolding create_version_with_occ
  create_version_stale i h e = ground arith

  pub create_version_current :
      (i : Intent)
      → get k r.intents ≡ some i
      → (i.current_version == expected) ≡ true
      → create_version_with_occ hash v now k q expected row r ≡ (
        ok (record {
          intent_version_id = v;
          intent_id = k;
          version_number = succ i.current_version;
          status = VersionStatus.active;
        }),
        written k v
            (record i { current_version = succ i.current_version })
            (next_version hash i k v now q r)
            (ids_of k r ++ v ∷ [])
            r,
      )
  unfolding create_version_with_occ
  create_version_current i h e = ground arith
