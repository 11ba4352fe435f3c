-- ===== src/Intent/Repo/Reading.antt =====
-- What is read of the versions of an intent.
use intent_rebase.Base.{
  ℕ, Bool, true, Option, none, some, List, [], ◌∷◌, ◌==◌, ==_iff, Map, get, length, any, any-sort,
  sort, All, All-sort, fetched, or_err-ok, ◌+◌, ◌≤◌, ◌<◌, ◌≡◌, ◌↔◌, refl, sym, ◌∙◌, subst, arith,
  inl, inr, Bool-cases, ok,
}
use intent_rebase.Base.Int32.{succ, sign, modulus}
use intent_rebase.Engine.Types.{IntentVersion}
use intent_rebase.Intent.Types.{Intent}
use intent_rebase.Intent.Repo.Defs.{
  IntentRepo, ids_of, by_number, find_number, get_versions_by_intent,
  get_version_by_intent_and_number,
}
use intent_rebase.Intent.Repo.Chain.{IsChain, number_after}
use intent_rebase.Intent.Repo.History.{IsChained}

abbrev pub numbered : ℕ → IntentVersion → Bool
numbered n x = x.version_number == n

-- A stored version of the intent with a number from above `low` to `high`.
abbrev pub IsVersionOf : Map IntentVersion → ℕ → ℕ → ℕ → IntentVersion → Type 0
IsVersionOf m k low high x =
    (get x.id m ≡ some x) × (x.intent_id ≡ k) × (low < x.version_number) × (x.version_number ≤ high)

pub chain_members :
    (m : Map IntentVersion) (k low high n : ℕ) (parent : Option ℕ) (vs : List ℕ)
    → IsChain m k n parent vs
    → low ≤ n
    → n + length vs ≤ high
    → high < modulus
    → All (IsVersionOf m k low high) (fetched m vs)
chain_members m k low high n parent [] h a b c = tt
chain_members m k low high n parent (v ∷ vs) ((x, found, id, owner, number, before), rest) a b c =
    let s : succ n ≡ n + 1 = omega arith in
    rw (found, fetched)
      (
        (subst (λ j. get j m ≡ some x) (sym id) found, owner, omega arith, omega arith),
        chain_members m k low high (succ n) (some v) vs rest (omega arith) (omega arith) c,
      )

pub chain_has :
    (m : Map IntentVersion) (k n j : ℕ) (parent : Option ℕ) (vs : List ℕ)
    → IsChain m k n parent vs
    → n + length vs < modulus
    → n < j
    → j ≤ n + length vs
    → any (numbered j) (fetched m vs) ≡ true
chain_has m k n j parent [] h b low high = absurd (omega arith)
chain_has m k n j parent (v ∷ vs) ((x, found, id, owner, number, before), rest) b low high =
    let s : succ n ≡ n + 1 = omega arith in
    rw (found, fetched)
      (elim (Bool-cases (numbered j x)) [
        | inl is ↦ rw is refl
        | inr other ↦ rw other (
            chain_has m k (succ n) j (some v) vs rest (omega arith)
              (ground (arith, ==_iff x.version_number j)) (omega arith))
      ])

pub number_after_lem :
    (n : ℕ) (vs : List ℕ) → n + length vs < modulus → number_after n vs ≡ n + length vs
number_after_lem n [] h = omega arith
number_after_lem n (v ∷ vs) h =
    let s : succ n ≡ n + 1 = omega arith in number_after_lem (succ n) vs (omega arith) ∙ omega arith

pub find_number_found :
    (n : ℕ) (P : IntentVersion → Type 0) (vs : List IntentVersion)
    → any (numbered n) vs ≡ true
    → All P vs
    → (x : IntentVersion) × (find_number n vs ≡ some x) × (x.version_number ≡ n) × P x
find_number_found n P [] h all = cc
find_number_found n P (x ∷ vs) h (p, all) = elim (Bool-cases (numbered n x)) [
  | inl is ↦ (x, rw is refl, (==_iff x.version_number n).0 is, p)
  | inr other ↦
      let (y, found, number, q) = find_number_found n P vs (ground arith) all in
      (y, rw other found, number, q)
]

find_number_in :
    (n : ℕ) (P : IntentVersion → Type 0) (vs : List IntentVersion) (x : IntentVersion)
    → find_number n vs ≡ some x
    → All P vs
    → (x.version_number ≡ n) × P x
find_number_in n P [] x h all = cc
find_number_in n P (y ∷ vs) x h (p, all) = elim (Bool-cases (numbered n y)) [
  | inl is ↦
      let y_x : y ≡ x = ground arith in
      subst (λ z. (z.version_number ≡ n) × P z) y_x ((==_iff y.version_number n).0 is, p)
  | inr other ↦ find_number_in n P vs x (ground arith) all
]

-- What is found under the number `n` is stored, belongs to the intent and has the number.
abbrev pub IsFound : IntentRepo → ℕ → ℕ → IntentVersion → Type 0
IsFound r k n x =
    (get_version_by_intent_and_number k n r ≡ ok x)
    × (x.version_number ≡ n)
    × (x.intent_id ≡ k)
    × (get x.id r.versions ≡ some x)

-- In a repository that a history makes, a version of a stored intent is found by its number just
-- when the number is from 1 to the current version; what is found is stored, belongs to the intent
-- and has the number. The bound: fewer than 2 ^ 31 versions, as many as an `i32` can number.
pub version_by_number_exact :
    (r : IntentRepo) (k n : ℕ) (i : Intent)
    → IsChained r
    → get k r.intents ≡ some i
    → length (ids_of k r) < sign
    → (i.current_version ≡ length (ids_of k r))
      × (((1 ≤ n) × (n ≤ i.current_version)) ↔ ((x : IntentVersion) × IsFound r k n x))
unfolding get_version_by_intent_and_number get_versions_by_intent
version_by_number_exact r k n i c stored few =
    let vs = ids_of k r in
    let m = r.versions in
    let (id, chain, current, begun) = c k i stored in
    let last : i.current_version ≡ length vs =
      current ∙ number_after_lem 0 vs (omega arith) ∙ omega arith in
    let members =
      All-sort by_number (IsVersionOf m k 0 (length vs)) (fetched m vs) (
        chain_members m k 0 (length vs) 0 none vs chain (omega arith) (omega arith)
          (omega arith)) in
    (
      last,
      (
        λ within.
            let there =
              any-sort by_number (numbered n) (fetched m vs)
              ∙ chain_has m k 0 n none vs chain (omega arith) (omega arith) (omega arith) in
            let (x, found, number, (stored_x, owner, low, high)) =
              find_number_found n (IsVersionOf m k 0 (length vs)) (sort by_number (fetched m vs))
                there members in
            (x, (rw found refl, number, owner, stored_x)),
        λ (x, (found, number, owner, stored_x)).
            let (same, (stored_y, owner_y, low, high)) =
              find_number_in n (IsVersionOf m k 0 (length vs)) (sort by_number (fetched m vs)) x
                (or_err-ok _ _ x found) members in
            (omega arith, omega arith),
      ),
    )
