-- ===== src/Intent/Repo/Chain.antt =====
-- The versions of an intent as a chain: numbered one after the other, each with its predecessor as
-- its parent.
use intent_rebase.Base.{
  ℕ, false, Option, none, some, List, [], ◌∷◌, ◌++◌, ◌==◌, ==_iff, Map, get, insert, get-insert,
  ◌≡◌, refl, ◌∙◌, arith,
}
use intent_rebase.Base.Int32.{succ}
use intent_rebase.Engine.Types.{IntentVersion}
use intent_rebase.Intent.Repo.Defs.{last}

-- The number of the last of some versions, where the first one follows the number `n`.
abbrev pub number_after : ℕ → List ℕ → ℕ
number_after n [] = n
number_after n (v ∷ vs) = number_after (succ n) vs

abbrev pub last_or : Option ℕ → List ℕ → Option ℕ
last_or parent [] = parent
last_or parent (v ∷ vs) = last_or (some v) vs

-- The version stored under `v` follows the number `n` and the parent.
abbrev pub IsLink : Map IntentVersion → ℕ → ℕ → Option ℕ → ℕ → Type 0
IsLink m intent_id n parent v =
    (x : IntentVersion) × (get v m ≡ some x)
    × (x.id ≡ v)
    × (x.intent_id ≡ intent_id)
    × (x.version_number ≡ succ n)
    × (x.parent_version_id ≡ parent)

abbrev pub IsChain : Map IntentVersion → ℕ → ℕ → Option ℕ → List ℕ → Type 0
IsChain m intent_id n parent [] = Unit
IsChain m intent_id n parent (v ∷ vs) =
    IsLink m intent_id n parent v × IsChain m intent_id (succ n) (some v) vs

pub last-eq-last_or :
    (parent : Option ℕ) (v : ℕ) (vs : List ℕ) → last_or parent (v ∷ vs) ≡ last (v ∷ vs)
last-eq-last_or parent v [] = refl
last-eq-last_or parent v (w ∷ vs) = last-eq-last_or (some v) w vs ∙ ground arith

pub number_after-append :
    (n v : ℕ) (vs : List ℕ) → number_after n (vs ++ v ∷ []) ≡ succ (number_after n vs)
number_after-append n v [] = refl
number_after-append n v (w ∷ vs) = number_after-append (succ n) v vs

fresh-ne :
    (m : Map IntentVersion) (v w : ℕ) (x : IntentVersion)
    → get v m ≡ none
    → get w m ≡ some x
    → (w == v) ≡ false
fresh-ne m v w x fresh found = ground (arith, ==_iff w v)

-- A new version leaves the links and chains of the old ones.
pub IsLink-insert :
    (m : Map IntentVersion) (k n v w : ℕ) (y : IntentVersion) (parent : Option ℕ)
    → get v m ≡ none
    → IsLink m k n parent w
    → IsLink (insert v y m) k n parent w
IsLink-insert m k n v w y parent fresh (x, found, id, owner, number, before) =
    (x, get-insert w v y m ∙ rw (fresh-ne m v w x fresh found) found, id, owner, number, before)

pub IsChain-insert :
    (m : Map IntentVersion) (k n v : ℕ) (y : IntentVersion) (parent : Option ℕ) (vs : List ℕ)
    → get v m ≡ none
    → IsChain m k n parent vs
    → IsChain (insert v y m) k n parent vs
IsChain-insert m k n v y parent [] fresh h = tt
IsChain-insert m k n v y parent (w ∷ vs) fresh (link, rest) = (
  IsLink-insert m k n v w y parent fresh link,
  IsChain-insert m k (succ n) v y (some w) vs fresh rest,
)

pub IsChain-append :
    (m : Map IntentVersion) (k n v : ℕ) (parent : Option ℕ) (vs : List ℕ)
    → IsChain m k n parent vs
    → IsLink m k (number_after n vs) (last_or parent vs) v
    → IsChain m k n parent (vs ++ v ∷ [])
IsChain-append m k n v parent [] h link = (link, tt)
IsChain-append m k n v parent (w ∷ vs) (first, rest) link =
    (first, IsChain-append m k (succ n) v (some w) vs rest link)
