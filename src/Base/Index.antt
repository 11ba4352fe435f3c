-- ===== src/Base/Index.antt =====
-- A secondary index of a map of records: a list of keys, read back through the map.
use Prim.Native.Nat.{ℕ, ◌<◌}
use mathlib.Core.Path.{◌≡◌}
use mathlib.Core.Bool.{Bool}
use mathlib.Core.Option.{Option, none, some}
use mathlib.Core.List.{List, [], ◌∷◌, map}
use mathlib.Core.Logic.{inl, inr}
use native.Mathlib.Omega.{arith}
use intent_rebase.Base.Tests.{if◌then◌else◌, Option-cases}
use intent_rebase.Base.Lists.{count, All}
use intent_rebase.Base.Maps.{Map, get}

module _ {V : Type 0} where
  -- The records stored under the keys of a list; a key without a record is passed over.
  abbrev pub fetched : Map V → List ℕ → List V
  fetched m [] = []
  fetched m (k ∷ ks) = let rest = fetched m ks in elim (get k m) [ none ↦ rest | some v ↦ v ∷ rest ]

  -- How often an index that holds each key with the property once holds this one.
  abbrev pub held : (V → Bool) → Option V → ℕ
  held p none = 0
  held p (some v) = if p v then 1 else 0

  -- Each key as often as it stands in the list, if a record is stored under it.
  abbrev pub if_present : Option V → ℕ → ℕ
  if_present none n = 0
  if_present (some v) n = n

  module _ (key : V → ℕ) (m : Map V) (keyed : (k : ℕ) (v : V) → get k m ≡ some v → key v ≡ k) where
    pub count-fetched :
        (k : ℕ) (ks : List ℕ) → count k (map key (fetched m ks)) ≡ if_present (get k m) (count k ks)
    count-fetched k [] = ground arith
    count-fetched k (x ∷ ks) = elim (Option-cases (get x m)) [
      | inl e ↦ ground (arith, count-fetched k ks)
      | inr (v, e) ↦ ground (arith, count-fetched k ks, keyed x v e)
    ]

    pub All-fetched :
        (Q : V → Type 0) (ks : List ℕ)
        → ((k : ℕ) (v : V) → 0 < count k ks → get k m ≡ some v → Q v)
        → All Q (fetched m ks)
    All-fetched Q [] h = tt
    All-fetched Q (x ∷ ks) h =
        let rest = All-fetched Q ks (λ k v p e. h k v (ground arith) e) in
        elim (Option-cases (get x m)) [
          | inl e ↦ rw (e, All) rest
          | inr (v, e) ↦ rw (e, All) (h x v (ground arith) e, rest)
        ]
