-- ===== src/Base/Lists.antt =====
-- Lists measured by native numbers, Boolean filters, counting and membership by recursion.
use Prim.Native.Nat.{ℕ, suc, ◌+◌, ◌≤◌}
use mathlib.Core.Path.{◌≡◌, refl}
use mathlib.Core.Logic.{◌⊎◌, inl, inr}
use mathlib.Core.Bool.{Bool, true, false}
use mathlib.Core.Option.{Option, none, some}
use mathlib.Core.List.{List, [], ◌∷◌, ◌++◌}
use native.Mathlib.Omega.{arith}
use intent_rebase.Base.Tests.{◌==◌, if◌then◌else◌}

module _ {ℓ} {A : Type ℓ} where
  abbrev pub length : List A → ℕ
  length [] = 0
  length (x ∷ xs) = suc (length xs)

  -- `Iterator::filter` and `Vec::retain`.
  abbrev pub filter : (A → Bool) → List A → List A
  filter p [] = []
  filter p (x ∷ xs) = let rest = filter p xs in if p x then x ∷ rest else rest

  abbrev pub any : (A → Bool) → List A → Bool
  any p [] = false
  any p (x ∷ xs) = let rest = any p xs in if p x then true else rest

  abbrev pub filter_map {κ} : {B : Type κ} → (A → Option B) → List A → List B
  filter_map f [] = []
  filter_map f (x ∷ xs) =
      let rest = filter_map f xs in elim (f x) [ none ↦ rest | some y ↦ y ∷ rest ]

  -- A predicate of every member, by recursion.
  abbrev pub All {κ} : (A → Type κ) → List A → Type κ
  All P [] = Unit
  All P (x ∷ xs) = P x × All P xs

  pub length-append : (xs ys : List A) → length (xs ++ ys) ≡ length xs + length ys
  length-append [] ys = omega arith
  length-append (x ∷ xs) ys = omega (arith, length-append xs ys)

  pub length-filter-le : (p : A → Bool) (xs : List A) → length (filter p xs) ≤ length xs
  length-filter-le p [] = omega arith
  length-filter-le p (x ∷ xs) = ground (arith, length-filter-le p xs)

-- How often a number stands in a list.
abbrev pub count : ℕ → List ℕ → ℕ
count k [] = 0
count k (x ∷ xs) = let rest = count k xs in if x == k then suc rest else rest

pub count-append : (k : ℕ) (xs ys : List ℕ) → count k (xs ++ ys) ≡ count k xs + count k ys
count-append k [] ys = omega arith
count-append k (x ∷ xs) ys = ground (arith, count-append k xs ys)

-- `ids.retain(|id| id != k)`.
abbrev pub retain_ne : ℕ → List ℕ → List ℕ
retain_ne k [] = []
retain_ne k (x ∷ xs) = let rest = retain_ne k xs in if x == k then rest else x ∷ rest

pub count-retain_ne :
    (j k : ℕ) (xs : List ℕ) → count j (retain_ne k xs) ≡ (if j == k then 0 else count j xs)
count-retain_ne j k [] = ground arith
count-retain_ne j k (x ∷ xs) = ground (arith, count-retain_ne j k xs)

abbrev pub is_empty {ℓ} : {A : Type ℓ} → List A → Bool
is_empty [] = true
is_empty (x ∷ xs) = false

-- Membership, by recursion.
abbrev pub Member : {A : Type 0} → A → List A → Type 0
Member x [] = ⊥
Member x (y ∷ ys) = (x ≡ y) ⊎ Member x ys

pub Member-append :
    {A : Type 0} (x : A) (xs ys : List A) → Member x xs ⊎ Member x ys → Member x (xs ++ ys)
Member-append x [] ys (inl h) = elim h [ ]
Member-append x [] ys (inr h) = h
Member-append x (z ∷ xs) ys (inl (inl here)) = inl here
Member-append x (z ∷ xs) ys (inl (inr h)) = inr (Member-append x xs ys (inl h))
Member-append x (z ∷ xs) ys (inr h) = inr (Member-append x xs ys (inr h))

pub Member-nonempty : {A : Type 0} (x : A) (xs : List A) → Member x xs → is_empty xs ≡ false
Member-nonempty x [] h = elim h [ ]
Member-nonempty x (y ∷ xs) h = refl
