-- ===== src/Base/Sums.antt =====
-- Sums over lists, a loop with an accumulator, and a stable sort.
use Prim.Native.Nat.{ℕ, ◌+◌, ◌≤◌}
use mathlib.Core.Path.{◌≡◌, refl}
use mathlib.Core.Bool.{Bool, true, false}
use mathlib.Core.List.{List, [], ◌∷◌, ◌++◌, map}
use mathlib.Core.Option.{Option, none, some}
use mathlib.Core.Logic.{inl, inr, ◌⊎◌}
use native.Mathlib.Omega.{arith}
use intent_rebase.Base.Tests.{if◌then◌else◌, Bool-cases, Option-cases}
use intent_rebase.Base.Lists.{filter, length, any, filter_map, All}

module _ {ℓ} {A : Type ℓ} where
  abbrev pub total : (A → ℕ) → List A → ℕ
  total f [] = 0
  total f (x ∷ xs) = f x + total f xs

  -- A measure of a value that may be missing.
  abbrev pub measure : (A → ℕ) → Option A → ℕ
  measure f none = 0
  measure f (some a) = f a

  abbrev pub fold_left {κ} : {B : Type κ} → (B → A → B) → B → List A → B
  fold_left f b [] = b
  fold_left f b (x ∷ xs) = fold_left f (f b x) xs

  pub total-append : (f : A → ℕ) (xs ys : List A) → total f (xs ++ ys) ≡ total f xs + total f ys
  total-append f [] ys = omega arith
  total-append f (x ∷ xs) ys = omega (arith, total-append f xs ys)

  pub total-filter :
      (f : A → ℕ) (p : A → Bool) (xs : List A)
      → total f (filter p xs) ≡ total (λ x. if p x then f x else 0) xs
  total-filter f p [] = refl
  total-filter f p (x ∷ xs) = ground (arith, total-filter f p xs)

  -- A filter and its complement part the list.
  pub total_split :
      (f : A → ℕ) (p q : A → Bool) (xs : List A)
      → ((x : A) → (p x ≡ true × q x ≡ false) ⊎ (p x ≡ false × q x ≡ true))
      → total f xs ≡ total f (filter p xs) + total f (filter q xs)
  total_split f p q [] h = omega arith
  total_split f p q (x ∷ xs) h = ground (arith, total_split f p q xs h, h x)

  pub total_le : (f g : A → ℕ) (xs : List A) → ((x : A) → f x ≤ g x) → total f xs ≤ total g xs
  total_le f g [] h = omega arith
  total_le f g (x ∷ xs) h = omega (arith, h x, total_le f g xs h)

  pub total_ext : (f g : A → ℕ) (xs : List A) → ((x : A) → f x ≡ g x) → total f xs ≡ total g xs
  total_ext f g [] h = refl
  total_ext f g (x ∷ xs) h = omega (arith, h x, total_ext f g xs h)

  pub total_zero : (f : A → ℕ) (xs : List A) → ((x : A) → f x ≡ 0) → total f xs ≡ 0
  total_zero f [] h = refl
  total_zero f (x ∷ xs) h = omega (arith, h x, total_zero f xs h)

  pub total_add : (f g : A → ℕ) (xs : List A) → total (λ x. f x + g x) xs ≡ total f xs + total g xs
  total_add f g [] = omega arith
  total_add f g (x ∷ xs) = omega (arith, total_add f g xs)

  pub total_one : (xs : List A) → total (λ x. 1) xs ≡ length xs
  total_one [] = refl
  total_one (x ∷ xs) = omega (arith, total_one xs)

  pub All-any-false : (p : A → Bool) (xs : List A) → any p xs ≡ false → All (λ x. p x ≡ false) xs
  All-any-false p [] h = tt
  All-any-false p (x ∷ xs) h = elim (Bool-cases (p x)) [
    | inl e ↦ ground arith
    | inr e ↦ (e, All-any-false p xs (ground arith))
  ]

  pub All-filter : (p : A → Bool) (xs : List A) → All (λ x. p x ≡ true) (filter p xs)
  All-filter p [] = tt
  All-filter p (x ∷ xs) =
      let rest = All-filter p xs in
      elim (Bool-cases (p x)) [
        | inl is ↦ rw (is, filter) (is, rest)
        | inr other ↦ rw (other, filter) rest
      ]

  pub All-append {κ} : (P : A → Type κ) (xs ys : List A) → All P xs → All P ys → All P (xs ++ ys)
  All-append P [] ys h k = k
  All-append P (x ∷ xs) ys (p, h) k = (p, All-append P xs ys h k)

  pub All-filter_map {κ l m} :
      {B : Type κ} (P : A → Type l) (Q : B → Type m) (f : A → Option B) (xs : List A)
      → ((x : A) (y : B) → P x → f x ≡ some y → Q y)
      → All P xs
      → All Q (filter_map f xs)
  All-filter_map P Q f [] g h = tt
  All-filter_map P Q f (x ∷ xs) g (p, h) =
      let rest = All-filter_map P Q f xs g h in
      elim (Option-cases (f x)) [
        | inl e ↦ rw (e, filter_map) rest
        | inr (y, e) ↦ rw (e, filter_map) (g x y p e, rest)
      ]

  pub All_every {κ} : (P : A → Type κ) (xs : List A) → ((x : A) → P x) → All P xs
  All_every P [] g = tt
  All_every P (x ∷ xs) g = (g x, All_every P xs g)

  -- `sort_by_key` is stable: an element goes before the first one that is not below it.
  module _ (le : A → A → Bool) where
    abbrev place : A → List A → List A
    place x [] = x ∷ []
    place x (y ∷ ys) = let rest = place x ys in if le x y then x ∷ y ∷ ys else y ∷ rest

    abbrev pub sort : List A → List A
    sort [] = []
    sort (x ∷ xs) = place x (sort xs)

    total-place : (f : A → ℕ) (x : A) (xs : List A) → total f (place x xs) ≡ f x + total f xs
    total-place f x [] = refl
    total-place f x (y ∷ ys) = ground (arith, total-place f x ys)

    pub total-sort : (f : A → ℕ) (xs : List A) → total f (sort xs) ≡ total f xs
    total-sort f [] = refl
    total-sort f (x ∷ xs) = omega (arith, total-place f x (sort xs), total-sort f xs)

    All-place {κ} : (P : A → Type κ) (x : A) (xs : List A) → P x → All P xs → All P (place x xs)
    All-place P x [] p h = (p, tt)
    All-place P x (y ∷ ys) p (q, h) = elim (Bool-cases (le x y)) [
      | inl first ↦ rw first (p, (q, h))
      | inr later ↦ rw later (q, All-place P x ys p h)
    ]

    pub All-sort {κ} : (P : A → Type κ) (xs : List A) → All P xs → All P (sort xs)
    All-sort P [] h = tt
    All-sort P (x ∷ xs) (p, h) = All-place P x (sort xs) p (All-sort P xs h)

-- A sum over a mapped list.
pub total-map {ℓ κ} :
    {A : Type ℓ} {B : Type κ} (f : B → ℕ) (g : A → B) (xs : List A)
    → total f (map g xs) ≡ total (λ x. f (g x)) xs
total-map f g [] = refl
total-map f g (x ∷ xs) = omega (arith, total-map f g xs)

-- The order of two sums does not matter.
pub total_swap {ℓ κ} :
    {A : Type ℓ} {B : Type κ} (g : A → B → ℕ) (xs : List A) (ys : List B)
    → total (λ x. total (g x) ys) xs ≡ total (λ y. total (λ x. g x y) xs) ys
total_swap g [] ys = omega (arith, total_zero (λ y. 0) ys (λ y. refl))
total_swap g (x ∷ xs) ys =
    omega (arith, total_swap g xs ys, total_add (g x) (λ y. total (λ z. g z y) xs) ys)

module _ {A : Type 0} (le : A → A → Bool) where
  any-place : (p : A → Bool) (x : A) (xs : List A) → any p (place le x xs) ≡ any p (x ∷ xs)
  any-place p x [] = refl
  any-place p x (y ∷ ys) = ground (arith, any-place p x ys)

  pub any-sort : (p : A → Bool) (xs : List A) → any p (sort le xs) ≡ any p xs
  any-sort p [] = refl
  any-sort p (x ∷ xs) = ground (arith, any-place p x (sort le xs), any-sort p xs)
