-- ===== src/Engine/Diff/Unchanged.antt =====
-- A list whose items all have a key of their own has no difference from itself.
use intent_rebase.Base.{
  ◌≤◌, Bool, true, not, Option, some, List, [], ◌∷◌, filter, length, Eq, All, All-filter, Member,
  Bool-cases, Option-cases, ◌≡◌, refl, sym, ap, subst, arith, inl, inr, beq_refl,
}
use intent_rebase.Engine.Diff.Keyed.{
  has_key, is_unique, unique, ambiguous, find_key, partner, is_matched, modifications, changes,
}
use intent_rebase.Engine.Diff.Matching.{unique_once}

All-Member :
    {A : Type 0} (P Q : A → Type 0) (xs : List A)
    → All P xs
    → ((x : A) → Member x xs → P x → Q x)
    → All Q xs
All-Member P Q [] h f = tt
All-Member P Q (x ∷ xs) (h, hs) f = (f x (inl refl) h, All-Member P Q xs hs (λ y m. f y (inr m)))

Member-counted :
    {A : Type 0} (p : A → Bool) (b : A) (xs : List A)
    → Member b xs
    → p b ≡ true
    → 1 ≤ length (filter p xs)
Member-counted p b [] h is = elim h [ ]
Member-counted p b (x ∷ xs) (inl same) is =
    let here : p x ≡ true = subst (λ y. p y ≡ true) same is in ground arith
Member-counted p b (x ∷ xs) (inr h) is = ground (arith, Member-counted p b xs h is)

module _ {A K : Type 0} ⦃e : Eq K⦄ (key : A → Option K) where
  -- The item of a key that stands once is the one that is found by it.
  find_self :
      (k : K) (b : A) (xs : List A)
      → Member b xs
      → has_key key k b ≡ true
      → length (filter (has_key key k) xs) ≤ 1
      → find_key key k xs ≡ some b
  find_self k b [] h is once = elim h [ ]
  find_self k b (x ∷ xs) (inl same) is once =
      let here : has_key key k x ≡ true = subst (λ y. has_key key k y ≡ true) same is in
      rw (here, find_key) (ap some (sym same))
  find_self k b (x ∷ xs) (inr h) is once = elim (Bool-cases (has_key key k x)) [
    | inl twice ↦ ground (arith, Member-counted (has_key key k) b xs h is)
    | inr other ↦ ground (arith, find_self k b xs h is)
  ]

  self_partner :
      (xs : List A) (b : A)
      → Member b (unique key xs)
      → is_unique key xs b ≡ true
      → partner key (unique key xs) b ≡ some b
  self_partner xs b m is = elim (Option-cases (key b)) [
    | inl none_there ↦ ground arith
    | inr (k, there) ↦
        ground (arith, find_self k b (unique key xs) m, unique_once key k xs, beq_refl k)
  ]

  module _ (equal : A → A → Bool) (equal_refl : (b : A) → equal b b ≡ true) where
    abbrev Own : List A → A → Type 0
    Own cs b = partner key cs b ≡ some b

    no_modifications : (bs cs : List A) → All (Own cs) bs → modifications key equal bs cs ≡ []
    no_modifications [] cs h = refl
    no_modifications (b ∷ bs) cs (h, hs) = ground (arith, no_modifications bs cs hs, equal_refl b)

    none_left : (bs cs : List A) → All (Own cs) bs → filter (λ b. not (is_matched key cs b)) bs ≡ []
    none_left [] cs h = refl
    none_left (b ∷ bs) cs (h, hs) = ground (arith, none_left bs cs hs)

    pub changes_none : (xs : List A) → ambiguous key xs ≡ [] → changes key equal xs xs ≡ []
    unfolding changes
    changes_none xs h =
        let us = unique key xs in
        let own : All (Own us) us =
          All-Member (λ b. is_unique key xs b ≡ true) (Own us) us (All-filter (is_unique key xs) xs)
            (self_partner xs) in
        rw (no_modifications us us own, none_left us us own, h) refl
