-- ===== src/Engine/Diff/Matching.antt =====
-- The matching by key: a key stands at most once among the unique items, so that matching is one to one.
use intent_rebase.Base.{
  ℕ, ◌≤◌, Bool, true, false, Option, none, some, List, [], ◌∷◌, filter, length, ◌==◌, Eq,
  if◌then◌else◌, total, measure, ◌≡◌, refl, arith, total-filter, total_swap, total_ext, total_zero,
  Bool-cases, Option-cases, inl, inr, beq_sym, sym, subst, ◌∙◌,
}
use mathlib.Core.Option.{some-injective}
use intent_rebase.Engine.Diff.Keyed.{has_key, is_unique, unique, find_key, partner, is_matched}

module _ {A K : Type 0} ⦃e : Eq K⦄ (key : A → Option K) where
  abbrev pub same_key : A → A → Bool
  same_key b a = elim (key b) [ none ↦ false | some k ↦ has_key key k a ]

  -- Where a test on keys holds, the key is that one.
  has_key-key : (k : K) (a : A) → has_key key k a ≡ true → key a ≡ some k
  has_key-key k a h = elim (Option-cases (key a)) [
    | inl none_there ↦ ground arith
    | inr (j, is) ↦ ground (arith, e.beq_iff j k)
  ]

  same_key_sym : (a b : A) → same_key a b ≡ same_key b a
  same_key_sym a b = elim (Option-cases (key a)) [
    | inl none_there ↦ ground arith
    | inr (j, is) ↦ elim (Option-cases (key b)) [
      | inl none_there ↦ ground arith
      | inr (k, is2) ↦ ground (arith, beq_sym j k)
    ]
  ]

  -- A key that does not stand once in a list is no key of its unique items.
  none_with :
      (k : K) (xs ys : List A)
      → (length (filter (has_key key k) xs) == 1) ≡ false
      → length (filter (has_key key k) (filter (is_unique key xs) ys)) ≡ 0
  none_with k xs [] h = refl
  none_with k xs (y ∷ ys) h =
      let rest = none_with k xs ys h in
      elim (Bool-cases (has_key key k y)) [
        | inl is ↦ ground (arith, rest, has_key-key k y is)
        | inr other ↦ ground (arith, rest)
      ]

  filter-filter-le :
      (p q : A → Bool) (xs : List A) → length (filter p (filter q xs)) ≤ length (filter p xs)
  filter-filter-le p q [] = omega arith
  filter-filter-le p q (x ∷ xs) = ground (arith, filter-filter-le p q xs)

  -- A key stands at most once among the unique items.
  pub unique_once : (k : K) (xs : List A) → length (filter (has_key key k) (unique key xs)) ≤ 1
  unique_once k xs = elim (Bool-cases (length (filter (has_key key k) xs) == 1)) [
    | inl once ↦ ground (arith, filter-filter-le (has_key key k) (is_unique key xs) xs)
    | inr other ↦ omega (arith, none_with k xs xs other)
  ]

  abbrev kept : (A → ℕ) → (A → Bool) → A → ℕ
  kept p q a = if q a then p a else 0

  kept_none :
      (p : A → ℕ) (q : A → Bool) (xs : List A) → length (filter q xs) ≡ 0 → total (kept p q) xs ≡ 0
  kept_none p q [] h = refl
  kept_none p q (x ∷ xs) h = ground (arith, kept_none p q xs)

  -- The item of a key that stands at most once is all that the key selects.
  find_key_once :
      (p : A → ℕ) (k : K) (xs : List A)
      → length (filter (has_key key k) xs) ≤ 1
      → total (kept p (has_key key k)) xs ≡ measure p (find_key key k xs)
  find_key_once p k [] h = refl
  find_key_once p k (x ∷ xs) h = elim (Bool-cases (has_key key k x)) [
    | inl is ↦ ground (arith, kept_none p (has_key key k) xs)
    | inr other ↦ ground (arith, find_key_once p k xs)
  ]

  of_key_once :
      (p : A → ℕ) (o : Option K) (xs : List A)
      → total (kept p (λ a. elim o [ none ↦ false | some k ↦ has_key key k a ])) (unique key xs)
        ≡ measure p (elim o [ none ↦ none | some k ↦ find_key key k (unique key xs) ])
  of_key_once p none xs = total_zero (λ a. 0) (unique key xs) (λ a. refl)
  of_key_once p (some k) xs = find_key_once p k (unique key xs) (unique_once k xs)

  partner_once :
      (p : A → ℕ) (b : A) (xs : List A)
      → total (kept p (same_key b)) (unique key xs) ≡ measure p (partner key (unique key xs) b)
  partner_once p b xs = of_key_once p (key b) xs

  measure_const :
      (n : ℕ) (o : Option A)
      → measure (λ a. n) o ≡ (if (elim o [ none ↦ false | some _ ↦ true ]) then n else 0)
  measure_const n none = refl
  measure_const n (some a) = refl

  -- What the unique items of a list give to an item of the other one: its measure if it is matched.
  column_total :
      (p : A → ℕ) (c : A) (bs : List A)
      → total (λ b. kept p (same_key b) c) (unique key bs)
        ≡ kept p (is_matched key (unique key bs)) c
  column_total p c bs =
      total_ext (λ b. kept p (same_key b) c) (kept (λ b. p c) (same_key c)) (unique key bs)
        (λ b. rw (same_key_sym b c) refl)
      ∙ partner_once (λ b. p c) c bs
      ∙ measure_const (p c) (partner key (unique key bs) c)

  -- The partners of the unique items of one list are the matched unique items of the other.
  pub partners_total :
      (p : A → ℕ) (bs cs : List A)
      → total (λ b. measure p (partner key (unique key cs) b)) (unique key bs)
        ≡ total p (filter (is_matched key (unique key bs)) (unique key cs))
  partners_total p bs cs =
      let us = unique key bs in
      let vs = unique key cs in
      sym (
        total_ext (λ b. total (kept p (same_key b)) vs) (λ b. measure p (partner key vs b)) us
          (λ b. partner_once p b cs))
      ∙ total_swap (λ b. kept p (same_key b)) us vs
      ∙ total_ext (λ c. total (λ b. kept p (same_key b) c) us) (kept p (is_matched key us)) vs
          (λ c. column_total p c bs)
      ∙ sym (total-filter p (is_matched key us) vs)

  -- A partner has the key of the item.
  find_key-has_key :
      (k : K) (xs : List A) (a : A) → find_key key k xs ≡ some a → has_key key k a ≡ true
  find_key-has_key k [] a h = ground arith
  find_key-has_key k (x ∷ xs) a h = elim (Bool-cases (has_key key k x)) [
    | inl is ↦ subst (λ y. has_key key k y ≡ true) (some-injective x a (ground (arith, h))) is
    | inr other ↦ find_key-has_key k xs a (ground arith)
  ]

  pub partner-same_key : (xs : List A) (b a : A) → partner key xs b ≡ some a → same_key b a ≡ true
  partner-same_key xs b a h = elim (Option-cases (key b)) [
    | inl none_there ↦ ground arith
    | inr (k, is) ↦ ground (arith, find_key-has_key k xs a)
  ]
