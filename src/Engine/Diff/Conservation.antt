-- ===== src/Engine/Diff/Conservation.antt =====
-- The keyed diff accounts for every item: no item is lost and none is invented.
use intent_rebase.Base.{
  ℕ, ◌+◌, ◌≤◌, Bool, true, false, not, Option, List, [], ◌∷◌, ◌++◌, map, filter, Eq, total, measure,
  ◌≡◌, refl, arith, total-append, total_split, total-map, total_ext, total_zero, total_ext,
  total-sort, sort, ap, ◌∙◌, Option-cases, inl, inr, ◌⊎◌, ◌∙◌,
}
use intent_rebase.Engine.Diff.Matching.{same_key, partner-same_key, partners_total}
use intent_rebase.Engine.Diff.Keyed.{
  Change, added, removed, before_of, after_of, is_unique, unique, ambiguous, partner, is_matched,
  modifications, changes,
}

not-cases : (b : Bool) → (b ≡ true × not b ≡ false) ⊎ (b ≡ false × not b ≡ true)
not-cases true = inl (refl, refl)
not-cases false = inr (refl, refl)

abbrev pub before_measure : {A : Type 0} → (A → ℕ) → Change A → ℕ
before_measure p c = measure p (before_of c)

abbrev pub after_measure : {A : Type 0} → (A → ℕ) → Change A → ℕ
after_measure p c = measure p (after_of c)

split_total :
    {A : Type 0} (p : A → ℕ) (q : A → Bool) (xs : List A)
    → total p xs ≡ total p (filter q xs) + total p (filter (λ x. not (q x)) xs)
split_total p q xs = total_split p q (λ x. not (q x)) xs (λ x. not-cases (q x))

-- A sum over the five phases of the diff.
parts_total :
    {A : Type 0} (f : Change A → ℕ) (m : List (Change A)) (r a r2 a2 : List A)
    → total f (m ++ map removed r ++ map added a ++ map removed r2 ++ map added a2)
      ≡ total f m
        + total (λ x. f (removed x)) r
        + total (λ x. f (added x)) a
        + total (λ x. f (removed x)) r2
        + total (λ x. f (added x)) a2
parts_total f m r a r2 a2 = omega (
  arith,
  total-append f (m ++ map removed r ++ map added a ++ map removed r2) (map added a2),
  total-append f (m ++ map removed r ++ map added a) (map removed r2),
  total-append f (m ++ map removed r) (map added a),
  total-append f m (map removed r),
  total-map f removed r,
  total-map f removed r2,
  total-map f added a,
  total-map f added a2,
)

module _ {A K : Type 0} ⦃e : Eq K⦄ (key : A → Option K) where
  module _ (equal : A → A → Bool) (p : A → ℕ) where
    -- A measure that equal items of one key share.
    abbrev pub Respects : Type 0
    Respects = (b a : A) → same_key key b a ≡ true → equal b a ≡ true → p b ≡ p a

    modifications_total :
        (bs cs : List A)
        → Respects
        → total (before_measure p) (modifications key equal bs cs)
            + total (λ b. measure p (partner key cs b)) bs
          ≡ total (after_measure p) (modifications key equal bs cs)
            + total p (filter (is_matched key cs) bs)
    modifications_total [] cs h = refl
    modifications_total (b ∷ bs) cs h =
        let rest = modifications_total bs cs h in
        elim (Option-cases (partner key cs b)) [
          | inl none_there ↦ ground (arith, rest)
          | inr (a, is) ↦ ground (arith, rest, h b a, partner-same_key key cs b a is)
        ]

    changes_total :
        (f : Change A → ℕ) (before after : List A)
        → total f (changes key equal before after)
          ≡ total f (modifications key equal (unique key before) (unique key after))
            + total
                (λ x. f (removed x))
                (filter (λ b. not (is_matched key (unique key after) b)) (unique key before))
            + total
                (λ x. f (added x))
                (filter (λ a. not (is_matched key (unique key before) a)) (unique key after))
            + total (λ x. f (removed x)) (ambiguous key before)
            + total (λ x. f (added x)) (ambiguous key after)
    unfolding changes
    changes_total f before after =
        let bs = unique key before in
        let cs = unique key after in
        parts_total f (modifications key equal bs cs) (filter (λ b. not (is_matched key cs b)) bs)
          (filter (λ a. not (is_matched key bs a)) cs) (ambiguous key before) (ambiguous key after)

    -- Nothing is lost and nothing is invented.
    pub changes_conserve :
        (before after : List A)
        → Respects
        → total p after + total (before_measure p) (changes key equal before after)
          ≡ total p before + total (after_measure p) (changes key equal before after)
    changes_conserve before after h =
        let bs = unique key before in
        let cs = unique key after in
        omega (
          arith,
          changes_total (before_measure p) before after,
          changes_total (after_measure p) before after,
          modifications_total bs cs h,
          partners_total key p before after,
          split_total p (is_unique key before) before,
          split_total p (is_unique key after) after,
          split_total p (is_matched key cs) bs,
          split_total p (is_matched key bs) cs,
          total_zero (λ b. 0) (filter (λ b. not (is_matched key cs b)) bs) (λ b. refl),
          total_zero (λ b. 0) (filter (λ a. not (is_matched key bs a)) cs) (λ b. refl),
          total_zero (λ b. 0) (ambiguous key before) (λ b. refl),
          total_zero (λ b. 0) (ambiguous key after) (λ b. refl),
        )

    -- What the removed items measure.
    abbrev pub removed_measure : Change A → ℕ
    removed_measure (removed b) = p b
    removed_measure _ = 0

    modifications_removed :
        (bs cs : List A)
        → ((b a : A) → same_key key b a ≡ true → p b ≡ p a)
        → total (before_measure p) (modifications key equal bs cs)
          ≤ total (after_measure p) (modifications key equal bs cs)
    modifications_removed [] cs h = omega arith
    modifications_removed (b ∷ bs) cs h =
        let rest = modifications_removed bs cs h in
        elim (Option-cases (partner key cs b)) [
          | inl none_there ↦ ground (arith, rest)
          | inr (a, is) ↦ ground (arith, rest, h b a, partner-same_key key cs b a is)
        ]

    -- A measure of the keys that falls is a removal.
    pub changes_remove :
        (before after : List A)
        → ((b a : A) → same_key key b a ≡ true → p b ≡ p a)
        → total p before ≤ total p after + total removed_measure (changes key equal before after)
    changes_remove before after h =
        let bs = unique key before in
        let cs = unique key after in
        omega (
          arith,
          changes_conserve before after (λ b a same is. h b a same),
          changes_total (before_measure p) before after,
          changes_total (after_measure p) before after,
          changes_total removed_measure before after,
          modifications_removed bs cs h,
          total_zero (λ b. 0) (filter (λ b. not (is_matched key cs b)) bs) (λ b. refl),
          total_zero (λ b. 0) (filter (λ a. not (is_matched key bs a)) cs) (λ b. refl),
          total_zero (λ b. 0) (ambiguous key before) (λ b. refl),
          total_zero (λ b. 0) (ambiguous key after) (λ b. refl),
        )

    -- The entries that a list of the diff holds, in any order, account for every item too.
    module _ {D : Type 0} (entry : Change A → D) (le : D → D → Bool) where
      abbrev pub entries : List A → List A → List D
      entries before after = sort le (map entry (changes key equal before after))

      pub total-entries :
          (f : D → ℕ) (g : Change A → ℕ) (before after : List A)
          → ((c : Change A) → f (entry c) ≡ g c)
          → total f (entries before after) ≡ total g (changes key equal before after)
      total-entries f g before after same =
          let cs = changes key equal before after in
          total-sort le f (map entry cs)
          ∙ total-map f entry cs
          ∙ total_ext (λ c. f (entry c)) g cs same

      pub entries_conserve :
          (bf af : D → Option A)
          → ((c : Change A) → bf (entry c) ≡ before_of c)
          → ((c : Change A) → af (entry c) ≡ after_of c)
          → (before after : List A) → Respects
          → total p after + total (λ d. measure p (bf d)) (entries before after)
            ≡ total p before + total (λ d. measure p (af d)) (entries before after)
      entries_conserve bf af be ae before after h = omega (
        arith,
        changes_conserve before after h,
        total-entries (λ d. measure p (bf d)) (before_measure p) before after
            (λ c. ap (measure p) (be c)),
        total-entries (λ d. measure p (af d)) (after_measure p) before after
            (λ c. ap (measure p) (ae c)),
      )
