-- ===== src/Engine/Diff/ScopeConservation.antt =====
-- The walk of the two sorted scope lists ends within its fuel, and it accounts for every item.
use Prim.Native.Nat.{Ordering}
use Prim.Native.String.{compare}
use text.Mathlib.TextEquality.{path_by_compare}
use intent_rebase.Base.{
  ℕ, zero, suc, ◌+◌, ◌≤◌, String, List, [], ◌∷◌, length, sort, total, total-append, total-sort,
  total_one, ◌≡◌, refl, ap, arith, inl, inr, ◌⊎◌,
}
use intent_rebase.Engine.Diff.Scope.{Walk, walk_turn, walk, walked, diff_string_lists}
use intent_rebase.Engine.Diff.Order.{text_le}

abbrev left : Walk → ℕ
left w = length w.before + length w.after

Ordering-cases : (o : Ordering) → (o ≡ Ordering.lt) ⊎ (o ≡ Ordering.eq) ⊎ (o ≡ Ordering.gt)
Ordering-cases Ordering.lt = inl refl
Ordering-cases Ordering.eq = inr (inl refl)
Ordering-cases Ordering.gt = inr (inr refl)

abbrev walk_at : (bs cs x y : List String) → Walk
walk_at bs cs x y = record { before = bs; after = cs; added = x; removed = y }

-- A turn takes an item while there is one.
left-walk_turn_at :
    (n : ℕ) (bs cs x y : List String)
    → left (walk_at bs cs x y) ≤ suc n
    → left (walk_turn (walk_at bs cs x y)) ≤ n
left-walk_turn_at n [] [] p q h = omega arith
left-walk_turn_at n (b ∷ bs) [] p q h = omega arith
left-walk_turn_at n [] (a ∷ cs) p q h = omega arith
left-walk_turn_at n (b ∷ bs) (a ∷ cs) p q h = ground arith

left-walk : (n : ℕ) (w : Walk) → left w ≤ n → left (walk n w) ≡ 0
unfolding walk
left-walk zero w h = omega arith
left-walk (suc n) w h =
    left-walk n (walk_turn w) (left-walk_turn_at n w.before w.after w.added w.removed h)

module _ (p : String → ℕ) where
  abbrev Sides : Walk → Walk → Type 0
  Sides v w =
      total p v.before + total p v.removed + total p w.after + total p w.added
      ≡ total p w.before + total p w.removed + total p v.after + total p v.added

  Sides-walk_turn_at :
      (bs cs x y : List String) → Sides (walk_turn (walk_at bs cs x y)) (walk_at bs cs x y)
  Sides-walk_turn_at [] [] x y = omega arith
  Sides-walk_turn_at (b ∷ bs) [] x y = omega (arith, total-append p y (b ∷ []))
  Sides-walk_turn_at [] (a ∷ cs) x y = omega (arith, total-append p x (a ∷ []))
  Sides-walk_turn_at (b ∷ bs) (a ∷ cs) x y = elim (Ordering-cases (compare b a)) [
    | inl less ↦ ground (arith, total-append p y (b ∷ []))
    | inr (inl same) ↦ ground (arith, ap p (path_by_compare b a same))
    | inr (inr greater) ↦ ground (arith, total-append p x (a ∷ []))
  ]

  Sides-walk : (n : ℕ) (w : Walk) → Sides (walk n w) w
  unfolding walk
  Sides-walk zero w = omega arith
  Sides-walk (suc n) w =
      omega
        (arith, Sides-walk n (walk_turn w), Sides-walk_turn_at w.before w.after w.added w.removed)

abbrev start : List String → List String → Walk
start before after = walk_at (sort text_le before) (sort text_le after) [] []

length-sort : (xs : List String) → length (sort text_le xs) ≡ length xs
length-sort xs =
    omega (arith, total-sort text_le (λ x. 1) xs, total_one xs, total_one (sort text_le xs))

-- The walk ends with both lists used up.
walked_whole : (before after : List String) → left (walked before after) ≡ 0
unfolding walked
walked_whole before after =
    left-walk (length before + length after) (start before after)
      (omega (arith, length-sort before, length-sort after))

nothing : (p : String → ℕ) (xs : List String) → length xs ≡ 0 → total p xs ≡ 0
nothing p [] h = refl
nothing p (x ∷ xs) h = omega arith

-- Every measure of the texts after the change and of the removed ones adds up to that of the texts
-- before it and of the added ones; with the measure that counts one text, an item that stands more
-- often before is removed and one that stands more often after is added. The walk that finds them
-- uses both lists up.
pub diff_string_lists_conserve :
    (p : String → ℕ) (before after : List String)
    → (total p after + total p (diff_string_lists before after).removed
        ≡ total p before + total p (diff_string_lists before after).added)
      × (length (walked before after).before + length (walked before after).after ≡ 0)
unfolding walked diff_string_lists
diff_string_lists_conserve p before after =
    let n = length before + length after in
    let w = walked before after in
    let whole = walked_whole before after in
    (
      omega (
        arith,
        Sides-walk p n (start before after),
        total-sort text_le p before,
        total-sort text_le p after,
        nothing p w.before (omega (arith, whole)),
        nothing p w.after (omega (arith, whole)),
      ),
      whole,
    )
