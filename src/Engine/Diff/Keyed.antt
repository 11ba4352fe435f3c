-- ===== src/Engine/Diff/Keyed.antt =====
-- The matching that `diff_constraints`, `diff_acceptance_criteria`, `diff_action_refs` and
-- `diff_approval_rules` (crates/rebase-engine/src/diff.rs) repeat for their item types. An item is
-- matched by its key where the key is there and stands once in its own list; all other items are
-- removed and added. The maps by key are read back in list order: the source reads them in the
-- order of a hash map, and the sort that follows leaves one order, since within each phase the keys
-- differ.
use intent_rebase.Base.{
  Bool, true, false, not, Option, none, some, List, [], ◌∷◌, ◌++◌, map, filter, length, ◌==◌, Eq,
  if◌then◌else◌,
}

pub data Change (A : Type 0) : Type 0 where
  added : A → Change A
  removed : A → Change A
  modified : A → A → Change A

abbrev pub before_of : {A : Type 0} → Change A → Option A
before_of (added a) = none
before_of (removed b) = some b
before_of (modified b a) = some b

abbrev pub after_of : {A : Type 0} → Change A → Option A
after_of (added a) = some a
after_of (removed b) = none
after_of (modified b a) = some a

module _ {A K : Type 0} ⦃e : Eq K⦄ (key : A → Option K) where
  abbrev pub has_key : K → A → Bool
  has_key k a = elim (key a) [ none ↦ false | some j ↦ e.beq j k ]

  -- The key is there and is counted once.
  abbrev pub is_unique : List A → A → Bool
  is_unique xs a = elim (key a) [ none ↦ false | some k ↦ length (filter (has_key k) xs) == 1 ]

  abbrev pub unique : List A → List A
  unique xs = filter (is_unique xs) xs

  abbrev pub ambiguous : List A → List A
  ambiguous xs = filter (λ a. not (is_unique xs a)) xs

  -- `by_unique_id.get(id)`.
  abbrev pub find_key : K → List A → Option A
  find_key k [] = none
  find_key k (x ∷ xs) = let rest = find_key k xs in if has_key k x then some x else rest

  abbrev pub partner : List A → A → Option A
  partner xs b = elim (key b) [ none ↦ none | some k ↦ find_key k xs ]

  abbrev pub is_matched : List A → A → Bool
  is_matched xs b = elim (partner xs b) [ none ↦ false | some _ ↦ true ]

  module _ (equal : A → A → Bool) where
    -- A matched pair is a change where the contents differ.
    abbrev pub compared : A → Option A → List (Change A) → List (Change A)
    compared b none rest = rest
    compared b (some a) rest = if equal b a then rest else modified b a ∷ rest

    abbrev pub modifications : List A → List A → List (Change A)
    modifications [] afters = []
    modifications (b ∷ bs) afters = compared b (partner afters b) (modifications bs afters)

    unfoldable pub changes : List A → List A → List (Change A)
    changes before after =
        let bs = unique before in
        let cs = unique after in
        modifications bs cs
        ++ map removed (filter (λ b. not (is_matched cs b)) bs)
        ++ map added (filter (λ a. not (is_matched bs a)) cs)
        ++ map removed (ambiguous before)
        ++ map added (ambiguous after)
