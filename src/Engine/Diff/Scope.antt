-- ===== src/Engine/Diff/Scope.antt =====
-- The diff of the scope lists (`diff_scope` and `diff_string_lists`,
-- crates/rebase-engine/src/diff.rs): both lists are sorted and walked together. The fuel is the
-- length of both lists, and each turn of the loop takes at least one item.
use Prim.Native.Nat.{Ordering}
use Prim.Native.String.{compare}
use intent_rebase.Base.{ℕ, zero, suc, ◌+◌, String, List, [], ◌∷◌, ◌++◌, length, sort}
use intent_rebase.Engine.Types.{IntentScope}
use intent_rebase.Engine.Diff.Types.{ScopeItemsDiff, ScopeDiff}
use intent_rebase.Engine.Diff.Order.{text_le}

-- What is left of both sorted lists, and what has been found.
pub record Walk : Type 0 where
  pub before : List String
  pub after : List String
  pub added : List String
  pub removed : List String

abbrev removes : String → List String → Walk → Walk
removes b bs w = record w { before = bs; removed = w.removed ++ (b ∷ []) }

abbrev adds : String → List String → Walk → Walk
adds a cs w = record w { after = cs; added = w.added ++ (a ∷ []) }

abbrev by_order : Ordering → String → List String → String → List String → Walk → Walk
by_order Ordering.lt b bs a cs w = removes b bs w
by_order Ordering.gt b bs a cs w = adds a cs w
by_order Ordering.eq b bs a cs w = record w { before = bs; after = cs }

-- The body of the loop.
abbrev turn_of : List String → List String → Walk → Walk
turn_of [] [] w = w
turn_of (b ∷ bs) [] w = removes b bs w
turn_of [] (a ∷ cs) w = adds a cs w
turn_of (b ∷ bs) (a ∷ cs) w = by_order (compare b a) b bs a cs w

abbrev pub walk_turn : Walk → Walk
walk_turn w = turn_of w.before w.after w

unfoldable pub walk : ℕ → Walk → Walk
walk zero w = w
walk (suc n) w = walk n (walk_turn w)

unfoldable pub walked : List String → List String → Walk
walked before after =
    walk (length before + length after)
      record { before = sort text_le before; after = sort text_le after; added = []; removed = [] }

unfoldable pub diff_string_lists : List String → List String → ScopeItemsDiff
diff_string_lists before after = record {
  added = (walked before after).added;
  removed = (walked before after).removed;
}

unfoldable pub diff_scope : IntentScope → IntentScope → ScopeDiff
diff_scope before after = record {
  in_scope = diff_string_lists before.in_scope after.in_scope;
  out_of_scope = diff_string_lists before.out_of_scope after.out_of_scope;
}
