-- ===== src/Engine/Diff/Order.antt =====
-- The orders that the lists of the diff are sorted by: `Ord` of `Option`, of texts and of pairs.
use Prim.Native.Nat.{Ordering, compare as compare_number}
use Prim.Native.String.{compare as compare_text}
use intent_rebase.Base.{ℕ, String, Bool, true, false, Option, none, some}

abbrev pub then : Ordering → Ordering → Ordering
then Ordering.eq second = second
then first _ = first

-- `None` comes before every `Some`.
abbrev pub compare_option : {A : Type 0} → (A → A → Ordering) → Option A → Option A → Ordering
compare_option cmp none none = Ordering.eq
compare_option cmp none (some b) = Ordering.lt
compare_option cmp (some a) none = Ordering.gt
compare_option cmp (some a) (some b) = cmp a b

abbrev pub le_of : Ordering → Bool
le_of Ordering.gt = false
le_of _ = true

abbrev pub clause_id_le : Option ℕ → Option ℕ → Bool
clause_id_le a b = le_of (compare_option compare_number a b)

abbrev pub text_le : String → String → Bool
text_le a b = le_of (compare_text a b)

abbrev pub action_le : String × Option String → String × Option String → Bool
action_le x y = le_of (then (compare_text x.0 y.0) (compare_option compare_text x.1 y.1))
