-- ===== src/Base/Results.antt =====
-- The variants of `IntentRebaseError` that the modelled code returns
-- (crates/intent-rebase-types/src/error.rs), `Result`, and stateful code: an `async fn` over a lock
-- becomes a function from the state to a result and the state after it, so
-- that the effects that precede an error stay.
use Prim.Native.Nat.{ℕ}
use Prim.Native.String.{String}
use mathlib.Core.Path.{◌≡◌, refl}
use mathlib.Core.Logic.{◌⊎◌, inl, inr}
use mathlib.Core.Bool.{Bool, true, false}
use mathlib.Core.Option.{Option, none, some}
use mathlib.Core.List.{List}
use native.Mathlib.Omega.{arith}

-- A piece of a formatted text: `format!` joins the pieces.
pub data Piece : Type 0 where
  lit : String → Piece
  int : ℕ → Piece
  uuid : ℕ → Piece

abbrev pub Message : Type 0
Message = List Piece

pub data Error : Type 0 where
  compensation_action_not_found : ℕ → Error
  concurrency_conflict : ℕ → Error
  invalid_compensation_action_transition : String → String → Message → Error
  compensation_action_not_executable : ℕ → Error
  compensation_action_not_reapprovable : ℕ → Message → Error
  side_effect_not_found : ℕ → Error
  graph_node_not_found : ℕ → Error
  graph_edge_not_found : ℕ → Error
  graph_integrity_error : Message → Error
  orchestration_run_not_found : ℕ → Error
  intent_not_found : ℕ → Error
  intent_version_not_found : ℕ → Error
  approval_request_not_found : ℕ → Error
  approval_request_not_pending : ℕ → String → Error
  invalid_intent_version : Message → Error
  internal : Message → Error

-- A text that is built at run time: a formatted one, or an error by `{:?}` or by `to_string`.
pub data Text : Type 0 where
  said : Message → Text
  debug : Error → Text
  display : Error → Text

pub data Result {ℓ} (A : Type ℓ) : Type ℓ where
  ok : A → Result A
  err : Error → Result A

abbrev pub or_err {ℓ} : {A : Type ℓ} → Option A → Error → Result A
or_err none e = err e
or_err (some a) e = ok a

pub or_err-ok {ℓ} : {A : Type ℓ} (o : Option A) (e : Error) (a : A) → or_err o e ≡ ok a → o ≡ some a
or_err-ok none e a h = ground arith
or_err-ok (some b) e a h = ground arith

-- A computation over the state `S` that may fail.
abbrev pub Act : Type 0 → Type 0 → Type 0
Act S A = S → Result A × S

infixl 5 ◌>>=◌ ◌>>◌
abbrev pub ◌>>=◌ : {S A B : Type 0} → Act S A → (A → Act S B) → Act S B
◌>>=◌ m f s = let (r, t) = m s in elim r [ ok a ↦ f a t | err e ↦ (err e, t) ]

abbrev pub ◌>>◌ : {S B : Type 0} → Act S (Unit {0}) → Act S B → Act S B
m >> k = m >>= λ _. k

abbrev pub pure : {S A : Type 0} → A → Act S A
pure a s = (ok a, s)

-- `e?` for a result that is at hand.
abbrev pub of_result : {S A : Type 0} → Result A → Act S A
of_result r s = (r, s)

-- An early return with an error, unless the test holds.
abbrev pub require : {S : Type 0} → Bool → Error → Act S (Unit {0})
require true e s = (ok tt, s)
require false e s = (err e, s)

abbrev pub fail : {S A : Type 0} → Error → Act S A
fail e s = (err e, s)

pub ok-injective {ℓ} : {A : Type ℓ} {a b : A} → ok a ≡ ok b → a ≡ b
ok-injective e = cc

-- `match call.await { Ok(a) => …, Err(e) => … }`: the result as a value.
abbrev pub attempt : {S A : Type 0} → Act S A → Act S (Result A)
attempt m s = let (r, t) = m s in (ok r, t)

pub Result-cases {ℓ} :
    {A : Type ℓ} (x : Result A) → ((a : A) × (x ≡ ok a)) ⊎ ((e : Error) × (x ≡ err e))
Result-cases (ok a) = inl (a, refl)
Result-cases (err e) = inr (e, refl)
