-- ===== src/Base/Codec.antt =====
-- The texts that a database holds for the variants of an enumeration: `match s { "a" => Ok(A), … }`
-- as a table.
use Prim.Native.String.{String}
use mathlib.Core.Path.{◌≡◌, sym, subst, ◌∙◌}
use mathlib.Core.Logic.{◌↔◌, inl, inr}
use mathlib.Core.List.{List, [], ◌∷◌}
use text.Mathlib.Text.{◌==◌ as str_eq}
use text.Mathlib.TextEquality.{eq_iff as str_eq_iff}
use native.Mathlib.Omega.{arith}
use intent_rebase.Base.Tests.{if◌then◌else◌, Bool-cases}
use intent_rebase.Base.Lists.{All}
use intent_rebase.Base.Results.{Result, ok, err, internal, lit}

module _ {T : Type 0} where
  -- `what` is the text of the error before the unknown text.
  abbrev pub decode : String → List (String × T) → String → Result T
  decode what [] s = err (internal (lit what ∷ lit s ∷ []))
  decode what ((t, x) ∷ table) s =
      let rest = decode what table s in if str_eq s t then ok x else rest

  err≢ok : {e : _} {x : T} {A : Type 0} → err e ≡ ok x → A
  err≢ok h = ground arith

  -- What is decoded is what the variant is written as.
  pub decode-inverse :
      (what : String) (write : T → String) (table : List (String × T)) (s : String) (x : T)
      → All (λ entry. write entry.1 ≡ entry.0) table
      → decode what table s ≡ ok x
      → write x ≡ s
  decode-inverse what write [] s x h d = err≢ok d
  decode-inverse what write ((t, y) ∷ table) s x (h, hs) d = elim (Bool-cases (str_eq s t)) [
    | inl same ↦
        let found : y ≡ x = ground arith in
        subst (λ z. write z ≡ s) found (h ∙ sym ((str_eq_iff s t).0 same))
    | inr other ↦ decode-inverse what write table s x hs (ground arith)
  ]

  -- With the round trip of the variants, a text is read as a variant just when it is what the
  -- variant is written as.
  pub decode_exact :
      (what : String) (write : T → String) (table : List (String × T))
      → All (λ entry. write entry.1 ≡ entry.0) table
      → ((x : T) → decode what table (write x) ≡ ok x)
      → (s : String) (x : T) → (decode what table s ≡ ok x) ↔ (write x ≡ s)
  decode_exact what write table h forth s x = (
    decode-inverse what write table s x h,
    λ e. subst (λ t. decode what table t ≡ ok x) e (forth x),
  )
