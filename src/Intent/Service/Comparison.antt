-- ===== src/Intent/Service/Comparison.antt =====
-- The comparison of two stored versions by the service, and the preview of the rebase.
use intent_rebase.Base.{
  ℕ, true, false, some, ==_iff, get, length, ok, ◌≤◌, ◌<◌, ◌≡◌, ◌↔◌, ap, ◌∙◌, arith, inl, inr,
  Bool-cases,
}
use intent_rebase.Base.Int32.{sign, geb, geb_iff}
use intent_rebase.Engine.Types.{IntentVersion}
use intent_rebase.Engine.Diff.Defs.{diff_intent_version}
use intent_rebase.Engine.Risk.Types.{Float}
use intent_rebase.Engine.Facade.{risk_of, compute_diff_with_risk, compute_diff as diff_of}
use intent_rebase.Engine.Plan.Build.{from_diff_and_risk}
use intent_rebase.Intent.Types.{Intent}
use intent_rebase.Intent.Repo.Defs.{ids_of}
use intent_rebase.Intent.Repo.History.{IsChained}
use intent_rebase.Intent.Repo.Reading.{version_by_number_exact, IsFound}
use intent_rebase.Intent.Service.Defs.{IntentState, compute_diff, compute_rebase_preview}

engine_accepts :
    (x y : IntentVersion) (from to k : ℕ)
    → geb from to ≡ false
    → x.version_number ≡ from
    → y.version_number ≡ to
    → x.intent_id ≡ k
    → y.intent_id ≡ k
    → diff_of x y ≡ ok (diff_intent_version x y)
unfolding diff_of
engine_accepts x y from to k order number_x number_y owner_x owner_y =
    let accepted : geb x.version_number y.version_number ≡ false =
      ap (λ n. geb n y.version_number) number_x ∙ ap (geb from) number_y ∙ order in
    ground (arith, ==_iff x.intent_id y.intent_id)

module _ (W : Type 0) ⦃f : Float W⦄ (k from to : ℕ) (s : IntentState) where
  abbrev pub Compared : Type 0
  Compared =
      (x : IntentVersion) × (y : IntentVersion) × IsFound s.repo k from x
      × IsFound s.repo k to y
      × (compute_diff {W = W} k from to s
          ≡ ok (x, y, diff_intent_version x y, risk_of (diff_intent_version x y)))
      × (compute_rebase_preview W k from to s
          ≡ ok (
              from_diff_and_risk {W = W} (diff_intent_version x y)
                (risk_of (diff_intent_version x y))))

  diff_refused : geb from to ≡ true → Compared → ⊥
  unfolding compute_diff
  diff_refused order (x, y, found_x, found_y, diff, preview) = ground arith

  compared :
      (x y : IntentVersion)
      → geb from to ≡ false
      → IsFound s.repo k from x
      → IsFound s.repo k to y
      → Compared
  unfolding compute_diff compute_rebase_preview compute_diff_with_risk
  compared x y order found_x found_y =
      let (read_x, number_x, owner_x, stored_x) = found_x in
      let (read_y, number_y, owner_y, stored_y) = found_y in
      let engine = engine_accepts x y from to k order number_x number_y owner_x owner_y in
      (x, y, found_x, found_y, ground arith, ground arith)

-- In a repository that a history makes, two versions of a stored intent are compared and a preview
-- of the rebase is planned just when their numbers are in order, from 1 to the current version;
-- the comparison and the plan are those of the engine for the two stored versions, so that the
-- engine never refuses what the service passes on. The bound: numbers below 2 ^ 31, as an `i32` has.
pub comparison_exact :
    (W : Type 0) ⦃f : Float W⦄ (k from to : ℕ) (s : IntentState) (i : Intent)
    → IsChained s.repo
    → get k s.repo.intents ≡ some i
    → length (ids_of k s.repo) < sign
    → from < sign
    → to < sign
    → ((1 ≤ from) × (from < to) × (to ≤ i.current_version)) ↔ Compared W k from to s
comparison_exact W k from to s i chained stored few from_small to_small = (
  λ (low, order, high).
      let (x, found_x) =
        (version_by_number_exact s.repo k from i chained stored few).1.0 (low, omega arith) in
      let (y, found_y) =
        (version_by_number_exact s.repo k to i chained stored few).1.0 (omega arith, high) in
      compared W k from to s x y (ground (arith, geb_iff from to from_small to_small)) found_x
        found_y,
  λ c.
      let (x, y, found_x, found_y, diff, preview) = c in
      let (low, _) =
        (version_by_number_exact s.repo k from i chained stored few).1.1 (x, found_x) in
      let (_, high) = (version_by_number_exact s.repo k to i chained stored few).1.1 (y, found_y) in
      elim (Bool-cases (geb from to)) [
        | inl refused ↦ absurd (diff_refused W k from to s refused c)
        | inr order ↦ (low, ground (arith, geb_iff from to from_small to_small), high)
      ],
)
