-- ===== src/Compensation/SideEffect.antt =====
-- Side effects (crates/compensation-service/src/side_effect.rs). A timestamp is a number, and the
-- generated identifier and the clock are arguments.
use intent_rebase.Base.{ℕ, String, Bool, true, false, Option, none}

pub data SideEffectClass : Type 0 where
  s0_pure_read s1_internal_reversible s2_external_reversible : SideEffectClass
  s3_external_partially_reversible s4_irreversible : SideEffectClass

pub record SideEffect : Type 0 where
  pub id : ℕ
  pub tenant_id : ℕ
  pub intent_id : ℕ
  pub intent_version : ℕ  -- i32
  pub effect_class : SideEffectClass
  pub effect_type : String
  pub target : String
  pub occurred_at : ℕ
  pub idempotency_key : Option String

unfoldable pub new : ℕ → ℕ → ℕ → ℕ → ℕ → SideEffectClass → String → String → SideEffect
new id now tenant_id intent_id intent_version effect_class effect_type target = record {
  id = id;
  tenant_id = tenant_id;
  intent_id = intent_id;
  intent_version = intent_version;
  effect_class = effect_class;
  effect_type = effect_type;
  target = target;
  occurred_at = now;
  idempotency_key = none;
}

auto_class : SideEffectClass → Bool
auto_class s0_pure_read = true
auto_class s1_internal_reversible = true
auto_class _ = false

unfoldable pub is_auto_compensatable : SideEffect → Bool
unfolding auto_class
is_auto_compensatable e = auto_class e.effect_class

escalation_class : SideEffectClass → Bool
escalation_class s4_irreversible = true
escalation_class _ = false

unfoldable pub requires_escalation : SideEffect → Bool
unfolding escalation_class
requires_escalation e = escalation_class e.effect_class

-- `==` on the derived `PartialEq`.
abbrev pub class_eq : SideEffectClass → SideEffectClass → Bool
class_eq s0_pure_read s0_pure_read = true
class_eq s1_internal_reversible s1_internal_reversible = true
class_eq s2_external_reversible s2_external_reversible = true
class_eq s3_external_partially_reversible s3_external_partially_reversible = true
class_eq s4_irreversible s4_irreversible = true
class_eq _ _ = false

-- `{:?}`.
abbrev pub class_debug : SideEffectClass → String
class_debug s0_pure_read = "S0PureRead"
class_debug s1_internal_reversible = "S1InternalReversible"
class_debug s2_external_reversible = "S2ExternalReversible"
class_debug s3_external_partially_reversible = "S3ExternalPartiallyReversible"
class_debug s4_irreversible = "S4Irreversible"
