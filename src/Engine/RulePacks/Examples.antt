-- ===== src/Engine/RulePacks/Examples.antt =====
-- The registry of rule packs (rule_pack_registry.rs) at one pack of one tenant.
use intent_rebase.Base.{ℕ, false, none, some, [], ◌∷◌, ◌≡◌, ◌⊎◌, refl}
use intent_rebase.Graph.Types.{both, depends_on, artifact}
use intent_rebase.Engine.RulePacks.Defs.{
  RulePack, RulePackStatus, active, superseded, pack_status_eq, Packs, create_pack, get_pack,
  list_packs, get_active_pack, list_versions, returned,
}
use intent_rebase.Engine.RulePacks.Calls.{creates, updates, after_all}
use intent_rebase.Engine.RulePacks.History.{rule_packs_kept}

abbrev first_pack : RulePack ℕ
first_pack = record {
  version = "v1.0.0";
  name = "base";
  status = active;
  risk = record { confidence_threshold = 700; max_high_severity_sections = 3 };
  propagation = record {
    max_depth = some 3;
    traversable_edge_types = depends_on ∷ [];
    traversable_directions = both ∷ [];
    target_node_types = artifact ∷ [];
  };
  description = none;
}

abbrev second_pack : RulePack ℕ
second_pack = record first_pack { version = "v1.1.0" }

abbrev stored : Packs ℕ
stored = (7, ("v1.0.0", first_pack) ∷ []) ∷ []

stored_found : get_pack 7 "v1.0.0" stored ≡ returned first_pack
unfolding get_pack
stored_found = refl

rule_packs_kept_example :
    let t = after_all ((7, updates "v1.0.0" superseded) ∷ (7, creates second_pack) ∷ []) stored in
    let u = after_all ((8, creates second_pack) ∷ []) stored in
    ((st : RulePackStatus) × (get_pack 7 "v1.0.0" t ≡ returned (record first_pack { status = st }))
      × ((pack_status_eq active superseded ≡ false) ⊎ (st ≡ superseded)))
    × (list_packs 7 (some active) u ≡ list_packs 7 (some active) stored)
    × (get_active_pack 7 u ≡ get_active_pack 7 stored)
    × (list_versions 7 u ≡ list_versions 7 stored)
    × (get_pack 7 "v1.1.0" (create_pack 7 second_pack stored).1 ≡ returned second_pack)
rule_packs_kept_example =
    rule_packs_kept 7 "v1.0.0" first_pack second_pack (some active)
      ((7, updates "v1.0.0" superseded) ∷ (7, creates second_pack) ∷ [])
      ((8, creates second_pack) ∷ []) stored stored_found (refl, tt)
