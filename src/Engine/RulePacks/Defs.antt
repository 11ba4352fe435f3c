-- ===== src/Engine/RulePacks/Defs.antt =====
-- The rule packs and their in-memory registry (crates/rebase-engine/src/rule_pack.rs and
-- rule_pack_registry.rs). `W` is the type of the floating point numbers. The lock is one step.
use intent_rebase.Base.{
  ℕ, String, Bool, true, false, Option, none, some, List, [], ◌∷◌, map, filter, sort, if◌then◌else◌,
  Map, get, insert, lookup, put, string_eq, Message, lit, uuid,
}
use intent_rebase.Graph.Types.{EdgeDirection, EdgeType, NodeType}
use intent_rebase.Engine.Diff.Order.{text_le}

-- A version is the text that it wraps.
abbrev pub RulePackVersion : Type 0
RulePackVersion = String

pub data RulePackStatus : Type 0 where
  draft : RulePackStatus
  active : RulePackStatus
  deprecated : RulePackStatus
  superseded : RulePackStatus

abbrev pub pack_status_eq : RulePackStatus → RulePackStatus → Bool
pack_status_eq draft draft = true
pack_status_eq active active = true
pack_status_eq deprecated deprecated = true
pack_status_eq superseded superseded = true
pack_status_eq _ _ = false

abbrev status_name : RulePackStatus → String
status_name draft = "Draft"
status_name active = "Active"
status_name deprecated = "Deprecated"
status_name superseded = "Superseded"

pub record RulePackRiskConfig (W : Type 0) : Type 0 where
  pub confidence_threshold : W
  pub max_high_severity_sections : ℕ

pub record RulePackPropagationConfig : Type 0 where
  pub max_depth : Option ℕ
  pub traversable_edge_types : List EdgeType
  pub traversable_directions : List EdgeDirection
  pub target_node_types : List NodeType

pub record RulePack (W : Type 0) : Type 0 where
  pub version : RulePackVersion
  pub name : String
  pub status : RulePackStatus
  pub risk : RulePackRiskConfig W
  pub propagation : RulePackPropagationConfig
  pub description : Option String

pub data RulePackRegistryError : Type 0 where
  not_found : Message → RulePackRegistryError
  unauthorized : RulePackRegistryError
  version_conflict : Message → RulePackRegistryError
  invalid_status_transition : Message → RulePackRegistryError
  storage_error : Message → RulePackRegistryError

pub data RegistryResult (A : Type 0) : Type 0 where
  returned : A → RegistryResult A
  refused : RulePackRegistryError → RegistryResult A

abbrev pub TenantPacks : Type 0 → Type 0
TenantPacks W = List (RulePackVersion × RulePack W)

abbrev pub Packs : Type 0 → Type 0
Packs W = Map (TenantPacks W)

abbrev no_version : ℕ → RulePackVersion → RulePackRegistryError
no_version tenant v = not_found (lit "tenant=" ∷ uuid tenant ∷ lit ", version=" ∷ lit v ∷ [])

abbrev pub is_status_change : RulePackStatus → RulePackStatus → Bool
is_status_change active deprecated = true
is_status_change active superseded = true
is_status_change deprecated active = true
is_status_change _ _ = false

module _ {W : Type 0} where
  abbrev pub packs_of : ℕ → Packs W → TenantPacks W
  packs_of tenant r = elim (get tenant r) [ none ↦ [] | some ps ↦ ps ]

  abbrev pub all_of : TenantPacks W → List (RulePack W)
  all_of = map (λ entry. entry.1)

  unfoldable pub list_packs : ℕ → Option RulePackStatus → Packs W → List (RulePack W)
  list_packs tenant none r = all_of (packs_of tenant r)
  list_packs tenant (some st) r =
      filter (λ p. pack_status_eq p.status st) (all_of (packs_of tenant r))

  unfoldable pub get_pack : ℕ → RulePackVersion → Packs W → RegistryResult (RulePack W)
  get_pack tenant v r = elim (lookup v (packs_of tenant r)) [
    | none ↦ refused (no_version tenant v)
    | some p ↦ returned p
  ]

  abbrev first_active : List (RulePack W) → Option (RulePack W)
  first_active [] = none
  first_active (p ∷ ps) =
      let rest = first_active ps in if pack_status_eq p.status active then some p else rest

  unfoldable pub get_active_pack : ℕ → Packs W → RegistryResult (RulePack W)
  get_active_pack tenant r = elim (get tenant r) [
    | none ↦ refused (not_found (lit "no packs found for tenant=" ∷ uuid tenant ∷ []))
    | some ps ↦ elim (first_active (all_of ps)) [
      | none ↦ refused (not_found (lit "no active pack for tenant=" ∷ uuid tenant ∷ []))
      | some p ↦ returned p
    ]
  ]

  -- The entry of the tenant is made even where the version is refused.
  unfoldable pub create_pack : ℕ → RulePack W → Packs W → RegistryResult (RulePack W) × Packs W
  create_pack tenant given r =
      let pack : RulePack W = record given { status = active } in
      let ps = packs_of tenant r in
      elim (lookup pack.version ps) [
        | none ↦ (returned pack, insert tenant (put pack.version pack ps) r)
        | some p ↦ (
          refused (
              version_conflict (
                lit "version "
                ∷ lit pack.version
                ∷ lit " already exists for tenant "
                ∷ uuid tenant
                ∷ [])),
          insert tenant ps r,
        )
      ]

  unfoldable pub update_pack_status :
      ℕ → RulePackVersion → RulePackStatus → Packs W → RegistryResult (RulePack W) × Packs W
  update_pack_status tenant v new r = elim (get tenant r) [
    | none ↦ (refused (not_found (lit "tenant=" ∷ uuid tenant ∷ [])), r)
    | some ps ↦ elim (lookup v ps) [
      | none ↦ (refused (no_version tenant v), r)
      | some p ↦
          if is_status_change p.status new
          then (
            returned (record p { status = new }),
            insert tenant (put v (record p { status = new }) ps) r,
          )
          else (
            refused (
                invalid_status_transition (
                  lit "cannot transition from "
                  ∷ lit (status_name p.status)
                  ∷ lit " to "
                  ∷ lit (status_name new)
                  ∷ [])),
            r,
          )
    ]
  ]

  unfoldable pub list_versions : ℕ → Packs W → List RulePackVersion
  list_versions tenant r = sort text_le (map (λ entry. entry.0) (packs_of tenant r))
