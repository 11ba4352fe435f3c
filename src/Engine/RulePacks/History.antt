-- ===== src/Engine/RulePacks/History.antt =====
-- What a sequence of calls of the registry of rule packs (rule_pack_registry.rs) keeps of them.
use intent_rebase.Base.{
  ℕ, true, false, Option, none, some, List, [], ◌∷◌, ◌==◌, ==_iff, get, insert, get-insert, lookup,
  put, lookup-put, string_eq, beq_refl, ◌≡◌, refl, ap, sym, ◌∙◌, subst, arith, inl, inr, ◌⊎◌,
  Bool-cases, Option-cases, All, ==_refl, map, filter, sort, ◌↔◌,
}
use intent_rebase.Engine.Diff.Order.{text_le}
use intent_rebase.Engine.RulePacks.Defs.{
  RulePack, RulePackVersion, RulePackStatus, active, superseded, pack_status_eq, Packs, TenantPacks,
  packs_of, all_of, returned, get_pack, create_pack, list_packs, get_active_pack, list_versions,
}
use intent_rebase.Engine.RulePacks.Calls.{
  Call, after, after_all, IsKept, IsKept-refl, Keeps, after_cases, stays_superseded, create_new,
  create_old,
}

module _ {W : Type 0} where
  get-after :
      (tenant other : ℕ) (c : Call W) (r : Packs W)
      → (other == tenant) ≡ false
      → get other (after tenant c r) ≡ get other r
  get-after tenant other c r h = elim (after_cases tenant c r) [
    | inl unchanged ↦ ap (get other) unchanged
    | inr (later, e, keeps) ↦ ap (get other) e ∙ get-insert other tenant later r ∙ rw h refl
  ]

  packs_same :
      (tenant : ℕ) (t r : Packs W)
      → get tenant t ≡ get tenant r
      → packs_of tenant t ≡ packs_of tenant r
  packs_same tenant t r h = ap (λ o. elim o [ none ↦ [] | some ps ↦ ps ]) h

  packs_insert :
      (tenant other : ℕ) (later : TenantPacks W) (r : Packs W)
      → (other == tenant) ≡ true
      → packs_of other (insert tenant later r) ≡ later
  packs_insert tenant other later r is = ground (arith, get-insert other tenant later r)

  after-Keeps :
      (tenant other : ℕ) (c : Call W) (r : Packs W)
      → Keeps (packs_of other r) (packs_of other (after tenant c r))
  after-Keeps tenant other c r v p found = elim (Bool-cases (other == tenant)) [
    | inr differs ↦ IsKept-refl p (lookup v (packs_of other (after tenant c r))) (
        ap (lookup v) (packs_same other (after tenant c r) r (get-after tenant other c r differs))
        ∙ found)
    | inl is ↦ elim (after_cases tenant c r) [
      | inl unchanged ↦
          IsKept-refl p (lookup v (packs_of other (after tenant c r))) (rw unchanged found)
      | inr (later, e, keeps) ↦
          let own : tenant ≡ other = sym ((==_iff other tenant).0 is) in
          let read : packs_of other (after tenant c r) ≡ later =
            ap (packs_of other) e ∙ packs_insert tenant other later r is in
          subst (λ ps. IsKept p (lookup v ps)) (sym read)
            (keeps v p (subst (λ t. lookup v (packs_of t r) ≡ some p) (sym own) found))
    ]
  ]

  after_all-Keeps :
      (other : ℕ) (calls : List (ℕ × Call W)) (r : Packs W)
      → Keeps (packs_of other r) (packs_of other (after_all calls r))
  after_all-Keeps other [] r v p found = IsKept-refl p (lookup v (packs_of other r)) found
  after_all-Keeps other ((tenant, c) ∷ calls) r v p found =
      let (st, now, final) = after-Keeps tenant other c r v p found in
      let (st2, later, final2) =
        after_all-Keeps other calls (after tenant c r) v (record p { status = st }) now in
      (st2, later, stays_superseded p.status st st2 final final2)

  get-after_all :
      (tenant : ℕ) (calls : List (ℕ × Call W)) (r : Packs W)
      → All (λ call. (tenant == call.0) ≡ false) calls
      → get tenant (after_all calls r) ≡ get tenant r
  get-after_all tenant [] r none_own = refl
  get-after_all tenant ((other, c) ∷ calls) r (differs, others) =
      get-after_all tenant calls (after other c r) others ∙ get-after other tenant c r differs

  get_pack_found :
      (tenant : ℕ) (v : RulePackVersion) (r : Packs W) (p : RulePack W)
      → (get_pack tenant v r ≡ returned p) ↔ (lookup v (packs_of tenant r) ≡ some p)
  unfolding get_pack
  get_pack_found tenant v r p = elim (Option-cases (lookup v (packs_of tenant r))) [
    | inl absent ↦ ground arith
    | inr (q, present) ↦ ground arith
  ]

  get_pack-create :
      (tenant : ℕ) (q : RulePack W) (r : Packs W)
      → get_pack tenant q.version (create_pack tenant q r).1
        ≡ elim (lookup q.version (packs_of tenant r)) [
          | none ↦ returned (record q { status = active })
          | some o ↦ returned o
        ]
  get_pack-create tenant q r =
      let ps = packs_of tenant r in
      let t = (create_pack tenant q r).1 in
      elim (Option-cases (lookup q.version ps)) [
        | inl new ↦ rw new (
            (get_pack_found tenant q.version t (record q { status = active })).1 (
              ap (λ u. lookup q.version (packs_of tenant u)) (create_new tenant q r new)
              ∙ ap (lookup q.version) (
                  packs_insert tenant tenant (put q.version (record q { status = active }) ps) r
                    (==_refl tenant))
              ∙ lookup-put q.version q.version (record q { status = active }) ps
              ∙ rw (beq_refl q.version) refl))
        | inr (o, old) ↦ rw old (
            (get_pack_found tenant q.version t o).1 (
              ap (λ u. lookup q.version (packs_of tenant u)) (create_old tenant q o r old)
              ∙ ap (lookup q.version) (packs_insert tenant tenant ps r (==_refl tenant))
              ∙ old))
      ]

  list_packs_of :
      (tenant : ℕ) (wanted : Option RulePackStatus) (t r : Packs W)
      → get tenant t ≡ get tenant r
      → list_packs tenant wanted t ≡ list_packs tenant wanted r
  unfolding list_packs
  list_packs_of tenant none t r own = ap all_of (packs_same tenant t r own)
  list_packs_of tenant (some st) t r own =
      ap (λ ps. filter (λ p. pack_status_eq p.status st) (all_of ps)) (packs_same tenant t r own)

  get_active_pack_of :
      (tenant : ℕ) (t r : Packs W)
      → get tenant t ≡ get tenant r
      → get_active_pack tenant t ≡ get_active_pack tenant r
  unfolding get_active_pack
  get_active_pack_of tenant t r own = rw (get_active_pack, own) refl

  list_versions_of :
      (tenant : ℕ) (t r : Packs W)
      → get tenant t ≡ get tenant r
      → list_versions tenant t ≡ list_versions tenant r
  unfolding list_versions
  list_versions_of tenant t r own =
      ap (λ ps. sort text_le (map (λ entry. entry.0) ps)) (packs_same tenant t r own)

-- A rule pack that a tenant can get stays the same after any calls of the registry, by any tenants,
-- but for its status, and a superseded pack stays superseded. The calls of other tenants change
-- nothing that the tenant reads. After a creation the version is there: the new pack, active, or
-- the pack that had the version.
pub rule_packs_kept :
    {W : Type 0} (tenant : ℕ) (v : RulePackVersion) (p q : RulePack W)
    (wanted : Option RulePackStatus) (calls others : List (ℕ × Call W)) (r : Packs W)
    → get_pack tenant v r ≡ returned p
    → All (λ call. (tenant == call.0) ≡ false) others
    → let t = after_all calls r in
      let u = after_all others r in
      ((st : RulePackStatus) × (get_pack tenant v t ≡ returned (record p { status = st }))
        × ((pack_status_eq p.status superseded ≡ false) ⊎ (st ≡ superseded)))
      × (list_packs tenant wanted u ≡ list_packs tenant wanted r)
      × (get_active_pack tenant u ≡ get_active_pack tenant r)
      × (list_versions tenant u ≡ list_versions tenant r)
      × (get_pack tenant q.version (create_pack tenant q r).1
          ≡ elim (lookup q.version (packs_of tenant r)) [
            | none ↦ returned (record q { status = active })
            | some o ↦ returned o
          ])
rule_packs_kept tenant v p q wanted calls others r found foreign =
    let (st, later, final) =
      after_all-Keeps tenant calls r v p ((get_pack_found tenant v r p).0 found) in
    let own = get-after_all tenant others r foreign in
    (
      (st, (get_pack_found tenant v (after_all calls r) (record p { status = st })).1 later, final),
      list_packs_of tenant wanted (after_all others r) r own,
      get_active_pack_of tenant (after_all others r) r own,
      list_versions_of tenant (after_all others r) r own,
      get_pack-create tenant q r,
    )
