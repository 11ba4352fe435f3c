-- ===== src/Engine/RulePacks/Calls.antt =====
-- What one call of the registry of rule packs (rule_pack_registry.rs) keeps of them.
use intent_rebase.Base.{
  ℕ, true, false, Option, none, some, List, [], ◌∷◌, if◌then◌else◌, get, insert, lookup, put,
  lookup-put, string_eq, ◌≡◌, refl, ap, ◌∙◌, subst, arith, inl, inr, ◌⊎◌, Bool-cases, Option-cases,
}
use intent_rebase.Engine.RulePacks.Defs.{
  RulePack, RulePackVersion, RulePackStatus, draft, active, deprecated, superseded, pack_status_eq,
  Packs, TenantPacks, packs_of, create_pack, update_pack_status, is_status_change,
}

still_superseded : (s : RulePackStatus) → (pack_status_eq s superseded ≡ false) ⊎ (s ≡ superseded)
still_superseded draft = inl refl
still_superseded active = inl refl
still_superseded deprecated = inl refl
still_superseded superseded = inr refl

pub stays_superseded :
    (s s1 s2 : RulePackStatus)
    → (pack_status_eq s superseded ≡ false) ⊎ (s1 ≡ superseded)
    → (pack_status_eq s1 superseded ≡ false) ⊎ (s2 ≡ superseded)
    → (pack_status_eq s superseded ≡ false) ⊎ (s2 ≡ superseded)
stays_superseded s s1 s2 (inl other) next = inl other
stays_superseded s s1 s2 (inr e) (inr e2) = inr e2
stays_superseded s s1 s2 (inr e) (inl other) = ground arith

changed_from :
    (s s1 : RulePackStatus) → is_status_change s s1 ≡ true → pack_status_eq s superseded ≡ false
changed_from draft s1 h = refl
changed_from active s1 h = refl
changed_from deprecated s1 h = refl
changed_from superseded s1 h = ground arith

-- A call that may change the registry, by a tenant.
pub data Call (W : Type 0) : Type 0 where
  creates : RulePack W → Call W
  updates : RulePackVersion → RulePackStatus → Call W

module _ {W : Type 0} where
  abbrev pub after : ℕ → Call W → Packs W → Packs W
  after tenant (creates p) r = (create_pack tenant p r).1
  after tenant (updates v st) r = (update_pack_status tenant v st r).1

  abbrev pub after_all : List (ℕ × Call W) → Packs W → Packs W
  after_all [] r = r
  after_all ((tenant, c) ∷ calls) r = after_all calls (after tenant c r)

  -- A pack is the same as `p` but for its status, and the status superseded stays.
  abbrev pub IsKept : RulePack W → Option (RulePack W) → Type 0
  IsKept p found =
      (st : RulePackStatus) × (found ≡ some (record p { status = st }))
      × ((pack_status_eq p.status superseded ≡ false) ⊎ (st ≡ superseded))

  pub IsKept-refl : (p : RulePack W) (found : Option (RulePack W)) → found ≡ some p → IsKept p found
  IsKept-refl p found h = (p.status, h, still_superseded p.status)

  pub create_new :
      (tenant : ℕ) (q : RulePack W) (r : Packs W)
      → lookup q.version (packs_of tenant r) ≡ none
      → (create_pack tenant q r).1
        ≡ insert tenant (put q.version (record q { status = active }) (packs_of tenant r)) r
  unfolding create_pack
  create_new tenant q r h = ground arith

  pub create_old :
      (tenant : ℕ) (q o : RulePack W) (r : Packs W)
      → lookup q.version (packs_of tenant r) ≡ some o
      → (create_pack tenant q r).1 ≡ insert tenant (packs_of tenant r) r
  unfolding create_pack
  create_old tenant q o r h = ground arith

  update_absent :
      (tenant : ℕ) (v : RulePackVersion) (st : RulePackStatus) (r : Packs W)
      → lookup v (packs_of tenant r) ≡ none
      → (update_pack_status tenant v st r).1 ≡ r
  unfolding update_pack_status
  update_absent tenant v st r h = elim (Option-cases (get tenant r)) [
    | inl absent ↦ ground arith
    | inr (ps, present) ↦ ground arith
  ]

  update_present :
      (tenant : ℕ) (v : RulePackVersion) (st : RulePackStatus) (p : RulePack W) (r : Packs W)
      → lookup v (packs_of tenant r) ≡ some p
      → (update_pack_status tenant v st r).1 ≡ (
          if is_status_change p.status st
          then insert tenant (put v (record p { status = st }) (packs_of tenant r)) r
          else r)
  unfolding update_pack_status
  update_present tenant v st p r h = elim (Option-cases (get tenant r)) [
    | inl absent ↦ ground arith
    | inr (ps, present) ↦ ground arith
  ]

  abbrev pub Keeps : TenantPacks W → TenantPacks W → Type 0
  Keeps before later =
      (v : RulePackVersion) (p : RulePack W) → lookup v before ≡ some p → IsKept p (lookup v later)

  put_new-Keeps :
      (v : RulePackVersion) (q : RulePack W) (ps : TenantPacks W)
      → lookup v ps ≡ none
      → Keeps ps (put v q ps)
  put_new-Keeps v q ps new w p found = elim (Bool-cases (string_eq.beq v w)) [
    | inl is ↦ ground (arith, string_eq.beq_iff v w)
    | inr other ↦ IsKept-refl p (lookup w (put v q ps)) (lookup-put w v q ps ∙ rw other found)
  ]

  put_changed-Keeps :
      (v : RulePackVersion) (st : RulePackStatus) (q : RulePack W) (ps : TenantPacks W)
      → lookup v ps ≡ some q
      → is_status_change q.status st ≡ true
      → Keeps ps (put v (record q { status = st }) ps)
  put_changed-Keeps v st q ps old fits w p found = elim (Bool-cases (string_eq.beq v w)) [
    | inl is ↦
        let q_p : q ≡ p = ground (arith, string_eq.beq_iff v w) in
        let with_st : RulePack W → Option (RulePack W) = λ x. some (record x { status = st }) in
        (
          st,
          lookup-put w v (record q { status = st }) ps ∙ rw is (ap with_st q_p),
          inl (
              subst (λ x. pack_status_eq x.status superseded ≡ false) q_p
                (changed_from q.status st fits)),
        )
    | inr other ↦
        IsKept-refl p (lookup w (put v (record q { status = st }) ps))
          (lookup-put w v (record q { status = st }) ps ∙ rw other found)
  ]

  -- A call leaves the registry, or it replaces the packs of its tenant by ones that keep them.
  pub after_cases :
      (tenant : ℕ) (c : Call W) (r : Packs W)
      → (after tenant c r ≡ r)
        ⊎ ((later : TenantPacks W) × (after tenant c r ≡ insert tenant later r)
            × Keeps (packs_of tenant r) later)
  after_cases tenant (creates q) r =
      let ps = packs_of tenant r in
      elim (Option-cases (lookup q.version ps)) [
        | inl new ↦ inr (
          put q.version (record q { status = active }) ps,
          create_new tenant q r new,
          put_new-Keeps q.version (record q { status = active }) ps new,
        )
        | inr (o, old) ↦
            inr (ps, create_old tenant q o r old, λ v p found. IsKept-refl p (lookup v ps) found)
      ]
  after_cases tenant (updates v st) r =
      let ps = packs_of tenant r in
      elim (Option-cases (lookup v ps)) [
        | inl absent ↦ inl (update_absent tenant v st r absent)
        | inr (p, old) ↦ elim (Bool-cases (is_status_change p.status st)) [
          | inr unfit ↦ inl (update_present tenant v st p r old ∙ rw unfit refl)
          | inl fits ↦ inr (
            put v (record p { status = st }) ps,
            update_present tenant v st p r old ∙ rw fits refl,
            put_changed-Keeps v st p ps old fits,
          )
        ]
      ]
