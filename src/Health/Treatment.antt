-- ===== src/Health/Treatment.antt =====
-- server/src/modules/health/health.service.ts, `getTreatmentReduction`: the product that it rounds is
-- one of doubles, by the interface of Base/Double.
use mmorpg_design_documents.Base.{
  ◌≡◌, refl, ap, subst, inl, inr, not, Bool-cases, Option, none, some, Option-cases, List, [], ◌∷◌,
  String, arith, if◌then◌else◌,
}
use mmorpg_design_documents.Base.Int.{
  ℤ, pos, ◌+ℤ◌, ◌-ℤ◌, ◌≤ℤ◌, leb_ℤ, max_ℤ, pos_part, neg_part, int_laws,
}
use mmorpg_design_documents.Base.Double.{Double, IsRounded, ◌≲◌}
use mmorpg_design_documents.Base.Key.{EntityId, string_eq, entity_eq, ◌==◌}
use mmorpg_design_documents.Base.Dict.{lookup, insert}
use mmorpg_design_documents.Base.Lists.{find}
use mmorpg_design_documents.Health.{
  HealthCondition, HealthService, SkillTreatment, treatment_skill, treats,
}

-- The guards on an earlier treatment and on the days that remain.
abbrev pub untreated : Option String → ℤ → SkillTreatment → Option SkillTreatment
untreated (some other) days t = none
untreated none days t = if leb_ℤ days (pos 0) then none else some t

-- What the guards leave: the treatment, where the skill has one for the type, the condition has not
-- been treated and days remain.
pub treatment_for : String → ℤ → HealthCondition → Option SkillTreatment
treatment_for skill day c = elim (treatment_skill skill) [
  | none ↦ none
  | some t ↦
      if not (treats c.condition_type t)
      then none
      else untreated c.treated_by_skill (c.resolves_at_day -ℤ day) t
]

-- The list with the object that `conditions.find` gives changed in place.
abbrev pub change_first : EntityId → HealthCondition → List HealthCondition → List HealthCondition
change_first id c' [] = []
change_first id c' (c ∷ cs) =
    let rest = change_first id c' cs in if c.id == id then c' ∷ cs else c ∷ rest

module _ (W : Type 0) ⦃d : Double W⦄ where
  -- `Math.max(1, Math.round(remainingDays * (1 - treatment.reduction)))`
  pub reduced_days : ℤ → SkillTreatment → ℤ
  reduced_days remaining t =
      max_ℤ (pos 1)
        (d.round (d.mul (d.whole remaining) (d.sub (d.whole (pos 1)) (d.decimal t.reduction 2))))

  abbrev pub treated : ℤ → String → SkillTreatment → HealthCondition → HealthCondition
  treated day skill t c =
      let day' = day +ℤ reduced_days (c.resolves_at_day -ℤ day) t in
      record c {
        resolves_at_day = day';
        duration_days = day' -ℤ c.started_at_day;
        treated_by_skill = some skill;
      }

  unfoldable pub get_treatment_reduction :
      String → EntityId → String → ℤ → HealthService → Option ℤ × HealthService
  unfolding treatment_for reduced_days
  get_treatment_reduction character_id id skill day s = elim (lookup character_id s.store) [
    | none ↦ (none, s)
    | some cs ↦ elim (find (λ (c : HealthCondition). c.id == id) cs) [
      | none ↦ (none, s)
      | some c ↦ elim (treatment_for skill day c) [
        | none ↦ (none, s)
        | some t ↦
            let c' = treated day skill t c in
            (
              some c'.resolves_at_day,
              record s { store = insert character_id (change_first id c' cs) s.store },
            )
      ]
    ]
  ]

untreated-some :
    (o : Option String) (days : ℤ) (t u : SkillTreatment)
    → untreated o days u ≡ some t
    → (pos 1 ≤ℤ days) × (o ≡ none)
untreated-some (some other) days t u h = absurd (cc)
untreated-some none days t u h = (ground arith, refl)

-- A treatment is given only where days remain and nothing has been given before.
treatment_for-some :
    (skill : String) (day : ℤ) (c : HealthCondition) (t : SkillTreatment)
    → treatment_for skill day c ≡ some t
    → (pos 1 ≤ℤ c.resolves_at_day -ℤ day) × (c.treated_by_skill ≡ none)
unfolding treatment_for
treatment_for-some skill day c t h = elim (Option-cases (treatment_skill skill)) [
  | inl e ↦ absurd (cc (rw (e, treatment_for) at h))
  | inr (u, e) ↦ elim (Bool-cases (treats c.condition_type u)) [
    | inl fits ↦
        untreated-some c.treated_by_skill (c.resolves_at_day -ℤ day) t u
          (rw (e, treatment_for, fits) at h)
    | inr other ↦ absurd (cc (rw (e, treatment_for, other) at h))
  ]
]

module _ (W : Type 0) ⦃d : Double W⦄ (laws : IsRounded W) where
  open laws use {whole_mono, sub_le, mul_mono, round_mono, decimal_nonneg, mul-one, round-whole}

  reduced_days_bounds :
      (remaining : ℤ) (t : SkillTreatment)
      → pos 1 ≤ℤ remaining
      → (pos 1 ≤ℤ reduced_days W remaining t) × (reduced_days W remaining t ≤ℤ remaining)
  unfolding reduced_days
  reduced_days_bounds remaining t h =
      bounded _ remaining h (subst (λ n. d.round product ≤ℤ n) (round-whole remaining) less)
    where
      product : W
      product = d.mul (d.whole remaining) (d.sub (d.whole (pos 1)) (d.decimal t.reduction 2))

      less : d.round product ≤ℤ d.round (d.whole remaining)
      less = round_mono _ _ (
          subst (λ x. product ≲ x) (mul-one (d.whole remaining))
            (mul_mono _ _ _ (whole_mono (pos 0) remaining (omega arith))
              (sub_le _ _ (decimal_nonneg t.reduction 2))))

      bounded :
          (x n : ℤ) → pos 1 ≤ℤ n → x ≤ℤ n → (pos 1 ≤ℤ max_ℤ (pos 1) x) × (max_ℤ (pos 1) x ≤ℤ n)
      bounded x n p q = ground arith

  -- Where a treatment is given, it is the first of the condition, which had not expired; the day on
  -- which the condition resolves then comes after the current day, and not after the day on which
  -- it would have resolved.
  pub get_treatment_reduction-bounds :
      (character_id : String) (id : EntityId) (skill : String) (day : ℤ) (s : HealthService)
      (cs : List HealthCondition) (c : HealthCondition) (day' : ℤ)
      → lookup character_id s.store ≡ some cs
      → find (λ (x : HealthCondition). x.id == id) cs ≡ some c
      → (get_treatment_reduction W character_id id skill day s).0 ≡ some day'
      → (c.treated_by_skill ≡ none) × (day +ℤ pos 1 ≤ℤ day') × (day' ≤ℤ c.resolves_at_day)
  unfolding get_treatment_reduction
  get_treatment_reduction-bounds character_id id skill day s cs c day' e f h =
      elim (Option-cases (treatment_for skill day c)) [
        | inl g ↦ absurd (cc (rw (e, get_treatment_reduction, f, g) at h))
        | inr (t, g) ↦
            let (remain, fresh) = treatment_for-some skill day c t g in
            let new : day +ℤ reduced_days W (c.resolves_at_day -ℤ day) t ≡ day' =
              cc (rw (e, get_treatment_reduction, f, g) at h) in
            let bounds = reduced_days_bounds (c.resolves_at_day -ℤ day) t remain in
            let (after, before) = later _ c.resolves_at_day bounds new in (fresh, after, before)
      ]
    where
      later :
          (x r : ℤ)
          → (pos 1 ≤ℤ x) × (x ≤ℤ r -ℤ day)
          → day +ℤ x ≡ day'
          → (day +ℤ pos 1 ≤ℤ day') × (day' ≤ℤ r)
      later x r b e = omega (int_laws, b, ap pos_part e, ap neg_part e)
