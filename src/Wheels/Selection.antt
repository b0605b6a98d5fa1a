-- ===== src/Wheels/Selection.antt =====
-- server/src/modules/characters/wheels/wheel.service.ts, `weightedSelect` and `spin`: what is chosen.
use mmorpg_design_documents.Base.{
  ℕ, ◌≡◌, ◌≢◌, refl, ◌∙◌, subst, ◌⊎◌, inl, inr, false, none, some, List, [], ◌∷◌, ◌++◌, String, ok,
  Bool-cases, Option-cases,
}
use mmorpg_design_documents.Base.Int.{pos}
use mmorpg_design_documents.Base.Double.{Double, ◌≲◌}
use mmorpg_design_documents.Base.Dict.{lookup}
use mmorpg_design_documents.Base.Lists.{All, All-middle}
use mmorpg_design_documents.Random.{mulberry32}
use mmorpg_design_documents.Wheels.{
  WheelType, wheel_eq, WheelOutcome, WheelDefinition, WheelContentFile, total_weight, last_id,
  advance, select_from, weighted_select, get_wheel_definition, spin,
}

module _ {κ} {W : Type κ} ⦃doubles : Double W⦄ where
  -- The sum of the weights.
  abbrev pub weights : W → List (WheelOutcome W) → W
  weights sum [] = sum
  weights sum (o ∷ os) = weights (doubles.add sum o.weight) os

  -- The sum of the shares of the outcomes, added one after the other to where the cursor stands.
  abbrev pub cursor_after : W → W → List (WheelOutcome W) → W
  cursor_after total cursor [] = cursor
  cursor_after total cursor (o ∷ os) =
      cursor_after total (doubles.add cursor (doubles.div o.weight total)) os

  -- The roll is at or beyond the cursor after each of the outcomes.
  abbrev pub Beyond : W → W → W → List (WheelOutcome W) → Type 0
  Beyond total roll cursor [] = Unit
  Beyond total roll cursor (o ∷ os) =
      let next = doubles.add cursor (doubles.div o.weight total) in
      (next ≲ roll) × Beyond total roll next os

  -- The chosen outcome, with those before it and those after it.
  pub record Chosen (total roll cursor : W) (os : List (WheelOutcome W)) (id : String)
      : Type κ where
    pub before : List (WheelOutcome W)
    pub outcome : WheelOutcome W
    pub after : List (WheelOutcome W)
    pub split : os ≡ before ++ (outcome ∷ after)
    pub named : outcome.id ≡ id
    pub passed : Beyond total roll cursor before
    pub reached :
        (doubles.at_most (cursor_after total cursor (before ++ (outcome ∷ []))) roll ≡ false)
        ⊎ ((after ≡ []) × Beyond total roll cursor os)

  total_weight_lem : (sum : W) (os : List (WheelOutcome W)) → total_weight sum os ≡ weights sum os
  total_weight_lem sum [] = refl
  total_weight_lem sum (o ∷ os) = total_weight_lem (doubles.add sum o.weight) os

  further :
      (total roll cursor : W) (o : WheelOutcome W) (os : List (WheelOutcome W)) (id : String)
      → advance total cursor o ≲ roll
      → Chosen total roll (advance total cursor o) os id
      → Chosen total roll cursor (o ∷ os) id
  further total roll cursor o os id h c = record {
    before = o ∷ c.before;
    outcome = c.outcome;
    after = c.after;
    split = cc (c.split);
    named = c.named;
    passed = (h, c.passed);
    reached = elim c.reached [ inl q ↦ inl q | inr (e, b) ↦ inr (e, (h, b)) ];
  }

  select_from-Chosen :
      (total roll cursor : W) (os : List (WheelOutcome W)) (id : String)
      → select_from total roll cursor os ≡ some id
      → Chosen total roll cursor os id
  unfolding select_from
  select_from-Chosen total roll cursor [] id h = absurd (cc)
  select_from-Chosen total roll cursor (o ∷ os) id h =
      elim (Bool-cases (doubles.at_most (advance total cursor o) roll)) [
        | inl e ↦
            further total roll cursor o os id e
              (select_from-Chosen total roll (advance total cursor o) os id (rw e at h))
        | inr e ↦ record {
          before = [];
          outcome = o;
          after = os;
          split = refl;
          named = cc (rw e at h);
          passed = tt;
          reached = inl e;
        }
      ]

  none-passed :
      (total roll cursor : W) (o : WheelOutcome W) (os : List (WheelOutcome W))
      → select_from total roll cursor (o ∷ os) ≡ none
      → (advance total cursor o ≲ roll)
        × (select_from total roll (advance total cursor o) os ≡ none)
  unfolding select_from
  none-passed total roll cursor o os h =
      elim (Bool-cases (doubles.at_most (advance total cursor o) roll)) [
        | inr e ↦ absurd (cc (rw e at h))
        | inl e ↦ (e, rw e at h)
      ]

  last-Chosen :
      (total roll cursor : W) (o : WheelOutcome W) (os : List (WheelOutcome W))
      → select_from total roll cursor (o ∷ os) ≡ none
      → Chosen total roll cursor (o ∷ os) (last_id o os)
  last-Chosen total roll cursor o [] h = record {
    before = [];
    outcome = o;
    after = [];
    split = refl;
    named = refl;
    passed = tt;
    reached = inr (refl, ((none-passed total roll cursor o [] h).0, tt));
  }
  last-Chosen total roll cursor o (p ∷ os) h =
      let q = none-passed total roll cursor o (p ∷ os) h in
      further total roll cursor o (p ∷ os) (last_id p os) q.0
        (last-Chosen total roll (advance total cursor o) p os q.1)

  -- On a wheel with outcomes the selection returns one of them. The bound of an outcome is the sum,
  -- from 0 on and in the order of the wheel, of the weights up to and with its own, each divided by
  -- the sum of all weights. The roll is at or beyond the bound of each outcome before the one that
  -- is chosen, and below the bound of that one, unless it is the last and the roll is below none.
  pub weighted_select-Chosen :
      (outcomes : List (WheelOutcome W)) (roll : W)
      → outcomes ≢ []
      → (id : String) × (weighted_select outcomes roll ≡ ok id)
        × Chosen (weights (doubles.whole (pos 0)) outcomes) roll (doubles.whole (pos 0)) outcomes id
  unfolding weighted_select
  weighted_select-Chosen [] roll h = absurd (h refl)
  weighted_select-Chosen (o ∷ os) roll h =
      elim (Option-cases (select_from total roll zero_cursor (o ∷ os))) [
        | inl e ↦ (
          last_id o os,
          rw (weighted_select, e) refl,
          summed (last_id o os) (last-Chosen total roll zero_cursor o os e),
        )
        | inr (id, e) ↦ (
          id,
          rw (weighted_select, e) refl,
          summed id (select_from-Chosen total roll zero_cursor (o ∷ os) id e),
        )
      ]
    where
      zero_cursor : W
      zero_cursor = doubles.whole (pos 0)

      total : W
      total = total_weight zero_cursor (o ∷ os)

      summed :
          (id : String)
          → Chosen total roll zero_cursor (o ∷ os) id
          → Chosen (weights zero_cursor (o ∷ os)) roll zero_cursor (o ∷ os) id
      summed id c =
          subst (λ z. Chosen z roll zero_cursor (o ∷ os) id) (total_weight_lem zero_cursor (o ∷ os))
            c

  -- A spin of a wheel with outcomes selects by the first number of the generator with that seed.
  pub spin-ok :
      (wheel_type : WheelType) (seed : ℕ) (content : WheelContentFile W) (d : WheelDefinition W)
      → lookup wheel_type content.wheels ≡ some d
      → d.outcomes ≢ []
      → (id : String) × (spin wheel_type seed content ≡ ok id)
  unfolding spin get_wheel_definition
  spin-ok wheel_type seed content d e ne =
      let chosen = weighted_select-Chosen d.outcomes (mulberry32 seed) ne in
      (chosen.0, (rw (spin, e) chosen.1))

  -- What holds of every outcome of a wheel holds of the one that a spin selects.
  pub spin-All {μ} :
      (P : WheelOutcome W → Type μ) (wheel_type : WheelType) (seed : ℕ)
      (content : WheelContentFile W) (d : WheelDefinition W) (id : String)
      → lookup wheel_type content.wheels ≡ some d
      → d.outcomes ≢ []
      → All P d.outcomes
      → spin wheel_type seed content ≡ ok id
      → (o : WheelOutcome W) × (o.id ≡ id) × P o
  unfolding spin get_wheel_definition
  spin-All P wheel_type seed content d id e ne all h =
      let c = weighted_select-Chosen d.outcomes (mulberry32 seed) ne in
      let at : weighted_select d.outcomes (mulberry32 seed) ≡ ok id = rw (spin, e) at h in
      (
        c.2.outcome,
        c.2.named ∙ (cc (c.1, at)),
        All-middle P c.2.before c.2.after c.2.outcome (subst (λ os. All P os) c.2.split all),
      )
