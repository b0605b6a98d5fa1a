-- ===== src/Traits/Probability.antt =====
-- server/src/modules/characters/traits/trait.service.ts, `applyTraitBias`.
use mmorpg_design_documents.Base.{
  ◌≡◌, refl, inl, inr, Option-cases, Option, none, some, String, arith,
}
use mmorpg_design_documents.Base.Int.{ℤ, pos, ◌≤ℤ◌}
use mmorpg_design_documents.Base.Double.{Double, IsRounded, ◌≲◌}
use mmorpg_design_documents.Base.Key.{string_eq, ◌==◌}
use mmorpg_design_documents.Base.Dict.{lookup}
use mmorpg_design_documents.Base.Lists.{find}
use mmorpg_design_documents.Random.Biased.{clamp_unit-between, clamp_unit_mono}
use mmorpg_design_documents.Traits.{
  PassiveTraitName, trait_eq, PassiveTraitEntry, TraitService, biased_probability, apply_trait_bias,
}

-- The entry of a trait of a character.
abbrev pub entry_of : String → PassiveTraitName → TraitService → Option PassiveTraitEntry
entry_of c name s = elim (lookup c s.store) [
  | none ↦ none
  | some r ↦ find (λ t. t.trait_name == name) r.traits
]

module _ {κ} {W : Type κ} ⦃doubles : Double W⦄ where
  apply-none :
      (c : String) (name : PassiveTraitName) (base : W) (s : TraitService)
      → entry_of c name s ≡ none
      → apply_trait_bias c name base s ≡ base
  unfolding apply_trait_bias
  apply-none c name base s e = elim (Option-cases (lookup c s.store)) [
    | inl f ↦ rw (apply_trait_bias, f) refl
    | inr (r, f) ↦ rw (apply_trait_bias, f, rw (entry_of, f) at e) refl
  ]

  apply-some :
      (c : String) (name : PassiveTraitName) (base : W) (t : PassiveTraitEntry) (s : TraitService)
      → entry_of c name s ≡ some t
      → apply_trait_bias c name base s ≡ biased_probability base t.weight
  unfolding apply_trait_bias
  apply-some c name base t s e = elim (Option-cases (lookup c s.store)) [
    | inl f ↦ absurd (cc (rw (entry_of, f) at e))
    | inr (r, f) ↦ rw (apply_trait_bias, f, rw (entry_of, f) at e) refl
  ]

  biased_probability_mono :
      (laws : IsRounded W) (base : W) (v w : ℤ)
      → doubles.whole (pos 0) ≲ base
      → v ≤ℤ w
      → biased_probability base v ≲ biased_probability base w
  unfolding biased_probability
  biased_probability_mono laws base v w h k = clamp_unit_mono laws _ _ (
      laws.mul_mono base _ _ h (
        laws.add_mono (doubles.whole (pos 1)) _ _ (
          laws.div_mono (doubles.whole v) (doubles.whole w) (doubles.whole (pos 200))
            (laws.whole_mono (pos 1) (pos 200) (omega arith)) (laws.whole_mono v w k))))

  -- Without an entry for the trait a probability is returned as it is. With one, the result lies
  -- between 0 and 1 whatever the probability and the weight; and of two characters with entries, the
  -- one of no lower weight has no lower probability, from the same one that is not negative.
  pub apply_trait_bias_lem :
      (laws : IsRounded W) (c d : String) (name : PassiveTraitName) (base : W) (s : TraitService)
      → (entry_of c name s ≡ none → apply_trait_bias c name base s ≡ base)
        × ((t u : PassiveTraitEntry)
            → entry_of c name s ≡ some t
            → entry_of d name s ≡ some u
            → (doubles.whole (pos 0) ≲ apply_trait_bias c name base s)
              × (apply_trait_bias c name base s ≲ doubles.whole (pos 1))
              × (doubles.whole (pos 0) ≲ base
                  → t.weight ≤ℤ u.weight
                  → apply_trait_bias c name base s ≲ apply_trait_bias d name base s))
  unfolding biased_probability
  apply_trait_bias_lem laws c d name base s = (
    apply-none c name base s,
    λ t u e f.
        rw (apply-some c name base t s e, apply-some d name base u s f)
          (
            (clamp_unit-between laws _).0,
            (clamp_unit-between laws _).1,
            λ h k. biased_probability_mono laws base t.weight u.weight h k,
          ),
  )
