-- ===== src/Traits.antt =====
-- server/src/modules/characters/traits/trait.service.ts: the passive traits that a character is born
-- with, their effect on a probability, and the hints that the player reads. Times are the wall clock's.
pub mod Types
mod Rolling
mod Hints
mod Probability
mod Tests
unfoldable pub use Types.*
use mmorpg_design_documents.Base.{
  ℕ, not, Bool, true, false, Option, none, some, List, [], ◌∷◌, ◌++◌, map, String, Result, ok, err,
}
use mmorpg_design_documents.Base.Int.{ℤ, pos, ◌+ℤ◌}
use mmorpg_design_documents.Base.Double.{Double}
use mmorpg_design_documents.Base.Key.{string_eq, ◌==◌}
use mmorpg_design_documents.Base.Dict.{Dict, lookup, insert}
use mmorpg_design_documents.Base.Accounts.{or_zero}
use mmorpg_design_documents.Base.Lists.{keep, find}
use mmorpg_design_documents.Events.{publish, traits_rolled, WheelResult}
use mmorpg_design_documents.Random.{codes, hash_seed}
use mmorpg_design_documents.Random.Biased.{value_around, clamp_unit}

-- `TABLE[outcome] ?? {}`
abbrev pub bias_map : Dict String TraitBiasMap → Option String → TraitBiasMap
bias_map table none = []
bias_map table (some outcome) = elim (lookup outcome table) [ none ↦ [] | some b ↦ b ]

-- `accBias` of a trait.
unfoldable pub trait_bias : WheelResult → PassiveTraitName → ℤ
trait_bias wheels name =
    or_zero (lookup name (bias_map wheel_trait_bias (some wheels.trait)))
    +ℤ or_zero (lookup name (bias_map wheel_omen_bias wheels.omen))

-- `hashSeed` of the text `${characterId}:trait:${traitName}`.
unfoldable pub trait_seed : String → PassiveTraitName → ℕ
unfolding hash_seed
trait_seed character_id name =
    hash_seed (codes character_id ++ (b':' ∷ (codes "trait" ++ (b':' ∷ codes (trait_text name)))))

module _ {κ} (W : Type κ) ⦃doubles : Double W⦄ where
  -- `0.5 + (bias / 200)`
  unfoldable pub trait_centre : ℤ → W
  trait_centre bias =
      doubles.add (doubles.decimal 5 1) (doubles.div (doubles.whole bias) (doubles.whole (pos 200)))

  unfoldable pub biased_weight : ℕ → ℤ → ℤ → ℤ → ℤ
  unfolding trait_centre value_around
  biased_weight base_seed bias low high = value_around (trait_centre bias) base_seed low high

  unfoldable pub roll_trait : String → WheelResult → PassiveTraitName → PassiveTraitEntry
  unfolding biased_weight trait_bias trait_seed
  roll_trait character_id wheels name = record {
    trait_name = name;
    weight =
        biased_weight (trait_seed character_id name) (trait_bias wheels name) trait_weight_min
          trait_weight_max;
  }

  -- The record that `rollTraits` stores.
  unfoldable pub rolled_record : ℕ → String → WheelResult → CharacterPassiveTraits
  unfolding roll_trait
  rolled_record now character_id wheels = record {
    character_id = character_id;
    traits = map (roll_trait character_id wheels) passive_trait_names;
    rolled_at = now;
  }

  -- `traitBuckets` of the event.
  abbrev pub trait_buckets : List PassiveTraitEntry → List (String × String)
  trait_buckets [] = []
  trait_buckets (t ∷ ts) =
      (trait_text t.trait_name, bucket_text (classify_weight t.weight)) ∷ trait_buckets ts

  unfoldable pub roll_traits :
      ℕ
      → String
      → WheelResult
      → TraitService
      → Result TraitError CharacterPassiveTraits × TraitService
  unfolding rolled_record
  roll_traits now character_id wheels s = elim (lookup character_id s.store) [
    | some r ↦ (err (already_rolled character_id), s)
    | none ↦
        let r = rolled_record now character_id wheels in
        (
          ok r,
          record s {
            store = insert character_id r s.store;
            bus =
                publish now now
                  (traits_rolled (record {
                    character_id = character_id;
                    trait_buckets = trait_buckets r.traits;
                  }))
                  s.bus;
          },
        )
  ]

module _ {κ} {W : Type κ} ⦃doubles : Double W⦄ where
  -- `Math.max(0, Math.min(1, base * (1 + weight / 200)))`
  unfoldable pub biased_probability : W → ℤ → W
  unfolding clamp_unit
  biased_probability base weight = clamp_unit (
      doubles.mul base (
        doubles.add (doubles.whole (pos 1))
          (doubles.div (doubles.whole weight) (doubles.whole (pos 200)))))

  unfoldable pub apply_trait_bias : String → PassiveTraitName → W → TraitService → W
  unfolding biased_probability
  apply_trait_bias character_id name base s = elim (lookup character_id s.store) [
    | none ↦ base
    | some r ↦ elim (find (λ t. t.trait_name == name) r.traits) [
      | none ↦ base
      | some t ↦ biased_probability base t.weight
    ]
  ]

abbrev pub is_neutral : WeightBucket → Bool
is_neutral neutral = true
is_neutral strong_negative = false
is_neutral negative = false
is_neutral positive = false
is_neutral strong_positive = false

-- The hints of the entries that are not neutral.
unfoldable pub hints_of : List PassiveTraitEntry → List String
unfolding hint
hints_of traits =
    map (λ t. hint t.trait_name (classify_weight t.weight))
      (keep (λ t. not (is_neutral (classify_weight t.weight))) traits)

unfoldable pub generate_hints : String → TraitService → Option TraitHintDto
unfolding hints_of
generate_hints character_id s = elim (lookup character_id s.store) [
  | none ↦ none
  | some r ↦ some (record { character_id = character_id; hints = hints_of r.traits })
]

unfoldable pub get_traits : String → TraitService → Option CharacterPassiveTraits
get_traits character_id s = lookup character_id s.store
