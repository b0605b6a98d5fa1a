-- ===== src/Wheels/Content.antt =====
-- tools/content/wheels.json: the content that the wheel service loads.
use mmorpg_design_documents.Base.{ℕ, true, false, [], ◌∷◌, String}
use mmorpg_design_documents.Base.Int.{pos}
use mmorpg_design_documents.Base.Double.{Double}
use mmorpg_design_documents.Wheels.{
  race, aptitude, trait, origin, omen, WheelOutcome, WheelDefinition, WheelContentFile,
}

module _ {κ} {W : Type κ} ⦃doubles : Double W⦄ where
  abbrev outcome : String → String → ℕ → WheelOutcome W
  outcome id label weight = record { id = id; label = label; weight = doubles.whole (pos weight) }

  abbrev pub race_wheel : WheelDefinition W
  race_wheel = record {
    label = "Wheel of Heritage";
    optional = false;
    outcomes =
        outcome "human" "Human" 30
        ∷ outcome "elf" "Elf" 15
        ∷ outcome "dwarf" "Dwarf" 15
        ∷ outcome "orc" "Orc" 12
        ∷ outcome "fae" "Fae" 8
        ∷ outcome "beastkin" "Beastkin" 10
        ∷ outcome "undine" "Undine" 5
        ∷ outcome "golem" "Golem" 5
        ∷ [];
  }

  abbrev pub aptitude_wheel : WheelDefinition W
  aptitude_wheel = record {
    label = "Wheel of Aptitude";
    optional = false;
    outcomes =
        outcome "physical" "Physical Prodigy" 20
        ∷ outcome "mental" "Mental Prodigy" 20
        ∷ outcome "social" "Social Natural" 15
        ∷ outcome "perceptual" "Keen Senses" 15
        ∷ outcome "spiritual" "Spiritually Gifted" 10
        ∷ outcome "economic" "Born Trader" 10
        ∷ outcome "balanced" "Well-Rounded" 10
        ∷ [];
  }

  abbrev pub trait_wheel : WheelDefinition W
  trait_wheel = record {
    label = "Wheel of Temperament";
    optional = false;
    outcomes =
        outcome "brave" "Brave" 15
        ∷ outcome "cunning" "Cunning" 15
        ∷ outcome "gentle" "Gentle" 15
        ∷ outcome "stubborn" "Stubborn" 12
        ∷ outcome "ambitious" "Ambitious" 12
        ∷ outcome "curious" "Curious" 12
        ∷ outcome "reckless" "Reckless" 10
        ∷ outcome "stoic" "Stoic" 9
        ∷ [];
  }

  abbrev pub origin_wheel : WheelDefinition W
  origin_wheel = record {
    label = "Wheel of Origin";
    optional = false;
    outcomes =
        outcome "village" "Village Born" 25
        ∷ outcome "city" "City Raised" 20
        ∷ outcome "frontier" "Frontier Child" 15
        ∷ outcome "nomad" "Nomad Camp" 12
        ∷ outcome "temple" "Temple Ward" 10
        ∷ outcome "forest" "Forest Foundling" 10
        ∷ outcome "shipborn" "Shipborn" 8
        ∷ [];
  }

  abbrev pub omen_wheel : WheelDefinition W
  omen_wheel = record {
    label = "Wheel of Omen";
    optional = true;
    outcomes =
        outcome "star_blessed" "Star-Blessed" 10
        ∷ outcome "shadow_touched" "Shadow-Touched" 10
        ∷ outcome "twin_souled" "Twin-Souled" 8
        ∷ outcome "storm_child" "Storm Child" 12
        ∷ outcome "dream_walker" "Dream Walker" 10
        ∷ outcome "iron_born" "Iron-Born" 15
        ∷ outcome "none" "No Omen" 35
        ∷ [];
  }

  abbrev pub wheels_json : WheelContentFile W
  wheels_json = record {
    wheels =
        (race, race_wheel)
        ∷ (aptitude, aptitude_wheel)
        ∷ (trait, trait_wheel)
        ∷ (origin, origin_wheel)
        ∷ (omen, omen_wheel)
        ∷ [];
    reroll_cooldown_ms = 86400000;
    reroll_coin_cost = pos 50;
  }
