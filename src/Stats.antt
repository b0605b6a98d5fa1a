-- ===== src/Stats.antt =====
-- server/src/modules/characters/stats/stat.service.ts: the stats that a character is born with. Times
-- are the wall clock's.
pub mod Types
mod Ranges
mod Blindness
mod Content
mod Tests
unfoldable pub use Types.*
use mmorpg_design_documents.Base.{
  ℕ, Option, none, some, List, [], ◌∷◌, ◌++◌, String, Result, ok, err,
}
use mmorpg_design_documents.Base.Int.{ℤ, pos, ◌+ℤ◌}
use mmorpg_design_documents.Base.Double.{Double}
use mmorpg_design_documents.Base.Key.{string_eq}
use mmorpg_design_documents.Base.Dict.{lookup, insert}
use mmorpg_design_documents.Events.{publish, stats_initialised, WheelResult}
use mmorpg_design_documents.Random.{codes, hash_seed}
use mmorpg_design_documents.Random.Biased.{value_around}

-- `hashSeed` of the text `${characterId}:${part}:${key}`.
unfoldable pub stat_key : String → String → String → ℕ
unfolding hash_seed
stat_key character_id part key =
    hash_seed (codes character_id ++ (b':' ∷ (codes part ++ (b':' ∷ codes key))))

-- The sum of the biases of race, trait and origin, for each family.
unfoldable pub accumulated_family : WheelResult → FamilyBias
accumulated_family wheels =
    let race_bias = family_bias race_family_bias wheels.race in
    let trait_bias = family_bias trait_family_bias wheels.trait in
    let origin_bias = family_bias origin_family_bias wheels.origin in
    record {
      physical = race_bias.physical +ℤ trait_bias.physical +ℤ origin_bias.physical;
      mental = race_bias.mental +ℤ trait_bias.mental +ℤ origin_bias.mental;
      social = race_bias.social +ℤ trait_bias.social +ℤ origin_bias.social;
      perceptual = race_bias.perceptual +ℤ trait_bias.perceptual +ℤ origin_bias.perceptual;
      spiritual = race_bias.spiritual +ℤ trait_bias.spiritual +ℤ origin_bias.spiritual;
      economic = race_bias.economic +ℤ trait_bias.economic +ℤ origin_bias.economic;
    }

abbrev pub omen_bias : Option String → PotentialBias
omen_bias none = no_potential_bias
omen_bias (some omen) = potential_bias omen_potential_bias omen

abbrev pub sum_potential : PotentialBias → PotentialBias → PotentialBias → PotentialBias
sum_potential aptitude origin omen = record {
  growth_elasticity =
      aptitude.growth_elasticity +ℤ origin.growth_elasticity +ℤ omen.growth_elasticity;
  ceiling_bias = aptitude.ceiling_bias +ℤ origin.ceiling_bias +ℤ omen.ceiling_bias;
  fortune_bias = aptitude.fortune_bias +ℤ origin.fortune_bias +ℤ omen.fortune_bias;
  craft_intuition = aptitude.craft_intuition +ℤ origin.craft_intuition +ℤ omen.craft_intuition;
  combat_instinct = aptitude.combat_instinct +ℤ origin.combat_instinct +ℤ omen.combat_instinct;
  research_spark = aptitude.research_spark +ℤ origin.research_spark +ℤ omen.research_spark;
  trauma_susceptibility =
      aptitude.trauma_susceptibility +ℤ origin.trauma_susceptibility +ℤ omen.trauma_susceptibility;
}

-- The sum of the biases of aptitude, origin and omen, for each hidden stat.
unfoldable pub accumulated_potential : WheelResult → PotentialBias
accumulated_potential wheels =
    sum_potential (potential_bias aptitude_potential_bias wheels.aptitude)
      (potential_bias origin_potential_bias wheels.origin) (omen_bias wheels.omen)

module _ {κ} (W : Type κ) ⦃doubles : Double W⦄ where
  -- `0.15 + (bias / 100) * 0.35`
  unfoldable pub stat_centre : ℤ → W
  stat_centre bias = doubles.add (doubles.decimal 15 2) (
      doubles.mul (doubles.div (doubles.whole bias) (doubles.whole (pos 100)))
        (doubles.decimal 35 2))

  unfoldable pub biased_stat_value : ℕ → ℤ → ℤ → ℤ → ℤ
  unfolding stat_centre value_around
  biased_stat_value base_seed bias low high = value_around (stat_centre bias) base_seed low high

  -- A visible stat of a family.
  abbrev pub visible_stat : String → String → ℤ → String → ℤ
  visible_stat character_id family bias stat =
      biased_stat_value (stat_key character_id family stat) bias stat_min stat_max

  abbrev pub physical_of : String → ℤ → PhysicalStats
  physical_of c bias = record {
    str = visible_stat c "physical" bias "STR";
    agi = visible_stat c "physical" bias "AGI";
    end = visible_stat c "physical" bias "END";
    rec = visible_stat c "physical" bias "REC";
  }

  abbrev pub mental_of : String → ℤ → MentalStats
  mental_of c bias = record {
    int = visible_stat c "mental" bias "INT";
    foc = visible_stat c "mental" bias "FOC";
    cre = visible_stat c "mental" bias "CRE";
    mem = visible_stat c "mental" bias "MEM";
  }

  abbrev pub social_of : String → ℤ → SocialStats
  social_of c bias = record {
    cha = visible_stat c "social" bias "CHA";
    aut = visible_stat c "social" bias "AUT";
    emp = visible_stat c "social" bias "EMP";
    dec = visible_stat c "social" bias "DEC";
  }

  abbrev pub perceptual_of : String → ℤ → PerceptualStats
  perceptual_of c bias = record {
    awr = visible_stat c "perceptual" bias "AWR";
    pre = visible_stat c "perceptual" bias "PRE";
    ins = visible_stat c "perceptual" bias "INS";
  }

  abbrev pub spiritual_of : String → ℤ → SpiritualStats
  spiritual_of c bias = record {
    wil = visible_stat c "spiritual" bias "WIL";
    res = visible_stat c "spiritual" bias "RES";
    aet = visible_stat c "spiritual" bias "AET";
  }

  abbrev pub economic_of : String → ℤ → EconomicStats
  economic_of c bias = record {
    apr = visible_stat c "economic" bias "APR";
    neg = visible_stat c "economic" bias "NEG";
    log = visible_stat c "economic" bias "LOG";
  }

  -- The families, from the biases that have been summed.
  unfoldable pub visible_from : String → FamilyBias → VisibleStats
  unfolding biased_stat_value stat_key
  visible_from character_id accumulated = record {
    physical = physical_of character_id accumulated.physical;
    mental = mental_of character_id accumulated.mental;
    social = social_of character_id accumulated.social;
    perceptual = perceptual_of character_id accumulated.perceptual;
    spiritual = spiritual_of character_id accumulated.spiritual;
    economic = economic_of character_id accumulated.economic;
  }

  unfoldable pub seed_visible_stats : String → WheelResult → VisibleStats
  unfolding visible_from accumulated_family
  seed_visible_stats character_id wheels = visible_from character_id (accumulated_family wheels)

  abbrev pub potential_stat : String → ℤ → String → ℤ
  potential_stat character_id bias key =
      biased_stat_value (stat_key character_id "potential" key) bias potential_min potential_max

  unfoldable pub potential_from : String → PotentialBias → HiddenPotentialStats
  unfolding biased_stat_value stat_key
  potential_from character_id accumulated = record {
    growth_elasticity =
        potential_stat character_id accumulated.growth_elasticity "growth_elasticity";
    ceiling_bias = potential_stat character_id accumulated.ceiling_bias "ceiling_bias";
    fortune_bias = potential_stat character_id accumulated.fortune_bias "fortune_bias";
    craft_intuition = potential_stat character_id accumulated.craft_intuition "craft_intuition";
    combat_instinct = potential_stat character_id accumulated.combat_instinct "combat_instinct";
    research_spark = potential_stat character_id accumulated.research_spark "research_spark";
    trauma_susceptibility =
        potential_stat character_id accumulated.trauma_susceptibility "trauma_susceptibility";
  }

  unfoldable pub seed_potential_stats : String → WheelResult → HiddenPotentialStats
  unfolding potential_from accumulated_potential
  seed_potential_stats character_id wheels =
      potential_from character_id (accumulated_potential wheels)

  -- The record that `initStats` stores.
  unfoldable pub born_record : ℕ → String → WheelResult → CharacterStatRecord
  unfolding seed_visible_stats seed_potential_stats
  born_record now character_id wheels = record {
    character_id = character_id;
    visible = seed_visible_stats character_id wheels;
    potential = seed_potential_stats character_id wheels;
    initialised_at = now;
  }

  unfoldable pub init_stats :
      ℕ → String → WheelResult → StatService → Result StatError CharacterStatRecord × StatService
  unfolding born_record
  init_stats now character_id wheels s = elim (lookup character_id s.records) [
    | some r ↦ (err (already_initialised character_id), s)
    | none ↦
        let r = born_record now character_id wheels in
        (
          ok r,
          record s {
            records = insert character_id r s.records;
            bus =
                publish now now
                  (stats_initialised (record {
                    character_id = character_id;
                    stat_family_count = 6;
                    potential_key_count = 7;
                  }))
                  s.bus;
          },
        )
  ]

unfoldable pub get_visible_stats : String → StatService → Option CharacterVisibleStatsDto
get_visible_stats character_id s = elim (lookup character_id s.records) [
  | none ↦ none
  | some r ↦ some (record { character_id = r.character_id; stats = r.visible })
]

unfoldable pub get_potential_stats : String → StatService → Option CharacterPotentialDto
get_potential_stats character_id s = elim (lookup character_id s.records) [
  | none ↦ none
  | some r ↦ some (record { character_id = r.character_id; potential = r.potential })
]

unfoldable pub get_full_record : String → StatService → Option CharacterStatRecord
get_full_record character_id s = lookup character_id s.records
