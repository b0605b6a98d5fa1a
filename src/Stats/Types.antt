-- ===== src/Stats/Types.antt =====
-- server/src/modules/characters/stats/stat.types.ts and .../stat.constants.ts: the stats, the bounds
-- and the biases that the wheels' outcomes give. A family that a row leaves out has bias 0.
use mmorpg_design_documents.Base.{ℕ, none, some, [], ◌∷◌, String}
use mmorpg_design_documents.Base.Int.{ℤ, pos, negsuc}
use mmorpg_design_documents.Base.Key.{string_eq}
use mmorpg_design_documents.Base.Dict.{Dict, lookup}
use mmorpg_design_documents.Events.{DomainEventBus}

pub record PhysicalStats : Type 0 where
  pub str : ℤ
  pub agi : ℤ
  pub end : ℤ
  pub rec : ℤ

pub record MentalStats : Type 0 where
  pub int : ℤ
  pub foc : ℤ
  pub cre : ℤ
  pub mem : ℤ

pub record SocialStats : Type 0 where
  pub cha : ℤ
  pub aut : ℤ
  pub emp : ℤ
  pub dec : ℤ

pub record PerceptualStats : Type 0 where
  pub awr : ℤ
  pub pre : ℤ
  pub ins : ℤ

pub record SpiritualStats : Type 0 where
  pub wil : ℤ
  pub res : ℤ
  pub aet : ℤ

pub record EconomicStats : Type 0 where
  pub apr : ℤ
  pub neg : ℤ
  pub log : ℤ

-- The families that are visible to the player.
pub record VisibleStats : Type 0 where
  pub physical : PhysicalStats
  pub mental : MentalStats
  pub social : SocialStats
  pub perceptual : PerceptualStats
  pub spiritual : SpiritualStats
  pub economic : EconomicStats

pub record HiddenPotentialStats : Type 0 where
  pub growth_elasticity : ℤ
  pub ceiling_bias : ℤ
  pub fortune_bias : ℤ
  pub craft_intuition : ℤ
  pub combat_instinct : ℤ
  pub research_spark : ℤ
  pub trauma_susceptibility : ℤ

pub record CharacterStatRecord : Type 0 where
  pub character_id : String
  pub visible : VisibleStats
  pub potential : HiddenPotentialStats
  pub initialised_at : ℕ

pub record CharacterVisibleStatsDto : Type 0 where
  pub character_id : String
  pub stats : VisibleStats

pub record CharacterPotentialDto : Type 0 where
  pub character_id : String
  pub potential : HiddenPotentialStats

pub record StatService : Type 0 where
  pub records : Dict String CharacterStatRecord
  pub bus : DomainEventBus

pub data StatError : Type 0 where
  already_initialised : String → StatError

abbrev pub stat_min : ℤ
stat_min = pos 0

abbrev pub stat_max : ℤ
stat_max = pos 1000000

abbrev pub potential_min : ℤ
potential_min = pos 0

abbrev pub potential_max : ℤ
potential_max = pos 100

pub record FamilyBias : Type 0 where
  pub physical : ℤ
  pub mental : ℤ
  pub social : ℤ
  pub perceptual : ℤ
  pub spiritual : ℤ
  pub economic : ℤ

pub record PotentialBias : Type 0 where
  pub growth_elasticity : ℤ
  pub ceiling_bias : ℤ
  pub fortune_bias : ℤ
  pub craft_intuition : ℤ
  pub combat_instinct : ℤ
  pub research_spark : ℤ
  pub trauma_susceptibility : ℤ

abbrev pub no_family_bias : FamilyBias
no_family_bias = record {
  physical = pos 0;
  mental = pos 0;
  social = pos 0;
  perceptual = pos 0;
  spiritual = pos 0;
  economic = pos 0;
}

abbrev pub no_potential_bias : PotentialBias
no_potential_bias = record {
  growth_elasticity = pos 0;
  ceiling_bias = pos 0;
  fortune_bias = pos 0;
  craft_intuition = pos 0;
  combat_instinct = pos 0;
  research_spark = pos 0;
  trauma_susceptibility = pos 0;
}

-- By race.
abbrev pub race_family_bias : Dict String FamilyBias
race_family_bias =
    ("human", record no_family_bias { social = pos 5; economic = pos 5 })
    ∷ ("elf", record no_family_bias { mental = pos 8; perceptual = pos 5 })
    ∷ ("dwarf", record no_family_bias { physical = pos 8; economic = pos 5 })
    ∷ ("orc", record no_family_bias { physical = pos 10; spiritual = pos 3 })
    ∷ ("fae", record no_family_bias { spiritual = pos 8; perceptual = pos 5 })
    ∷ ("beastkin", record no_family_bias { physical = pos 5; perceptual = pos 8 })
    ∷ ("undine", record no_family_bias { spiritual = pos 5; mental = pos 5 })
    ∷ ("golem", record no_family_bias { physical = pos 10; mental = negsuc 2 })
    ∷ []

-- By aptitude.
abbrev pub aptitude_potential_bias : Dict String PotentialBias
aptitude_potential_bias =
    ("warrior", record no_potential_bias { combat_instinct = pos 15; growth_elasticity = pos 5 })
    ∷ ("scholar", record no_potential_bias { research_spark = pos 15; ceiling_bias = pos 5 })
    ∷ ("artisan", record no_potential_bias { craft_intuition = pos 15; growth_elasticity = pos 5 })
    ∷ ("diplomat", record no_potential_bias { fortune_bias = pos 10; growth_elasticity = pos 5 })
    ∷ ("mystic", record no_potential_bias { ceiling_bias = pos 10; research_spark = pos 5 })
    ∷ (
      "survivor",
      record no_potential_bias {
        combat_instinct = pos 5;
        trauma_susceptibility = negsuc 9;
        growth_elasticity = pos 10;
      },
    )
    ∷ ("trickster", record no_potential_bias { fortune_bias = pos 15; craft_intuition = pos 5 })
    ∷ (
      "naturalist",
      record no_potential_bias { research_spark = pos 10; trauma_susceptibility = negsuc 4 },
    )
    ∷ []

-- By trait.
abbrev pub trait_family_bias : Dict String FamilyBias
trait_family_bias =
    ("brave", record no_family_bias { physical = pos 3; spiritual = pos 3 })
    ∷ ("cunning", record no_family_bias { mental = pos 4; social = pos 2 })
    ∷ ("stoic", record no_family_bias { spiritual = pos 5 })
    ∷ ("charismatic", record no_family_bias { social = pos 6 })
    ∷ ("perceptive", record no_family_bias { perceptual = pos 6 })
    ∷ ("industrious", record no_family_bias { economic = pos 5; physical = pos 2 })
    ∷ ("arcane", record no_family_bias { spiritual = pos 3; mental = pos 3 })
    ∷ ("wild", record no_family_bias { perceptual = pos 3; physical = pos 3 })
    ∷ []

-- By origin.
abbrev pub origin_family_bias : Dict String FamilyBias
origin_family_bias =
    ("noble", record no_family_bias { social = pos 5; economic = pos 3 })
    ∷ ("peasant", record no_family_bias { physical = pos 3; economic = pos 2 })
    ∷ ("nomad", record no_family_bias { perceptual = pos 4; physical = pos 2 })
    ∷ ("scholar", record no_family_bias { mental = pos 5 })
    ∷ ("outcast", record no_family_bias { spiritual = pos 4; perceptual = pos 2 })
    ∷ ("merchant", record no_family_bias { economic = pos 6 })
    ∷ ("temple", record no_family_bias { spiritual = pos 5; social = pos 2 })
    ∷ ("wilderness", record no_family_bias { perceptual = pos 5; physical = pos 2 })
    ∷ []

-- By origin.
abbrev pub origin_potential_bias : Dict String PotentialBias
origin_potential_bias =
    ("noble", record no_potential_bias { ceiling_bias = pos 5 })
    ∷ ("peasant", record no_potential_bias { growth_elasticity = pos 5 })
    ∷ ("nomad", record no_potential_bias { fortune_bias = pos 5 })
    ∷ ("scholar", record no_potential_bias { research_spark = pos 5 })
    ∷ ("outcast", record no_potential_bias { trauma_susceptibility = pos 10 })
    ∷ ("merchant", record no_potential_bias { craft_intuition = pos 5 })
    ∷ ("temple", record no_potential_bias { ceiling_bias = pos 5 })
    ∷ ("wilderness", record no_potential_bias { combat_instinct = pos 5 })
    ∷ []

-- By omen.
abbrev pub omen_potential_bias : Dict String PotentialBias
omen_potential_bias =
    ("star", record no_potential_bias { fortune_bias = pos 8 })
    ∷ ("void", record no_potential_bias { trauma_susceptibility = pos 8 })
    ∷ ("flame", record no_potential_bias { combat_instinct = pos 8 })
    ∷ ("tide", record no_potential_bias { growth_elasticity = pos 8 })
    ∷ ("shadow", record no_potential_bias { craft_intuition = pos 8 })
    ∷ ("iron", record no_potential_bias { ceiling_bias = pos 8 })
    ∷ ("dream", record no_potential_bias { research_spark = pos 8 })
    ∷ []

-- `TABLE[outcome] ?? {}`
abbrev pub family_bias : Dict String FamilyBias → String → FamilyBias
family_bias table outcome = elim (lookup outcome table) [ none ↦ no_family_bias | some b ↦ b ]

abbrev pub potential_bias : Dict String PotentialBias → String → PotentialBias
potential_bias table outcome = elim (lookup outcome table) [ none ↦ no_potential_bias | some b ↦ b ]
