-- ===== src/Traits/Types.antt =====
-- server/src/modules/characters/traits/trait.types.ts: the passive traits, the buckets of their
-- weights, the biases that the wheels' outcomes give and the hints that a player reads.
use mmorpg_design_documents.Base.{
  ℕ, ◌≡◌, Bool, true, false, List, [], ◌∷◌, String, if◌then◌else◌, arith,
}
use mmorpg_design_documents.Base.Int.{ℤ, pos, negsuc, leb_ℤ}
use mmorpg_design_documents.Base.Key.{Comparable}
use mmorpg_design_documents.Base.Dict.{Dict}
use mmorpg_design_documents.Events.{DomainEventBus}

pub data PassiveTraitName : Type 0 where
  fortune_drift : PassiveTraitName
  catastrophe_avoidance : PassiveTraitName
  research_spark : PassiveTraitName
  combat_instinct : PassiveTraitName
  craft_intuition : PassiveTraitName
  trauma_susceptibility : PassiveTraitName

abbrev pub passive_trait_names : List PassiveTraitName
passive_trait_names =
    fortune_drift ∷ catastrophe_avoidance ∷ research_spark ∷ combat_instinct ∷ craft_intuition
    ∷ trauma_susceptibility ∷ []

-- The text of a name.
abbrev pub trait_text : PassiveTraitName → String
trait_text fortune_drift = "fortune_drift"
trait_text catastrophe_avoidance = "catastrophe_avoidance"
trait_text research_spark = "research_spark"
trait_text combat_instinct = "combat_instinct"
trait_text craft_intuition = "craft_intuition"
trait_text trauma_susceptibility = "trauma_susceptibility"

abbrev pub trait_beq : PassiveTraitName → PassiveTraitName → Bool
trait_beq fortune_drift fortune_drift = true
trait_beq catastrophe_avoidance catastrophe_avoidance = true
trait_beq research_spark research_spark = true
trait_beq combat_instinct combat_instinct = true
trait_beq craft_intuition craft_intuition = true
trait_beq trauma_susceptibility trauma_susceptibility = true
trait_beq _ _ = false

pub trait_beq_sound : (a b : PassiveTraitName) → trait_beq a b ≡ true → a ≡ b
trait_beq_sound a b h = ground arith

pub trait_beq_self : (a : PassiveTraitName) → trait_beq a a ≡ true
trait_beq_self a = ground arith

instance abbrev pub trait_eq : Comparable PassiveTraitName
trait_eq = record { same = trait_beq; same_sound = trait_beq_sound; same_self = trait_beq_self }

abbrev pub trait_weight_min : ℤ
trait_weight_min = negsuc 99

abbrev pub trait_weight_max : ℤ
trait_weight_max = pos 100

pub data WeightBucket : Type 0 where
  strong_negative : WeightBucket
  negative : WeightBucket
  neutral : WeightBucket
  positive : WeightBucket
  strong_positive : WeightBucket

abbrev pub classify_weight : ℤ → WeightBucket
classify_weight weight =
    if leb_ℤ weight (negsuc 59)
    then strong_negative
    else if leb_ℤ weight (negsuc 19)
    then negative
    else if leb_ℤ weight (pos 20)
    then neutral
    else if leb_ℤ weight (pos 60)
    then positive
    else strong_positive

-- The text of a bucket, in the event.
abbrev pub bucket_text : WeightBucket → String
bucket_text strong_negative = "strong_negative"
bucket_text negative = "negative"
bucket_text neutral = "neutral"
bucket_text positive = "positive"
bucket_text strong_positive = "strong_positive"

pub record PassiveTraitEntry : Type 0 where
  pub trait_name : PassiveTraitName
  pub weight : ℤ

pub record CharacterPassiveTraits : Type 0 where
  pub character_id : String
  pub traits : List PassiveTraitEntry
  pub rolled_at : ℕ

pub record TraitHintDto : Type 0 where
  pub character_id : String
  pub hints : List String

pub record TraitService : Type 0 where
  pub store : Dict String CharacterPassiveTraits
  pub bus : DomainEventBus

pub data TraitError : Type 0 where
  already_rolled : String → TraitError

abbrev pub TraitBiasMap : Type 0
TraitBiasMap = Dict PassiveTraitName ℤ

-- By the outcome of the trait wheel.
abbrev pub wheel_trait_bias : Dict String TraitBiasMap
wheel_trait_bias =
    ("stoic", (trauma_susceptibility, negsuc 29) ∷ (catastrophe_avoidance, pos 20) ∷ [])
    ∷ ("cunning", (craft_intuition, pos 25) ∷ (combat_instinct, pos 15) ∷ [])
    ∷ ("volatile", (trauma_susceptibility, pos 30) ∷ (fortune_drift, negsuc 19) ∷ [])
    ∷ ("scholarly", (research_spark, pos 35) ∷ (craft_intuition, pos 10) ∷ [])
    ∷ ("reckless", (fortune_drift, pos 25) ∷ (catastrophe_avoidance, negsuc 29) ∷ [])
    ∷ ("empathic", (trauma_susceptibility, negsuc 19) ∷ (catastrophe_avoidance, pos 15) ∷ [])
    ∷ ("ruthless", (combat_instinct, pos 30) ∷ (trauma_susceptibility, pos 15) ∷ [])
    ∷ ("mystical", (fortune_drift, pos 30) ∷ (research_spark, pos 15) ∷ [])
    ∷ []

-- By the outcome of the omen wheel.
abbrev pub wheel_omen_bias : Dict String TraitBiasMap
wheel_omen_bias =
    ("blessed", (fortune_drift, pos 40) ∷ (catastrophe_avoidance, pos 20) ∷ [])
    ∷ ("cursed", (fortune_drift, negsuc 39) ∷ (trauma_susceptibility, pos 25) ∷ [])
    ∷ ("fated", (fortune_drift, pos 20) ∷ (research_spark, pos 15) ∷ [])
    ∷ ("unmarked", [])
    ∷ []

-- `HINT_TABLE[name][bucket]`
unfoldable pub hint : PassiveTraitName → WeightBucket → String
hint fortune_drift strong_negative = "A persistent cloud of misfortune seems to follow you."
hint fortune_drift negative = "Luck rarely seems to be on your side."
hint fortune_drift neutral = "Fortune treats you as it treats most."
hint fortune_drift positive = "You feel unnaturally lucky today."
hint fortune_drift strong_positive = "Fate itself seems to bend in your favour."
hint catastrophe_avoidance strong_negative = "Danger finds you with alarming regularity."
hint catastrophe_avoidance negative = "You often stumble into trouble unprepared."
hint catastrophe_avoidance neutral = "Your instincts for danger are unremarkable."
hint catastrophe_avoidance positive = "You have a knack for sidestepping disaster."
hint catastrophe_avoidance strong_positive = "Catastrophe veers around you as if repelled."
hint research_spark strong_negative = "Study and discovery feel frustratingly elusive."
hint research_spark negative = "Breakthroughs require more effort than most."
hint research_spark neutral = "Your research aptitude is ordinary."
hint research_spark positive = "Insights come to you with surprising ease."
hint research_spark strong_positive = "Knowledge seems to illuminate itself in your presence."
hint combat_instinct strong_negative = "Your combat reflexes are notably sluggish."
hint combat_instinct negative = "You hesitate a beat too long in battle."
hint combat_instinct neutral = "Your fighting instincts are average."
hint combat_instinct positive = "Your body reacts to threats before your mind catches up."
hint combat_instinct strong_positive = "In combat, you move with an almost supernatural prescience."
hint craft_intuition strong_negative = "Materials seem to resist your shaping attempts."
hint craft_intuition negative = "Crafting requires painstaking effort for modest results."
hint craft_intuition neutral = "Your hands are steady but unremarkable at the forge."
hint craft_intuition positive = "Raw materials seem to guide your hands into shape."
hint craft_intuition strong_positive =
    "You craft with an effortless mastery that defies explanation."
hint trauma_susceptibility strong_negative = "Hardship barely leaves a mark on your psyche."
hint trauma_susceptibility negative = "You recover from setbacks faster than most."
hint trauma_susceptibility neutral = "Trauma affects you as it would anyone."
hint trauma_susceptibility positive =
    "Dark experiences linger in your thoughts longer than expected."
hint trauma_susceptibility strong_positive =
    "Every wound, physical or otherwise, cuts deeper than it should."
