-- ===== src/Stats/Ranges.antt =====
-- server/src/modules/characters/stats/stat.service.ts: the stats that are seeded lie within the bounds
-- of stat.constants.ts, and are seeded once.
use mmorpg_design_documents.Base.{
  ℕ, ◌≡◌, refl, ◌∙◌, none, some, String, ok, err, if◌then◌else◌, arith,
}
use mmorpg_design_documents.Base.Int.{ℤ, pos, ◌-ℤ◌, ◌≤ℤ◌}
use mmorpg_design_documents.Base.Double.{Double, IsRounded, ◌≲◌}
use mmorpg_design_documents.Base.Key.{string_eq, ◌==◌, eq_self}
use mmorpg_design_documents.Base.Dict.{lookup, lookup-insert}
use mmorpg_design_documents.Events.{publish, stats_initialised, WheelResult}
use mmorpg_design_documents.Random.Biased.{value_around-range, value_around_mono}
use mmorpg_design_documents.Stats.{
  VisibleStats, HiddenPotentialStats, CharacterStatRecord, StatService, already_initialised,
  stat_min, stat_max, potential_min, potential_max, stat_key, accumulated_family,
  accumulated_potential, stat_centre, biased_stat_value, seed_visible_stats, seed_potential_stats,
  born_record, init_stats,
}

abbrev pub IsStat : ℤ → Type 0
IsStat v = (stat_min ≤ℤ v) × (v ≤ℤ stat_max)

abbrev pub IsPotential : ℤ → Type 0
IsPotential v = (potential_min ≤ℤ v) × (v ≤ℤ potential_max)

pub record AreStats (v : VisibleStats) : Type 0 where
  pub str_in : IsStat v.physical.str
  pub agi_in : IsStat v.physical.agi
  pub end_in : IsStat v.physical.end
  pub rec_in : IsStat v.physical.rec
  pub int_in : IsStat v.mental.int
  pub foc_in : IsStat v.mental.foc
  pub cre_in : IsStat v.mental.cre
  pub mem_in : IsStat v.mental.mem
  pub cha_in : IsStat v.social.cha
  pub aut_in : IsStat v.social.aut
  pub emp_in : IsStat v.social.emp
  pub dec_in : IsStat v.social.dec
  pub awr_in : IsStat v.perceptual.awr
  pub pre_in : IsStat v.perceptual.pre
  pub ins_in : IsStat v.perceptual.ins
  pub wil_in : IsStat v.spiritual.wil
  pub res_in : IsStat v.spiritual.res
  pub aet_in : IsStat v.spiritual.aet
  pub apr_in : IsStat v.economic.apr
  pub neg_in : IsStat v.economic.neg
  pub log_in : IsStat v.economic.log

pub record ArePotentials (v : HiddenPotentialStats) : Type 0 where
  pub growth_elasticity_in : IsPotential v.growth_elasticity
  pub ceiling_bias_in : IsPotential v.ceiling_bias
  pub fortune_bias_in : IsPotential v.fortune_bias
  pub craft_intuition_in : IsPotential v.craft_intuition
  pub combat_instinct_in : IsPotential v.combat_instinct
  pub research_spark_in : IsPotential v.research_spark
  pub trauma_susceptibility_in : IsPotential v.trauma_susceptibility

-- Every number of a record is within its bounds.
abbrev pub IsInRange : CharacterStatRecord → Type 0
IsInRange r = AreStats r.visible × ArePotentials r.potential

module _ {κ} (W : Type κ) ⦃doubles : Double W⦄ (laws : IsRounded W) where
  visible-IsStat : (seed : ℕ) (bias : ℤ) → IsStat (biased_stat_value W seed bias stat_min stat_max)
  unfolding biased_stat_value ◌-ℤ◌
  visible-IsStat seed bias =
      value_around-range {W = W} laws (stat_centre W bias) seed stat_min stat_max (omega arith)
        (omega arith) (omega arith) (omega arith)

  hidden-IsPotential :
      (seed : ℕ) (bias : ℤ)
      → IsPotential (biased_stat_value W seed bias potential_min potential_max)
  unfolding biased_stat_value ◌-ℤ◌
  hidden-IsPotential seed bias =
      value_around-range {W = W} laws (stat_centre W bias) seed potential_min potential_max
        (omega arith) (omega arith) (omega arith) (omega arith)

  visible-AreStats : (c : String) (wheels : WheelResult) → AreStats (seed_visible_stats W c wheels)
  unfolding seed_visible_stats
  visible-AreStats c wheels = record {
    str_in = visible-IsStat (stat_key c "physical" "STR") (accumulated_family wheels).physical;
    agi_in = visible-IsStat (stat_key c "physical" "AGI") (accumulated_family wheels).physical;
    end_in = visible-IsStat (stat_key c "physical" "END") (accumulated_family wheels).physical;
    rec_in = visible-IsStat (stat_key c "physical" "REC") (accumulated_family wheels).physical;
    int_in = visible-IsStat (stat_key c "mental" "INT") (accumulated_family wheels).mental;
    foc_in = visible-IsStat (stat_key c "mental" "FOC") (accumulated_family wheels).mental;
    cre_in = visible-IsStat (stat_key c "mental" "CRE") (accumulated_family wheels).mental;
    mem_in = visible-IsStat (stat_key c "mental" "MEM") (accumulated_family wheels).mental;
    cha_in = visible-IsStat (stat_key c "social" "CHA") (accumulated_family wheels).social;
    aut_in = visible-IsStat (stat_key c "social" "AUT") (accumulated_family wheels).social;
    emp_in = visible-IsStat (stat_key c "social" "EMP") (accumulated_family wheels).social;
    dec_in = visible-IsStat (stat_key c "social" "DEC") (accumulated_family wheels).social;
    awr_in = visible-IsStat (stat_key c "perceptual" "AWR") (accumulated_family wheels).perceptual;
    pre_in = visible-IsStat (stat_key c "perceptual" "PRE") (accumulated_family wheels).perceptual;
    ins_in = visible-IsStat (stat_key c "perceptual" "INS") (accumulated_family wheels).perceptual;
    wil_in = visible-IsStat (stat_key c "spiritual" "WIL") (accumulated_family wheels).spiritual;
    res_in = visible-IsStat (stat_key c "spiritual" "RES") (accumulated_family wheels).spiritual;
    aet_in = visible-IsStat (stat_key c "spiritual" "AET") (accumulated_family wheels).spiritual;
    apr_in = visible-IsStat (stat_key c "economic" "APR") (accumulated_family wheels).economic;
    neg_in = visible-IsStat (stat_key c "economic" "NEG") (accumulated_family wheels).economic;
    log_in = visible-IsStat (stat_key c "economic" "LOG") (accumulated_family wheels).economic;
  }

  potential-ArePotentials :
      (c : String) (wheels : WheelResult) → ArePotentials (seed_potential_stats W c wheels)
  unfolding seed_potential_stats
  potential-ArePotentials c wheels = record {
    growth_elasticity_in =
        hidden-IsPotential (stat_key c "potential" "growth_elasticity")
          (accumulated_potential wheels).growth_elasticity;
    ceiling_bias_in =
        hidden-IsPotential (stat_key c "potential" "ceiling_bias")
          (accumulated_potential wheels).ceiling_bias;
    fortune_bias_in =
        hidden-IsPotential (stat_key c "potential" "fortune_bias")
          (accumulated_potential wheels).fortune_bias;
    craft_intuition_in =
        hidden-IsPotential (stat_key c "potential" "craft_intuition")
          (accumulated_potential wheels).craft_intuition;
    combat_instinct_in =
        hidden-IsPotential (stat_key c "potential" "combat_instinct")
          (accumulated_potential wheels).combat_instinct;
    research_spark_in =
        hidden-IsPotential (stat_key c "potential" "research_spark")
          (accumulated_potential wheels).research_spark;
    trauma_susceptibility_in =
        hidden-IsPotential (stat_key c "potential" "trauma_susceptibility")
          (accumulated_potential wheels).trauma_susceptibility;
  }

  -- With the same seed and bounds, a higher bias gives no lower stat.
  pub biased_stat_value_mono :
      (seed : ℕ) (bias bias' : ℤ)
      → bias ≤ℤ bias'
      → (biased_stat_value W seed bias stat_min stat_max
          ≤ℤ biased_stat_value W seed bias' stat_min stat_max)
        × (biased_stat_value W seed bias potential_min potential_max
            ≤ℤ biased_stat_value W seed bias' potential_min potential_max)
  unfolding biased_stat_value stat_centre
  biased_stat_value_mono seed bias bias' h = (
    value_around_mono {W = W} laws (stat_centre W bias) (stat_centre W bias') seed stat_min stat_max
        (omega arith) (omega arith) (omega arith) higher,
    value_around_mono {W = W} laws (stat_centre W bias) (stat_centre W bias') seed potential_min
        potential_max (omega arith) (omega arith) (omega arith) higher,
  )
    where
      higher : stat_centre W bias ≲ stat_centre W bias'
      higher = laws.add_mono _ _ _ (
          laws.scale_mono (doubles.div (doubles.whole bias) (doubles.whole (pos 100)))
            (doubles.div (doubles.whole bias') (doubles.whole (pos 100))) _
            (laws.decimal_nonneg 35 2)
            (laws.div_mono _ _ _ (laws.whole_mono (pos 1) (pos 100) (omega arith))
              (laws.whole_mono bias bias' h)))

  born-IsInRange :
      (now : ℕ) (c : String) (wheels : WheelResult) → IsInRange (born_record W now c wheels)
  unfolding born_record
  born-IsInRange now c wheels = (visible-AreStats c wheels, potential-ArePotentials c wheels)

  -- What is so after the stats have been initialised.
  pub record Initialised (now : ℕ) (c : String) (wheels : WheelResult) (s s' : StatService)
      : Type 0 where
    pub in_range : IsInRange (born_record W now c wheels)
    pub stored :
        (k : String)
        → lookup k s'.records
          ≡ (if k == c then some (born_record W now c wheels) else lookup k s.records)
    pub told :
        s'.bus
        ≡ publish now now
            (stats_initialised
              (record { character_id = c; stat_family_count = 6; potential_key_count = 7 }))
            s.bus
    pub again :
        (later : ℕ) (other : WheelResult)
        → init_stats W later c other s' ≡ (err (already_initialised c), s')

  taken :
      (now : ℕ) (c : String) (wheels : WheelResult) (r : CharacterStatRecord) (s : StatService)
      → lookup c s.records ≡ some r
      → init_stats W now c wheels s ≡ (err (already_initialised c), s)
  unfolding init_stats
  taken now c wheels r s e = rw (init_stats, e) refl

  -- For a character that has no stats yet the record is stored under the character and under no other,
  -- each of its visible stats lies between 0 and 1,000,000 and each hidden one between 0 and 100, one
  -- event is emitted, and a further call for the character is refused and changes nothing,
  -- whatever the wheels.
  pub init_stats-once :
      (now : ℕ) (c : String) (wheels : WheelResult) (s : StatService)
      → lookup c s.records ≡ none
      → ((init_stats W now c wheels s).0 ≡ ok (born_record W now c wheels))
        × Initialised now c wheels s (init_stats W now c wheels s).1
  unfolding init_stats
  init_stats-once now c wheels s e =
      rw (init_stats, e)
        (
          refl,
          record {
            in_range = born-IsInRange now c wheels;
            stored = λ k. lookup-insert k c (born_record W now c wheels) s.records;
            told = refl;
            again = λ later other.
                taken later c other (born_record W now c wheels) _ (
                  lookup-insert c c (born_record W now c wheels) s.records ∙ (rw (eq_self c) refl));
          },
        )
