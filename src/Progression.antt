-- ===== src/Progression.antt =====
-- server/src/modules/progression/: experience, levels and their decay. Levels, experience and days
-- are whole numbers; what the code computes in doubles goes by the interface of Base/Double.
pub mod Curves
pub mod Climb
pub mod Levels
mod Tests
use text.Mathlib.Text.{starts_with}
use mmorpg_design_documents.Base.{
  ℕ, zero, suc, Bool, true, false, not, ◌||◌, Option, none, some, List, [], ◌∷◌, ◌++◌, String,
  if◌then◌else◌,
}
use mmorpg_design_documents.Base.Int.{ℤ, pos, ◌+ℤ◌, ◌-ℤ◌, leb_ℤ, ltb_ℤ, max_ℤ, pos_part}
use mmorpg_design_documents.Base.Double.{Double}
use mmorpg_design_documents.Base.Key.{string_eq}
use mmorpg_design_documents.Base.Dict.{Dict, lookup, insert}
use mmorpg_design_documents.Events.{DomainEventBus, publish, skill_level_up}
use mmorpg_design_documents.Progression.Curves.{
  StatFamily, superhuman_max_level, soft_cap_efficiency, decay_inactivity_threshold_days,
  decay_rate_per_day, domain_multiplier, xp_required, is_soft_capped,
}

pub record SkillXpRecord : Type 0 where
  pub level : ℤ
  pub current_xp : ℤ
  pub last_activity_day : ℤ

pub record XpAwardResult : Type 0 where
  pub previous_level : ℤ
  pub new_level : ℤ
  pub xp_applied : ℤ
  pub soft_capped : Bool
  pub levelled_up : Bool

pub record DecayResult : Type 0 where
  pub skill : String
  pub previous_level : ℤ
  pub new_level : ℤ
  pub days_inactive : ℤ

-- The fields of the hidden potential that the service reads.
pub record HiddenPotentialStats (W : Type 0) : Type 0 where
  pub growth_elasticity : W
  pub ceiling_bias : W

abbrev pub Skills : Type 0
Skills = Dict String SkillXpRecord

pub record XpService : Type 0 where
  pub store : Dict String Skills
  pub bus : DomainEventBus

abbrev pub new_record : SkillXpRecord
new_record = record { level = pos 1; current_xp = pos 0; last_activity_day = pos 0 }

abbrev pub skills_of : Option Skills → Skills
skills_of none = []
skills_of (some skills) = skills

abbrev pub record_of : Option SkillXpRecord → SkillXpRecord
record_of none = new_record
record_of (some r) = r

abbrev pub put_record : String → String → SkillXpRecord → Dict String Skills → Dict String Skills
put_record c skill r store = insert c (insert skill r (skills_of (lookup c store))) store

-- `getOrCreate`: the record, and the store that holds it.
pub get_or_create : String → String → Dict String Skills → SkillXpRecord × Dict String Skills
get_or_create c skill store =
    let r = record_of (lookup skill (skills_of (lookup c store))) in (r, put_record c skill r store)

pub get_skill_record : String → String → XpService → Option SkillXpRecord
get_skill_record c skill s = lookup skill (skills_of (lookup c s.store))

-- The levels that are left bound the loop.
abbrev pub fuel_for : SkillXpRecord → ℕ
fuel_for r = pos_part (superhuman_max_level -ℤ r.level)

-- `daysInactive - DECAY_INACTIVITY_THRESHOLD_DAYS`
abbrev pub overdue : ℤ → SkillXpRecord → ℤ
overdue day r = day -ℤ r.last_activity_day -ℤ decay_inactivity_threshold_days

abbrev pub risen : ℤ → SkillXpRecord → SkillXpRecord
risen needed r = record r { level = r.level +ℤ pos 1; current_xp = r.current_xp -ℤ needed }

abbrev pub announced : ℕ → String → String → ℤ → DomainEventBus → DomainEventBus
announced now c skill level bus =
    publish now now (skill_level_up (record { character_id = c; skill = skill; new_level = level }))
      bus

module _ (W : Type 0) ⦃d : Double W⦄ where
  -- What the loop pays for the next level, unless one of its guards ends it.
  pub affordable : StatFamily → SkillXpRecord → Option ℤ
  affordable family r = elim (xp_required W r.level family) [
    | none ↦ none
    | some needed ↦
        if leb_ℤ superhuman_max_level r.level || ltb_ℤ r.current_xp needed
        then none
        else some needed
  ]

  -- The loop over the levels, with `levelledUp`; the fuel bounds its turns.
  pub climb :
      ℕ
      → ℕ
      → String
      → String
      → StatFamily
      → SkillXpRecord
      → Bool
      → DomainEventBus
      → SkillXpRecord × Bool × DomainEventBus
  climb zero now c skill family r up bus = (r, up, bus)
  climb (suc fuel) now c skill family r up bus = elim (affordable family r) [
    | none ↦ (r, up, bus)
    | some needed ↦
        climb fuel now c skill family (risen needed r) true
          (announced now c skill (r.level +ℤ pos 1) bus)
  ]

  pub compute_effective_gain : W → ℤ → StatFamily → HiddenPotentialStats W → ℤ
  compute_effective_gain raw level family potential =
      let xp = d.div (d.mul raw potential.growth_elasticity) (domain_multiplier family) in
      max_ℤ (pos 0) (
        d.round (
          if is_soft_capped level potential.ceiling_bias then d.mul xp soft_cap_efficiency else xp))

  pub award_xp :
      ℕ
      → String
      → String
      → StatFamily
      → W
      → HiddenPotentialStats W
      → ℤ
      → XpService
      → XpAwardResult × XpService
  unfolding get_or_create climb compute_effective_gain
  award_xp now c skill family raw potential day s =
      let (r, store) = get_or_create c skill s.store in
      let gain = compute_effective_gain raw r.level family potential in
      let paid : SkillXpRecord = record r {
        current_xp = r.current_xp +ℤ gain;
        last_activity_day = day;
      } in
      let (r', up, bus) = climb (fuel_for r) now c skill family paid false s.bus in
      (
        record {
          previous_level = r.level;
          new_level = r'.level;
          xp_applied = gain;
          soft_capped = is_soft_capped r'.level potential.ceiling_bias;
          levelled_up = up;
        },
        record { store = put_record c skill r' store; bus = bus },
      )

  -- `Math.floor(record.level * factor)` after so many days past those of grace.
  abbrev pub worn : SkillXpRecord → ℤ → ℤ
  worn r decay_days = d.floor (
      d.mul (d.whole r.level)
        (d.pow (d.sub (d.whole (pos 1)) decay_rate_per_day) (d.whole decay_days)))

  -- The level that decay would leave; only physical skills decay, after the days of grace.
  pub decayed_level : ℤ → String → SkillXpRecord → Option ℤ
  decayed_level day skill r =
      let decay_days = overdue day r in
      if not (starts_with skill "physical") || leb_ℤ decay_days (pos 0)
      then none
      else some (max_ℤ (pos 1) (worn r decay_days))

  -- What becomes of one record.
  pub decay_record : ℤ → String → SkillXpRecord → Option DecayResult × SkillXpRecord
  decay_record day skill r = elim (decayed_level day skill r) [
    | none ↦ (none, r)
    | some level ↦
        if ltb_ℤ level r.level
        then (
          some (record {
            skill = skill;
            previous_level = r.level;
            new_level = level;
            days_inactive = day -ℤ r.last_activity_day;
          }),
          record r { level = level; current_xp = pos 0 },
        )
        else (none, r)
  ]

  pub decay_each : ℤ → Skills → List DecayResult × Skills
  unfolding decay_record
  decay_each day [] = ([], [])
  decay_each day (e ∷ skills) =
      let (outcome, r) = decay_record day e.0 e.1 in
      let later = decay_each day skills in
      (elim outcome [ none ↦ later.0 | some x ↦ x ∷ later.0 ], (e.0, r) ∷ later.1)

  pub apply_decay : String → ℤ → XpService → List DecayResult × XpService
  unfolding decay_each
  apply_decay c day s = elim (lookup c s.store) [
    | none ↦ ([], s)
    | some skills ↦
        let after = decay_each day skills in
        (after.0, record s { store = insert c after.1 s.store })
  ]
