-- ===== src/Wheels.antt =====
-- server/src/modules/characters/wheels/wheel.types.ts and .../wheel.service.ts: the wheels of the
-- birth ritual. The content file that the service loads is an argument; `Content` has the one that
-- tools/content holds. Weights and rolls are doubles, and the weights of a wheel do not sum to zero.
pub mod Content
pub mod Selection
mod Tests
use mmorpg_design_documents.Base.{
  ℕ, ◌≡◌, refl, Bool, true, false, not, Option, none, some, List, [], ◌∷◌, ◌++◌, String, Result, ok,
  err, arith, if◌then◌else◌,
}
use mmorpg_design_documents.Base.Int.{ℤ, pos}
use mmorpg_design_documents.Base.Key.{Comparable}
use mmorpg_design_documents.Base.Double.{Double}
use mmorpg_design_documents.Base.Dict.{Dict, lookup}
use mmorpg_design_documents.Random.{mulberry32}

pub data WheelType : Type 0 where
  race : WheelType
  aptitude : WheelType
  trait : WheelType
  origin : WheelType
  omen : WheelType

abbrev pub wheel_types : List WheelType
wheel_types = race ∷ aptitude ∷ trait ∷ origin ∷ omen ∷ []

abbrev pub required_wheel_types : List WheelType
required_wheel_types = race ∷ aptitude ∷ trait ∷ origin ∷ []

-- The text of a wheel type.
abbrev pub wheel_name : WheelType → String
wheel_name race = "race"
wheel_name aptitude = "aptitude"
wheel_name trait = "trait"
wheel_name origin = "origin"
wheel_name omen = "omen"

abbrev pub wheel_beq : WheelType → WheelType → Bool
wheel_beq race race = true
wheel_beq aptitude aptitude = true
wheel_beq trait trait = true
wheel_beq origin origin = true
wheel_beq omen omen = true
wheel_beq _ _ = false

pub wheel_beq_sound : (a b : WheelType) → wheel_beq a b ≡ true → a ≡ b
wheel_beq_sound a b h = ground arith

pub wheel_beq_self : (a : WheelType) → wheel_beq a a ≡ true
wheel_beq_self a = ground arith

instance abbrev pub wheel_eq : Comparable WheelType
wheel_eq = record { same = wheel_beq; same_sound = wheel_beq_sound; same_self = wheel_beq_self }

pub record WheelOutcome {κ} (W : Type κ) : Type κ where
  pub id : String
  pub label : String
  pub weight : W

pub record WheelDefinition {κ} (W : Type κ) : Type κ where
  pub label : String
  pub optional : Bool
  pub outcomes : List (WheelOutcome W)

pub record WheelContentFile {κ} (W : Type κ) : Type κ where
  pub wheels : Dict WheelType (WheelDefinition W)
  pub reroll_cooldown_ms : ℕ
  pub reroll_coin_cost : ℤ

-- `no_outcomes` is the exception of `outcomes[-1].id` on an empty wheel.
pub data WheelError : Type 0 where
  unknown_wheel : WheelType → WheelError
  no_outcomes : WheelError

module _ {κ} {W : Type κ} ⦃doubles : Double W⦄ where
  unfoldable pub get_wheel_definition : WheelType → WheelContentFile W → Option (WheelDefinition W)
  get_wheel_definition wheel_type content = lookup wheel_type content.wheels

  -- `outcomes.reduce((sum, o) => sum + o.weight, sum)`
  abbrev pub total_weight : W → List (WheelOutcome W) → W
  total_weight sum [] = sum
  total_weight sum (o ∷ os) = total_weight (doubles.add sum o.weight) os

  -- The last outcome of a list that is not empty.
  abbrev pub last_id : WheelOutcome W → List (WheelOutcome W) → String
  last_id o [] = o.id
  last_id o (p ∷ os) = last_id p os

  -- `cursor + outcome.weight / totalWeight`
  abbrev pub advance : W → W → WheelOutcome W → W
  advance total cursor o = doubles.add cursor (doubles.div o.weight total)

  -- The loop over the outcomes: `roll < cursor` once the outcome's share is added.
  unfoldable pub select_from : W → W → W → List (WheelOutcome W) → Option String
  select_from total roll cursor [] = none
  select_from total roll cursor (o ∷ os) =
      let rest = select_from total roll (advance total cursor o) os in
      if doubles.at_most (advance total cursor o) roll then rest else some o.id

  abbrev or_last : Option String → List (WheelOutcome W) → Result WheelError String
  or_last (some id) os = ok id
  or_last none [] = err no_outcomes
  or_last none (o ∷ os) = ok (last_id o os)

  unfoldable pub weighted_select : List (WheelOutcome W) → W → Result WheelError String
  weighted_select outcomes roll =
      or_last
        (select_from (total_weight (doubles.whole (pos 0)) outcomes) roll (doubles.whole (pos 0))
          outcomes)
        outcomes

  unfoldable pub spin : WheelType → ℕ → WheelContentFile W → Result WheelError String
  spin wheel_type seed content = elim (get_wheel_definition wheel_type content) [
    | none ↦ err (unknown_wheel wheel_type)
    | some definition ↦ weighted_select definition.outcomes (mulberry32 seed)
  ]
