-- ===== src/Lifecycle.antt =====
-- server/src/modules/characters/lifecycle/lifecycle.service.ts: life stages by age, their
-- restrictions, and the daily pass over the registered characters.
pub mod Stages
pub mod Daily
mod Tests
use mmorpg_design_documents.Base.{
  ℕ, Bool, true, false, ◌&&◌, Option, none, some, List, [], ◌∷◌, ◌++◌, String, if◌then◌else◌,
}
use mmorpg_design_documents.Base.Int.{ℤ, pos, ◌-ℤ◌, floor_div, leb_ℤ}
use mmorpg_design_documents.Base.Key.{string_eq, ◌==◌}
use mmorpg_design_documents.Base.Dict.{Dict, lookup, insert}
use mmorpg_design_documents.Base.Lists.{any}
use mmorpg_design_documents.Events.{
  DomainEventBus, publish, LifeStageTransitionPayload, life_stage_transition,
}

pub data LifeStage : Type 0 where
  infant child teen adult elder : LifeStage

abbrev stage_text : LifeStage → String
stage_text infant = "infant"
stage_text child = "child"
stage_text teen = "teen"
stage_text adult = "adult"
stage_text elder = "elder"

-- `===` on stages.
abbrev pub same_stage : LifeStage → LifeStage → Bool
same_stage infant infant = true
same_stage child child = true
same_stage teen teen = true
same_stage adult adult = true
same_stage elder elder = true
same_stage _ _ = false

-- A missing `max_age` is Infinity.
pub record LifeStageRange : Type 0 where
  pub stage : LifeStage
  pub min_age : ℤ
  pub max_age : Option ℤ

abbrev pub stage_ranges : List LifeStageRange
stage_ranges =
    record { stage = infant; min_age = pos 0; max_age = some (pos 2) }
    ∷ record { stage = child; min_age = pos 3; max_age = some (pos 9) }
    ∷ record { stage = teen; min_age = pos 10; max_age = some (pos 14) }
    ∷ record { stage = adult; min_age = pos 15; max_age = some (pos 45) }
    ∷ record { stage = elder; min_age = pos 46; max_age = none }
    ∷ []

abbrev pub dangerous_actions : List String
dangerous_actions =
    "combat" ∷ "trade" ∷ "travel_wilderness" ∷ "dungeon" ∷ "pvp" ∷ "contract_sign" ∷ []

abbrev pub is_protected : LifeStage → Bool
is_protected infant = true
is_protected child = true
is_protected teen = false
is_protected adult = false
is_protected elder = false

abbrev pub game_days_per_year : ℕ
game_days_per_year = 365

pub record CharacterRecord : Type 0 where
  pub character_id : String
  pub born_at_game_day : ℤ
  pub current_stage : LifeStage

pub record LifecycleService : Type 0 where
  pub characters : Dict String CharacterRecord
  pub bus : DomainEventBus

pub register_character : String → ℤ → LifecycleService → CharacterRecord × LifecycleService
register_character character_id born_at_game_day s =
    let r : CharacterRecord = record {
      character_id = character_id;
      born_at_game_day = born_at_game_day;
      current_stage = infant;
    } in
    (r, record s { characters = insert character_id r s.characters })

unfoldable pub get_character : String → LifecycleService → Option CharacterRecord
get_character character_id s = lookup character_id s.characters

abbrev within : ℤ → LifeStageRange → Bool
within age r = leb_ℤ r.min_age age && elim r.max_age [ none ↦ true | some m ↦ leb_ℤ age m ]

-- The first range that holds the age, and `elder` where none does.
pub stage_in : List LifeStageRange → ℤ → LifeStage
stage_in [] age = elder
stage_in (r ∷ rs) age = if within age r then r.stage else stage_in rs age

pub compute_life_stage : ℤ → LifeStage
unfolding stage_in
compute_life_stage age = stage_in stage_ranges age

pub game_days_to_years : ℤ → ℤ
game_days_to_years game_days = floor_div game_days game_days_per_year

-- True if the action is blocked.
pub enforce_stage_restrictions : String → String → LifecycleService → Bool
enforce_stage_restrictions character_id action_id s = elim (lookup character_id s.characters) [
  | none ↦ false
  | some r ↦ is_protected r.current_stage && any (λ a. action_id == a) dangerous_actions
]

-- The stage that a record ought to have on a day.
pub stage_on : ℤ → CharacterRecord → LifeStage
stage_on day r = compute_life_stage (game_days_to_years (day -ℤ r.born_at_game_day))

pub transition_of : ℤ → CharacterRecord → LifeStageTransitionPayload
transition_of day r = record {
  character_id = r.character_id;
  previous_stage = stage_text r.current_stage;
  new_stage = stage_text (stage_on day r);
  age_in_game_years = game_days_to_years (day -ℤ r.born_at_game_day);
  game_day = day;
}

pub record Pass : Type 0 where
  pub transitions : List LifeStageTransitionPayload
  pub characters : Dict String CharacterRecord
  pub bus : DomainEventBus

-- The pass over the characters: the transitions in order, the records and the bus after it.
pub process_each : ℕ → ℤ → Dict String CharacterRecord → DomainEventBus → Pass
unfolding stage_on transition_of
process_each now day [] bus = record { transitions = []; characters = []; bus = bus }
process_each now day (e ∷ d) bus =
    let changed = if same_stage (stage_on day e.1) e.1.current_stage then false else true in
    let bus' =
      if changed
      then publish now now (life_stage_transition (transition_of day e.1)) bus
      else bus in
    let rest = process_each now day d bus' in
    record {
      transitions = if changed then transition_of day e.1 ∷ rest.transitions else rest.transitions;
      characters =
          (e.0, (if changed then record e.1 { current_stage = stage_on day e.1 } else e.1))
          ∷ rest.characters;
      bus = rest.bus;
    }

pub process_character_lifecycles :
    ℕ → ℤ → LifecycleService → List LifeStageTransitionPayload × LifecycleService
unfolding process_each
process_character_lifecycles now day s =
    let after = process_each now day s.characters s.bus in
    (after.transitions, record s { characters = after.characters; bus = after.bus })
