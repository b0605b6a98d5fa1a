-- ===== src/Tick/Tests.antt =====
-- Runs of the tick loop at concrete inputs: a day of the world takes 48 minutes.
use mmorpg_design_documents.Base.{ℕ, ◌≡◌, refl, true, some, [], ◌∷◌, arith, if◌then◌else◌}
use mmorpg_design_documents.Base.Int.{ℤ, pos, ◌+ℤ◌, ◌-ℤ◌, ◌*ℤ◌, floor_div}
use mmorpg_design_documents.Base.Key.{string_eq}
use mmorpg_design_documents.Base.Dict.{lookup}
use mmorpg_design_documents.Events.{new_bus}
use mmorpg_design_documents.Simulation.{SimulationService, get_world_time_ms, get_game_day_number}
use mmorpg_design_documents.Actions.{new_actions}
use mmorpg_design_documents.Market.{new_market}
use mmorpg_design_documents.Lifecycle.{
  infant, CharacterRecord, LifecycleService, is_protected, stage_on,
}
use mmorpg_design_documents.Family.{FamilyRecord, FamilyService, provided}
use mmorpg_design_documents.Tick.{TickService, new_tick, day_changed, tick}
use mmorpg_design_documents.Tick.Soundness.{IsHealthy}
use mmorpg_design_documents.Tick.Days.{tick-tick, tick-households}

abbrev clock : SimulationService
clock = record { startup_realtime_ms = pos 0; world_seed_time_ms = pos 0; acceleration = pos 30 }

abbrev olga : CharacterRecord
olga = record { character_id = "olga"; born_at_game_day = pos 0; current_stage = infant }

abbrev home : FamilyRecord
home = record {
  family_id = "fam_olga";
  character_id = "olga";
  guardian_npc_id = "npc_guardian_olga";
  household_state = record {
    food_supplied = true;
    shelter_provided = true;
    last_checked_game_day = pos 0;
  };
  created_at_game_day = pos 0;
}

abbrev village : LifecycleService
village = record { characters = ("olga", olga) ∷ []; bus = new_bus }

abbrev homes : FamilyService
homes = record { families = ("olga", home) ∷ []; alerts = [] }

-- The loop has seen day 0.
abbrev loop : TickService ℤ
loop = record (new_tick clock (new_actions clock new_bus) new_bus) {
  order_matcher = some (record (new_market new_bus) { balances = ("ben", pos 5) ∷ [] });
  lifecycle_service = some village;
  family_service = some homes;
  last_game_day = pos 0;
}

abbrev least : ℕ → ℕ → ℕ
least i n = 0

loop-IsHealthy : IsHealthy loop
unfolding new_actions
loop-IsHealthy = record {
  market = record { balances = (omega arith, tt); listings = tt; orders = tt; history = tt };
  actions = tt;
  travel = tt;
}

one_day : get_game_day_number clock (pos 3000000) ≡ pos 1
unfolding get_game_day_number get_world_time_ms ◌+ℤ◌ ◌-ℤ◌ ◌*ℤ◌ floor_div
one_day = refl

same_day : get_game_day_number clock (pos 3002000) ≡ get_game_day_number clock (pos 3000000)
unfolding get_game_day_number get_world_time_ms ◌+ℤ◌ ◌-ℤ◌ ◌*ℤ◌ floor_div
same_day = refl

tick-tick_example :
    let once = tick least 9 (pos 3000000) (pos 2) loop in
    let twice = tick least 9 (pos 3002000) (pos 2) once in
    (twice.lifecycle_service ≡ once.lifecycle_service)
    × (twice.family_service ≡ once.family_service)
    × (twice.health_service ≡ once.health_service)
tick-tick_example = tick-tick least 9 9 (pos 3000000) (pos 3002000) (pos 2) (pos 2) loop same_day

new_day : day_changed (get_game_day_number clock (pos 3000000)) loop ≡ true
unfolding get_game_day_number get_world_time_ms ◌+ℤ◌ ◌-ℤ◌ ◌*ℤ◌ floor_div
new_day = refl

village-olga : lookup "olga" village.characters ≡ some olga
unfolding lookup
village-olga = refl

homes-olga : lookup "olga" homes.families ≡ some home
unfolding lookup
homes-olga = refl

tick-households_example :
    (f' : FamilyService) × ((tick least 9 (pos 3000000) (pos 2) loop).family_service ≡ some f')
    × (lookup "olga" f'.families
        ≡ some (
            if is_protected (stage_on (get_game_day_number clock (pos 3000000)) olga)
            then provided (get_game_day_number clock (pos 3000000)) home
            else home))
tick-households_example =
    tick-households least 9 (pos 3000000) (pos 2) loop village homes "olga" olga home new_day refl
      refl village-olga homes-olga
