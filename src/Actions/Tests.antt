-- ===== src/Actions/Tests.antt =====
-- Runs of the action service at concrete inputs.
use mmorpg_design_documents.Base.{◌≡◌, refl, none, some, List, [], ◌∷◌, ok}
use mmorpg_design_documents.Base.Int.{ℤ, pos, ◌+ℤ◌, ◌-ℤ◌, ◌*ℤ◌}
use mmorpg_design_documents.Base.Key.{string_eq}
use mmorpg_design_documents.Base.Dict.{lookup, insert}
use mmorpg_design_documents.Events.{new_bus}
use mmorpg_design_documents.Simulation.{SimulationService, get_world_time_ms}
use mmorpg_design_documents.Actions.{
  ActionSlot, ActionService, active, new_actions, put_slot, start_action,
}
use mmorpg_design_documents.Actions.Catalog.{get_action_definition}
use mmorpg_design_documents.Actions.Timing.{Request, start, pause, resume, run, IsTimed}
use mmorpg_design_documents.Actions.Pauses.{pauses, time_paused, run-pauses}

abbrev clock : SimulationService
clock = record { startup_realtime_ms = pos 0; world_seed_time_ms = pos 0; acceleration = pos 30 }

abbrev resting : ActionSlot
resting = record {
  character_id = "olga";
  definition_id = "rest";
  state = active;
  started_at_world_ms = pos 30;
  ends_at_world_ms = pos 28800030;
  paused_at_world_ms = none;
  elapsed_before_pause_ms = pos 0;
}

abbrev busy : ActionService
busy = put_slot "olga" resting (new_actions clock new_bus)

-- Starting to rest at the first millisecond puts the slot above in place.
start-olga : (start_action "olga" "rest" (pos 1) (new_actions clock new_bus)).0 ≡ ok resting
unfolding start_action get_action_definition new_actions get_world_time_ms ◌+ℤ◌ ◌-ℤ◌ ◌*ℤ◌ lookup
start-olga = refl

abbrev history : List (ℤ × Request)
history = (pos 1, start "olga" "rest") ∷ (pos 5, pause "olga") ∷ (pos 9, resume "olga") ∷ []

busy-IsTimed : IsTimed busy
unfolding insert new_actions get_action_definition lookup ◌+ℤ◌ ◌-ℤ◌
busy-IsTimed = (record { definition = _; found = refl; whole = λ _. refl }, tt)

busy-olga : lookup "olga" busy.queue ≡ some resting
unfolding insert new_actions lookup
busy-olga = refl

abbrev two_pauses : List (ℤ × ℤ)
two_pauses = (pos 5, pos 9) ∷ (pos 12, pos 20) ∷ []

run-pauses_example :
    (slot' : ActionSlot) × (lookup "olga" (run (pauses "olga" two_pauses) busy).queue ≡ some slot')
    × (slot'.state ≡ active)
    × (slot'.ends_at_world_ms ≡ pos 28800030 +ℤ time_paused busy.simulation two_pauses)
run-pauses_example = run-pauses two_pauses "olga" busy resting busy-IsTimed busy-olga refl

no_needs : busy.needs_service ≡ none
unfolding new_actions
no_needs = refl
