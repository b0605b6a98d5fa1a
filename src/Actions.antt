-- ===== src/Actions.antt =====
-- server/src/modules/simulation/actions/: the action that each character is at, its pauses, and the
-- tick that completes what is due. The service reads the world clock (Simulation) and, once it has
-- been handed one, the needs service (Needs), whose store it may extend. A method's `now` is its
-- `nowMs`; an event's timestamp is that same time, written as a natural number.
pub mod Catalog
pub mod Timing
pub mod Pauses
pub mod Tick
mod Tests
use mmorpg_design_documents.Base.{
  ℕ, Bool, true, false, ◌||◌, Option, none, some, List, [], ◌∷◌, String, Result, ok, err,
  if◌then◌else◌,
}
use mmorpg_design_documents.Base.Int.{ℤ, pos, ◌+ℤ◌, ◌-ℤ◌, leb_ℤ, pos_part}
use mmorpg_design_documents.Base.Key.{string_eq}
use mmorpg_design_documents.Base.Dict.{Dict, lookup, insert, values}
use mmorpg_design_documents.Base.Lists.{keep, length}
use mmorpg_design_documents.Events.{
  DomainEventBus, publish, action_submitted, action_resolved, action_cancelled,
}
use mmorpg_design_documents.Needs.{NeedsStore, get_modifier}
use mmorpg_design_documents.Simulation.{SimulationService, get_world_time_ms}
use mmorpg_design_documents.Actions.Catalog.{ActionDefinition, get_action_definition}

pub data ActionState : Type 0 where
  active paused completed cancelled : ActionState

pub record ActionSlot : Type 0 where
  pub character_id : String
  pub definition_id : String
  pub state : ActionState
  pub started_at_world_ms : ℤ
  pub ends_at_world_ms : ℤ
  pub paused_at_world_ms : Option ℤ
  pub elapsed_before_pause_ms : ℤ

abbrev pub ActionQueue : Type 0
ActionQueue = Dict String ActionSlot

pub record ActionService : Type 0 where
  pub queue : ActionQueue
  pub needs_service : Option NeedsStore
  pub simulation : SimulationService
  pub bus : DomainEventBus

pub data ActionError : Type 0 where
  unknown_definition definition_not_found : String → ActionError
  already_busy nothing_to_cancel nothing_to_pause nothing_to_resume : ActionError

abbrev pub Outcome : Type 0
Outcome = Result ActionError ActionSlot × ActionService

-- `state === 'active'` and `state === 'paused'`
abbrev pub is_active : ActionSlot → Bool
is_active slot = elim slot.state [
  | active ↦ true
  | paused ↦ false
  | completed ↦ false
  | cancelled ↦ false
]

abbrev pub is_paused : ActionSlot → Bool
is_paused slot = elim slot.state [
  | active ↦ false
  | paused ↦ true
  | completed ↦ false
  | cancelled ↦ false
]

-- There is a slot, and it passes the test.
abbrev pub slot_is : (ActionSlot → Bool) → Option ActionSlot → Bool
slot_is p none = false
slot_is p (some slot) = p slot

unfoldable pub new_actions : SimulationService → DomainEventBus → ActionService
new_actions simulation bus = record {
  queue = [];
  needs_service = none;
  simulation = simulation;
  bus = bus;
}

pub set_needs_service : NeedsStore → ActionService → ActionService
set_needs_service needs s = record s { needs_service = some needs }

abbrev pub put_slot : String → ActionSlot → ActionService → ActionService
put_slot c slot s = record s { queue = insert c slot s.queue }

-- `now` as the wall clock that event ids read, and as the time stamp.
abbrev pub stamp : ℤ → ℕ
stamp now = pos_part now

pub new_slot : String → ActionDefinition → String → ℤ → ActionSlot
new_slot character_id definition definition_id world_now = record {
  character_id = character_id;
  definition_id = definition_id;
  state = active;
  started_at_world_ms = world_now;
  ends_at_world_ms = world_now +ℤ definition.duration_game_ms;
  paused_at_world_ms = none;
  elapsed_before_pause_ms = pos 0;
}

pub start_action : String → String → ℤ → ActionService → Outcome
unfolding new_slot
start_action character_id definition_id now s = elim (get_action_definition definition_id) [
  | none ↦ (err (unknown_definition definition_id), s)
  | some definition ↦
      if slot_is (λ slot. is_active slot || is_paused slot) (lookup character_id s.queue)
      then (err already_busy, s)
      else let slot =
          new_slot character_id definition definition_id (get_world_time_ms s.simulation now) in
        let event = action_submitted (record {
          character_id = character_id;
          definition_id = definition_id;
          started_at_world_ms = slot.started_at_world_ms;
          ends_at_world_ms = slot.ends_at_world_ms;
        }) in
        (
          ok slot,
          record (put_slot character_id slot s) {
            bus = publish (stamp now) (stamp now) event s.bus;
          },
        )
]

pub cancel_action : String → ℤ → ActionService → Outcome
cancel_action character_id now s = elim (lookup character_id s.queue) [
  | none ↦ (err nothing_to_cancel, s)
  | some slot ↦
      if is_active slot || is_paused slot
      then (let slot' : ActionSlot = record slot { state = cancelled } in
          let event = action_cancelled (record {
            character_id = character_id;
            definition_id = slot.definition_id;
            cancelled_at_world_ms = get_world_time_ms s.simulation now;
          }) in
          (
            ok slot',
            record (put_slot character_id slot' s) {
              bus = publish (stamp now) (stamp now) event s.bus;
            },
          ))
      else (err nothing_to_cancel, s)
]

-- What a pause and a resumption do to the slot.
pub paused_slot : ℤ → ActionSlot → ActionSlot
paused_slot world_now slot = record slot {
  elapsed_before_pause_ms = slot.elapsed_before_pause_ms +ℤ (world_now -ℤ slot.started_at_world_ms);
  paused_at_world_ms = some world_now;
  state = paused;
}

pub resumed_slot : ℤ → ActionDefinition → ActionSlot → ActionSlot
resumed_slot world_now definition slot = record slot {
  started_at_world_ms = world_now;
  ends_at_world_ms = world_now +ℤ (definition.duration_game_ms -ℤ slot.elapsed_before_pause_ms);
  paused_at_world_ms = none;
  state = active;
}

pub pause_action : String → ℤ → ActionService → Outcome
unfolding paused_slot
pause_action character_id now s = elim (lookup character_id s.queue) [
  | none ↦ (err nothing_to_pause, s)
  | some slot ↦
      if is_active slot
      then (let slot' = paused_slot (get_world_time_ms s.simulation now) slot in
          (ok slot', put_slot character_id slot' s))
      else (err nothing_to_pause, s)
]

pub resume_action : String → ℤ → ActionService → Outcome
unfolding resumed_slot
resume_action character_id now s = elim (lookup character_id s.queue) [
  | none ↦ (err nothing_to_resume, s)
  | some slot ↦
      if is_paused slot
      then (elim (get_action_definition slot.definition_id) [
        | none ↦ (err (definition_not_found slot.definition_id), s)
        | some definition ↦
            let slot' = resumed_slot (get_world_time_ms s.simulation now) definition slot in
            (ok slot', put_slot character_id slot' s)
      ])
      else (err nothing_to_resume, s)
]

pub record Round : Type 0 where
  pub completed_slots : List ActionSlot
  pub queue : ActionQueue
  pub needs_service : Option NeedsStore
  pub bus : DomainEventBus

-- `needsService ? needsService.getModifier(characterId) : 1.0`, in hundredths.
pub modifier_for : ℕ → String → Option NeedsStore → ℤ × Option NeedsStore
modifier_for now character_id none = (pos 100, none)
modifier_for now character_id (some needs) =
    let (m, needs') = get_modifier now character_id needs in (m, some needs')

-- The slot is active and its end is reached.
pub is_due : ℤ → ActionSlot → Bool
is_due world_now slot = if is_active slot then leb_ℤ slot.ends_at_world_ms world_now else false

abbrev pub finished : ActionSlot → ActionSlot
finished slot = record slot { state = completed }

-- One slot of the tick's loop: the needs and the bus after it.
pub resolve :
    ℤ → ActionSlot → Option NeedsStore → DomainEventBus → Option NeedsStore × DomainEventBus
unfolding modifier_for
resolve now slot needs bus =
    let (m, needs') = modifier_for (stamp now) slot.character_id needs in
    let event = action_resolved (record {
      character_id = slot.character_id;
      definition_id = slot.definition_id;
      completed_at_world_ms = slot.ends_at_world_ms;
      needs_modifier = m;
    }) in
    (needs', publish (stamp now) (stamp now) event bus)

-- The loop over the active slots; the others stay as they are.
pub tick_each : ℤ → ℤ → ActionQueue → Option NeedsStore → DomainEventBus → Round
unfolding is_due resolve
tick_each now world_now [] needs bus = record {
  completed_slots = [];
  queue = [];
  needs_service = needs;
  bus = bus;
}
tick_each now world_now (e ∷ q) needs bus =
    let after = if is_due world_now e.1 then resolve now e.1 needs bus else (needs, bus) in
    let later = tick_each now world_now q after.0 after.1 in
    record later {
      completed_slots =
          if is_due world_now e.1
          then finished e.1 ∷ later.completed_slots
          else later.completed_slots;
      queue = (e.0, if is_due world_now e.1 then finished e.1 else e.1) ∷ later.queue;
    }

pub tick_actions : ℤ → ActionService → List ActionSlot × ActionService
unfolding tick_each
tick_actions now s =
    let after = tick_each now (get_world_time_ms s.simulation now) s.queue s.needs_service s.bus in
    (
      after.completed_slots,
      record s { queue = after.queue; needs_service = after.needs_service; bus = after.bus },
    )

pub get_slot : String → ActionService → Option ActionSlot
get_slot character_id s = lookup character_id s.queue

-- `queue.allInState('active')`
pub all_active : ActionQueue → List ActionSlot
all_active q = keep is_active (values q)

pub get_active_count : ActionService → ℕ
unfolding all_active
get_active_count s = length (all_active s.queue)
