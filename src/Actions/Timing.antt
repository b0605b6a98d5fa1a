-- ===== src/Actions/Timing.antt =====
-- server/src/modules/simulation/actions/action.service.ts: the time that an action takes.
use mmorpg_design_documents.Base.{
  ◌≡◌, refl, ap, inl, inr, true, false, ◌||◌, Option, some, Option-cases, List, [], ◌∷◌, String,
  if_elim,
}
use mmorpg_design_documents.Base.Int.{ℤ, pos_part, neg_part, ◌+ℤ◌, ◌-ℤ◌, int_laws}
use mmorpg_design_documents.Base.Key.{string_eq}
use mmorpg_design_documents.Base.Dict.{lookup, Every, insert-Every, lookup-Every}
use mmorpg_design_documents.Events.{DomainEventBus}
use mmorpg_design_documents.Needs.{NeedsStore}
use mmorpg_design_documents.Simulation.{SimulationService, get_world_time_ms}
use mmorpg_design_documents.Actions.Catalog.{ActionDefinition, get_action_definition}
use mmorpg_design_documents.Actions.{
  ActionState, ActionSlot, Outcome, ActionQueue, ActionService, active, completed, cancelled,
  is_active, is_paused, slot_is, new_actions, put_slot, new_slot, start_action, cancel_action,
  paused_slot, resumed_slot, pause_action, resume_action, is_due, finished, tick_each, tick_actions,
}

-- The mutations of the service.
pub data Request : Type 0 where
  start : (character_id definition_id : String) → Request
  cancel pause resume : (character_id : String) → Request
  tick : Request

unfoldable pub apply : ℤ → Request → ActionService → ActionService
apply now (start c d) s = (start_action c d now s).1
apply now (cancel c) s = (cancel_action c now s).1
apply now (pause c) s = (pause_action c now s).1
apply now (resume c) s = (resume_action c now s).1
apply now tick s = (tick_actions now s).1

unfoldable pub run : List (ℤ × Request) → ActionService → ActionService
run [] s = s
run (r ∷ rs) s = run rs (apply r.0 r.1 s)

-- The action is one of the catalog, and while it is active the time up to its end and the time
-- that it had before its last pause make up the action's duration.
pub record Timed (slot : ActionSlot) : Type 0 where
  pub definition : ActionDefinition
  pub found : get_action_definition slot.definition_id ≡ some definition
  pub whole :
      is_active slot ≡ true
      → slot.ends_at_world_ms -ℤ slot.started_at_world_ms +ℤ slot.elapsed_before_pause_ms
        ≡ definition.duration_game_ms

abbrev pub IsTimed : ActionService → Type 0
IsTimed s = Every Timed s.queue

new_slot-Timed :
    (c id : String) (d : ActionDefinition) (t : ℤ)
    → get_action_definition id ≡ some d
    → Timed (new_slot c d id t)
unfolding new_slot
new_slot-Timed c id d t h = record { definition = d; found = h; whole = λ _. omega int_laws }

resumed_slot-Timed :
    (t : ℤ) (d : ActionDefinition) (slot : ActionSlot)
    → get_action_definition slot.definition_id ≡ some d
    → Timed (resumed_slot t d slot)
unfolding resumed_slot
resumed_slot-Timed t d slot h = record { definition = d; found = h; whole = λ _. omega int_laws }

paused_slot-Timed : (t : ℤ) (slot : ActionSlot) → Timed slot → Timed (paused_slot t slot)
unfolding paused_slot
paused_slot-Timed t slot h = record {
  definition = h.definition;
  found = h.found;
  whole = λ e. absurd (cc);
}

-- A slot that is not active any more has nothing left to show.
stopped :
    (slot : ActionSlot) (state : ActionState)
    → is_active (record slot { state = state }) ≡ false
    → Timed slot
    → Timed (record slot { state = state })
stopped slot state off h = record {
  definition = h.definition;
  found = h.found;
  whole = λ e. absurd (cc);
}

start_action-IsTimed :
    (c id : String) (now : ℤ) (s : ActionService) → IsTimed s → IsTimed (start_action c id now s).1
unfolding start_action
start_action-IsTimed c id now s h = elim (Option-cases (get_action_definition id)) [
  | inl e ↦ rw (e, start_action) h
  | inr (d, e) ↦
      rw (e, start_action)
        (if_elim (λ (o : Outcome). IsTimed o.1)
          (slot_is (λ slot. is_active slot || is_paused slot) (lookup c s.queue)) _ _ (λ _. h)
          (λ _. insert-Every Timed c _ s.queue (new_slot-Timed c id d _ e) h))
]

cancel_action-IsTimed :
    (c : String) (now : ℤ) (s : ActionService) → IsTimed s → IsTimed (cancel_action c now s).1
unfolding cancel_action
cancel_action-IsTimed c now s h = elim (Option-cases (lookup c s.queue)) [
  | inl e ↦ rw (e, cancel_action) h
  | inr (slot, e) ↦
      rw (e, cancel_action)
        (if_elim (λ (o : Outcome). IsTimed o.1) (is_active slot || is_paused slot) _ _
          (λ _.
            insert-Every Timed c _ s.queue
              (stopped slot cancelled refl (lookup-Every Timed c slot s.queue h e)) h)
          (λ _. h))
]

pause_action-IsTimed :
    (c : String) (now : ℤ) (s : ActionService) → IsTimed s → IsTimed (pause_action c now s).1
unfolding pause_action
pause_action-IsTimed c now s h = elim (Option-cases (lookup c s.queue)) [
  | inl e ↦ rw (e, pause_action) h
  | inr (slot, e) ↦
      rw (e, pause_action)
        (if_elim (λ (o : Outcome). IsTimed o.1) (is_active slot) _ _
          (λ _.
            insert-Every Timed c _ s.queue
              (paused_slot-Timed _ slot (lookup-Every Timed c slot s.queue h e)) h)
          (λ _. h))
]

resume_action-IsTimed :
    (c : String) (now : ℤ) (s : ActionService) → IsTimed s → IsTimed (resume_action c now s).1
unfolding resume_action
resume_action-IsTimed c now s h = elim (Option-cases (lookup c s.queue)) [
  | inl e ↦ rw (e, resume_action) h
  | inr (slot, e) ↦
      let timed = lookup-Every Timed c slot s.queue h e in
      rw (e, resume_action, timed.found)
        (if_elim (λ (o : Outcome). IsTimed o.1) (is_paused slot) _ _
          (λ _.
            insert-Every Timed c _ s.queue (resumed_slot-Timed _ timed.definition slot timed.found)
              h)
          (λ _. h))
]

tick_each-IsTimed :
    (now t : ℤ) (q : ActionQueue) (needs : Option NeedsStore) (bus : DomainEventBus)
    → Every Timed q
    → Every Timed (tick_each now t q needs bus).queue
unfolding tick_each
tick_each-IsTimed now t [] needs bus h = tt
tick_each-IsTimed now t (e ∷ q) needs bus h = (
  if_elim Timed (is_due t e.1) (finished e.1) e.1 (λ _. stopped e.1 completed refl h.0) (λ _. h.0),
  tick_each-IsTimed now t q _ _ h.1,
)

pub tick_actions-IsTimed :
    (now : ℤ) (s : ActionService) → IsTimed s → IsTimed (tick_actions now s).1
unfolding tick_actions
tick_actions-IsTimed now s h = tick_each-IsTimed now _ s.queue s.needs_service s.bus h

pub apply-IsTimed :
    (now : ℤ) (r : Request) (s : ActionService) → IsTimed s → IsTimed (apply now r s)
unfolding apply
apply-IsTimed now (start c d) s h = start_action-IsTimed c d now s h
apply-IsTimed now (cancel c) s h = cancel_action-IsTimed c now s h
apply-IsTimed now (pause c) s h = pause_action-IsTimed c now s h
apply-IsTimed now (resume c) s h = resume_action-IsTimed c now s h
apply-IsTimed now tick s h = tick_actions-IsTimed now s h

run-IsTimed : (rs : List (ℤ × Request)) (s : ActionService) → IsTimed s → IsTimed (run rs s)
unfolding run
run-IsTimed [] s h = h
run-IsTimed (r ∷ rs) s h = run-IsTimed rs (apply r.0 r.1 s) (apply-IsTimed r.0 r.1 s h)

-- After any history of calls to a new service, at whatever times, every slot's action is in the
-- catalog, and an active one ends when its whole duration, less what it had before its last pause,
-- has gone by since it was started or resumed.
pub run-new_actions-IsTimed :
    (rs : List (ℤ × Request)) (simulation : SimulationService) (bus : DomainEventBus)
    → IsTimed (run rs (new_actions simulation bus))
unfolding new_actions
run-new_actions-IsTimed rs simulation bus = run-IsTimed rs (new_actions simulation bus) tt

-- The slot after a pause and a resumption.
abbrev pub Delayed : ℤ → ℤ → ActionSlot → ActionSlot → Type 0
Delayed t u slot slot' =
    (slot'.state ≡ active)
    × (slot'.ends_at_world_ms ≡ slot.ends_at_world_ms +ℤ (u -ℤ t))
    × (slot'.ends_at_world_ms -ℤ u ≡ slot.ends_at_world_ms -ℤ t)

pub resumed-paused :
    (t u : ℤ) (slot : ActionSlot) (d : ActionDefinition)
    → slot.ends_at_world_ms -ℤ slot.started_at_world_ms +ℤ slot.elapsed_before_pause_ms
      ≡ d.duration_game_ms
    → Delayed t u slot (resumed_slot u d (paused_slot t slot))
unfolding resumed_slot paused_slot
resumed-paused t u slot d h = (
  refl,
  omega (int_laws, ap pos_part h, ap neg_part h),
  omega (int_laws, ap pos_part h, ap neg_part h),
)

pub pause-slot :
    (c : String) (now : ℤ) (s : ActionService) (slot : ActionSlot)
    → lookup c s.queue ≡ some slot
    → is_active slot ≡ true
    → (pause_action c now s).1
      ≡ put_slot c (paused_slot (get_world_time_ms s.simulation now) slot) s
unfolding pause_action
pause-slot c now s slot e on = rw (e, pause_action, on) refl
