-- ===== src/Actions/Tick.antt =====
-- server/src/modules/simulation/actions/action.service.ts, `tickActions`: what a tick completes.
use mathlib.Core.List.{append_assoc, append-nil, map-append}
use mmorpg_design_documents.Base.{
  ◌≡◌, refl, ◌∙◌, sym, ap, inl, inr, false, Bool-cases, Option, none, some, List, [], ◌∷◌, ◌++◌,
  map, String, if◌then◌else◌,
}
use mmorpg_design_documents.Base.Int.{ℤ, pos}
use mmorpg_design_documents.Base.Key.{string_eq}
use mmorpg_design_documents.Base.Dict.{lookup, values, map_values, lookup-map_values}
use mmorpg_design_documents.Base.Lists.{keep}
use mmorpg_design_documents.Events.{DomainEvent, DomainEventBus, Payload, publish, action_resolved}
use mmorpg_design_documents.Needs.{NeedsStore}
use mmorpg_design_documents.Simulation.{get_world_time_ms}
use mmorpg_design_documents.Actions.{
  ActionSlot, ActionQueue, ActionService, is_due, finished, modifier_for, resolve, tick_each,
  tick_actions,
}

-- A slot after a tick at a world time.
abbrev pub ticked : ℤ → ActionSlot → ActionSlot
ticked t slot = if is_due t slot then finished slot else slot

-- The slots that are due, in the order of the queue.
abbrev pub due : ℤ → ActionQueue → List ActionSlot
due t q = keep (is_due t) (values q)

module _ (now t : ℤ) where
  tick_each-queue :
      (q : ActionQueue) (needs : Option NeedsStore) (bus : DomainEventBus)
      → (tick_each now t q needs bus).queue ≡ map_values (ticked t) q
  unfolding tick_each
  tick_each-queue [] needs bus = refl
  tick_each-queue (e ∷ q) needs bus =
      ap (λ rest. (e.0, ticked t e.1) ∷ rest) (tick_each-queue q _ _)

  tick_each-completed :
      (q : ActionQueue) (needs : Option NeedsStore) (bus : DomainEventBus)
      → (tick_each now t q needs bus).completed_slots ≡ map finished (due t q)
  unfolding tick_each
  tick_each-completed [] needs bus = refl
  tick_each-completed (e ∷ q) needs bus = elim (Bool-cases (is_due t e.1)) [
    | inl ready ↦ rw ready (ap (λ rest. finished e.1 ∷ rest) (tick_each-completed q _ _))
    | inr other ↦ rw other (tick_each-completed q _ _)
  ]

  ticked-idle : (slot : ActionSlot) → is_due t (ticked t slot) ≡ false
  unfolding is_due
  ticked-idle slot = elim (Bool-cases (is_due t slot)) [ inl e ↦ rw e refl | inr e ↦ rw e e ]

  due-ticked : (q : ActionQueue) → due t (map_values (ticked t) q) ≡ []
  due-ticked [] = refl
  due-ticked (e ∷ q) = rw (ticked-idle e.1) (due-ticked q)

-- A tick completes exactly the active actions whose end is reached: it returns these, in the order
-- of the queue and marked as completed, and leaves every other slot as it is.
pub tick_actions-due :
    (now : ℤ) (c : String) (s : ActionService)
    → let t = get_world_time_ms s.simulation now in
      ((tick_actions now s).0 ≡ map finished (due t s.queue))
      × (lookup c (tick_actions now s).1.queue
          ≡ elim (lookup c s.queue) [ none ↦ none | some slot ↦ some (ticked t slot) ])
unfolding tick_actions
tick_actions-due now c s =
    let t = get_world_time_ms s.simulation now in
    (
      tick_each-completed now t s.queue s.needs_service s.bus,
      rw (tick_each-queue now t s.queue s.needs_service s.bus)
          (lookup-map_values c (ticked t) s.queue),
    )

-- A second tick at the same time completes nothing more.
pub tick_twice : (now : ℤ) (s : ActionService) → (tick_actions now (tick_actions now s).1).0 ≡ []
unfolding tick_actions
tick_twice now s =
    let t = get_world_time_ms s.simulation now in
    let after = tick_each now t s.queue s.needs_service s.bus in
    tick_each-completed now t after.queue after.needs_service after.bus
    ∙ ap (λ q. map finished (due t q)) (tick_each-queue now t s.queue s.needs_service s.bus)
    ∙ ap (map finished) (due-ticked now t s.queue)

abbrev pub payloads : DomainEventBus → List Payload
payloads bus = map (λ (e : DomainEvent). e.payload) bus.emitted

-- What is published of a slot while no needs service has been handed over.
abbrev pub resolution : ActionSlot → Payload
resolution slot = action_resolved (record {
  character_id = slot.character_id;
  definition_id = slot.definition_id;
  completed_at_world_ms = slot.ends_at_world_ms;
  needs_modifier = pos 100;
})

tick_each-payloads :
    (now t : ℤ) (q : ActionQueue) (bus : DomainEventBus)
    → payloads (tick_each now t q none bus).bus ≡ payloads bus ++ map resolution (due t q)
unfolding tick_each resolve publish modifier_for
tick_each-payloads now t [] bus = sym (append-nil _)
tick_each-payloads now t (e ∷ q) bus = elim (Bool-cases (is_due t e.1)) [
  | inl ready ↦ rw ready (
      tick_each-payloads now t q _
      ∙ rw (map-append (λ (x : DomainEvent). x.payload) bus.emitted _)
          (append_assoc (payloads bus) (resolution e.1 ∷ []) (map resolution (due t q))))
  | inr other ↦ rw other (tick_each-payloads now t q bus)
]

-- Without a needs service a tick publishes one resolution for each action that it completes, in
-- the same order, with the modifier 1.00 and the time at which the action was to end.
pub tick_actions-payloads :
    (now : ℤ) (s : ActionService)
    → s.needs_service ≡ none
    → payloads (tick_actions now s).1.bus
      ≡ payloads s.bus ++ map resolution (due (get_world_time_ms s.simulation now) s.queue)
unfolding tick_actions
tick_actions-payloads now s e = rw e (tick_each-payloads now _ s.queue s.bus)
