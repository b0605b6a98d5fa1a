-- ===== src/Events.antt =====
-- server/src/common/domain-events.ts: the in-process event bus and its event ids. A listener is a
-- function compared by identity: a number here. The bus keeps what its listeners were called with,
-- in order of the calls; what a listener does with an event is its own affair.
mod Payloads
pub mod Delivery
mod Tests
pub use Payloads.*
use mmorpg_design_documents.Base.{
  ℕ, ◌+◌, not, Option, none, some, List, [], ◌∷◌, ◌++◌, nat_eq, String,
}
use mmorpg_design_documents.Base.Key.{EntityId, issued, string_eq}
use mmorpg_design_documents.Base.Dict.{Dict, lookup, insert}
use mmorpg_design_documents.Base.Lists.{keep}

pub record DomainEvent : Type 0 where
  pub event_id : EntityId
  pub timestamp : ℕ
  pub payload : Payload

pub record DomainEventBus : Type 0 where
  pub counter : ℕ
  pub listeners : Dict String (List ℕ)
  pub emitted : List DomainEvent
  pub delivered : List (ℕ × DomainEvent)

abbrev pub new_bus : DomainEventBus
new_bus = record { counter = 0; listeners = []; emitted = []; delivered = [] }

abbrev registered : Option (List ℕ) → List ℕ
registered none = []
registered (some ls) = ls

-- `on(type, listener)`
pub on : String → ℕ → DomainEventBus → DomainEventBus
on event_type listener bus = record bus {
  listeners =
      insert event_type (registered (lookup event_type bus.listeners) ++ listener ∷ [])
        bus.listeners;
}

-- `off(type, listener)`
pub off : String → ℕ → DomainEventBus → DomainEventBus
off event_type listener bus = elim (lookup event_type bus.listeners) [
  | none ↦ bus
  | some existing ↦ record bus {
    listeners = insert event_type (keep (λ l. not (nat_eq l listener)) existing) bus.listeners;
  }
]

-- `for (const listener of existing) listener(event)`
abbrev call_all : DomainEvent → List ℕ → List (ℕ × DomainEvent)
call_all event [] = []
call_all event (l ∷ ls) = (l, event) ∷ call_all event ls

-- `emit(event)`; the call itself is noted in `emitted`.
unfoldable pub emit : DomainEvent → DomainEventBus → DomainEventBus
emit event bus = record bus {
  emitted = bus.emitted ++ event ∷ [];
  delivered =
      bus.delivered ++ call_all event (registered (lookup (type_of event.payload) bus.listeners));
}

-- `eventBus.emit({ eventId: generateEventId(), type, timestamp, payload })`
unfoldable pub publish : ℕ → ℕ → Payload → DomainEventBus → DomainEventBus
unfolding emit
publish now timestamp payload bus =
    let next : ℕ = bus.counter + 1 in
    emit (record { event_id = issued "evt" now next; timestamp = timestamp; payload = payload })
      (record bus { counter = next })

-- `generateEventId()` where the id is not that of an event.
abbrev pub next_event_id : ℕ → DomainEventBus → EntityId × DomainEventBus
next_event_id now bus =
    let next : ℕ = bus.counter + 1 in (issued "evt" now next, record bus { counter = next })
