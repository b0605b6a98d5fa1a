-- ===== src/Events/Tests.antt =====
-- Runs of the event bus at concrete inputs.
use mmorpg_design_documents.Base.Key.{string_eq}
use mmorpg_design_documents.Events.{DomainEventBus, new_bus, on}

abbrev heard : DomainEventBus
heard = on "OrderFilled" 4 new_bus
