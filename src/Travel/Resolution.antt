-- ===== src/Travel/Resolution.antt =====
-- server/src/modules/travel/travel.service.ts: `resolveArrivals`, with the hazard, the cargo that is
-- lost to it and the notification.
use Prim.Native.String.{◌++◌ as string_append}
use mmorpg_design_documents.Base.{
  ℕ, ◌+◌, Bool, true, false, Option, none, some, List, [], ◌∷◌, ◌++◌, String, if◌then◌else◌,
}
use mmorpg_design_documents.Base.Int.{ℤ, pos, leb_ℤ, pos_part}
use mmorpg_design_documents.Base.Key.{EntityId}
use mmorpg_design_documents.Base.Dict.{Dict}
use mmorpg_design_documents.Base.Lists.{length, splice_one}
use mmorpg_design_documents.Events.{
  DomainEventBus, HazardEntry, next_event_id, publish, travel_arrived,
}
use mmorpg_design_documents.Simulation.{get_world_time_ms}
use mmorpg_design_documents.World.{WorldEdge, WorldService}
use mmorpg_design_documents.Travel.{
  JourneyStatus, arrived, failed, CargoItem, TravelJourney, Notification, TravelService, find_edge,
  is_in_progress, Hazard, safe, cargo_loss, delay, injury, failure, hazard_text, hazard_of,
}

-- `hazardEntry.outcome === 'failure' ? 'failed' : 'arrived'`
abbrev pub status_after : Hazard → JourneyStatus
status_after safe = arrived
status_after cargo_loss = arrived
status_after delay = arrived
status_after injury = arrived
status_after failure = failed

abbrev pub loses_cargo : Hazard → Bool
loses_cargo safe = false
loses_cargo cargo_loss = true
loses_cargo delay = false
loses_cargo injury = false
loses_cargo failure = false

abbrev hazard_note : Hazard → String
hazard_note safe = ""
hazard_note h = string_append " Hazard: " (string_append (hazard_text h) ".")

-- `edge?.hazard_level ?? 0`
abbrev pub level_of : Option WorldEdge → ℤ
level_of none = pos 0
level_of (some edge) = edge.hazard_level

-- What the loop changes besides the journeys.
pub record Course : Type 0 where
  pub draws : ℕ
  pub notifications : List Notification
  pub bus : DomainEventBus

pub post_notification : ℤ → String → String → Course → Course
post_notification now c message st =
    let (id, bus) = next_event_id (pos_part now) st.bus in
    record st {
      notifications =
          st.notifications
          ++ record { id = id; character_id = c; message = message; timestamp = now } ∷ [];
      bus = bus;
    }

pub record Landing (W : Type 0) : Type 0 where
  pub arrivals : List (TravelJourney W)
  pub journeys : Dict EntityId (TravelJourney W)
  pub course : Course

module _ {W : Type 0} where
  -- The ids of what was lost: `cargoLost`.
  abbrev pub lost_ids : Option (CargoItem W) → List String
  lost_ids none = []
  lost_ids (some item) = item.item_instance_id ∷ []

  abbrev lost_note : Option (CargoItem W) → String
  lost_note none = ""
  lost_note (some item) = string_append " Lost cargo: " (string_append item.item_instance_id ".")

  abbrev route_text : TravelJourney W → String
  route_text j = string_append j.from_node_id (string_append " to " j.to_node_id)

  pub arrival_message : JourneyStatus → Hazard → Option (CargoItem W) → TravelJourney W → String
  arrival_message failed h lost j =
      string_append "Travel from " (string_append (route_text j) " failed due to hazard.")
  arrival_message status h lost j = string_append "Arrived at destination from " (
      string_append (route_text j)
        (string_append "." (string_append (lost_note lost) (hazard_note h))))

  unfoldable pub is_due : ℤ → TravelJourney W → Bool
  is_due t j = if is_in_progress j then leb_ℤ j.arrives_at_world_ms t else false

  module _ (random : ℕ → ℕ → ℕ) where
    -- The item that is lost and the cargo that is left; an index is drawn only where there is one.
    unfoldable pub lose_cargo :
        Hazard → List (CargoItem W) → ℕ → Option (CargoItem W) × List (CargoItem W) × ℕ
    lose_cargo h [] draws = (none, [], draws)
    lose_cargo h (item ∷ items) draws =
        let cargo = item ∷ items in
        let (lost, left) = splice_one (random draws (length cargo)) cargo in
        if loses_cargo h then (lost, left, draws + 1) else (none, cargo, draws)

    -- The journey with its hazard rolled and its cargo reduced, and what it lost.
    unfoldable pub land :
        WorldService → TravelJourney W → ℕ → TravelJourney W × Option (CargoItem W) × Hazard × ℕ
    unfolding lose_cargo
    land world j draws =
        let roll = random draws 100 + 1 in
        let h = hazard_of (level_of (find_edge j.from_node_id j.to_node_id world)) roll in
        let (lost, left, draws') = lose_cargo h j.cargo (draws + 1) in
        let entry : HazardEntry = record {
          segment = length j.hazard_log;
          roll = roll;
          outcome = hazard_text h;
        } in
        (
          record j {
            cargo = left;
            status = status_after h;
            hazard_log = j.hazard_log ++ entry ∷ [];
          },
          lost,
          h,
          draws',
        )

    -- One journey that is due: the notification, then the event.
    unfoldable pub resolve_journey :
        ℤ → WorldService → TravelJourney W → Course → TravelJourney W × Course
    unfolding land post_notification arrival_message
    resolve_journey now world j st =
        let (j', lost, h, draws) = land world j st.draws in
        let noted = post_notification now j.character_id (arrival_message j'.status h lost j) st in
        let event = travel_arrived (record {
          journey_id = j.id;
          character_id = j.character_id;
          from_node_id = j.from_node_id;
          to_node_id = j.to_node_id;
          cargo_lost = lost_ids lost;
          hazard_log = j'.hazard_log;
          arrived_at_world_ms = j.arrives_at_world_ms;
        }) in
        (
          j',
          record noted {
            draws = draws;
            bus = publish (pos_part now) (pos_part now) event noted.bus;
          },
        )

    abbrev pub stepped : ℤ → ℤ → WorldService → TravelJourney W → Course → TravelJourney W × Course
    stepped now t world j st = if is_due t j then resolve_journey now world j st else (j, st)

    -- The loop over the journeys; those that are not due stay as they are.
    unfoldable pub resolve_each :
        ℤ → ℤ → WorldService → Dict EntityId (TravelJourney W) → Course → Landing W
    unfolding resolve_journey is_due
    resolve_each now t world [] st = record { arrivals = []; journeys = []; course = st }
    resolve_each now t world (e ∷ ds) st =
        let due = is_due t e.1 in
        let (j, st') = stepped now t world e.1 st in
        let later = resolve_each now t world ds st' in
        record {
          arrivals = if due then j ∷ later.arrivals else later.arrivals;
          journeys = (e.0, j) ∷ later.journeys;
          course = later.course;
        }

    unfoldable pub resolve_arrivals : ℤ → TravelService W → List (TravelJourney W) × TravelService W
    unfolding resolve_each
    resolve_arrivals now s =
        let st : Course = record {
          draws = s.draws;
          notifications = s.notifications;
          bus = s.bus;
        } in
        let after = resolve_each now (get_world_time_ms s.simulation now) s.world s.journeys st in
        (
          after.arrivals,
          record s {
            journeys = after.journeys;
            draws = after.course.draws;
            notifications = after.course.notifications;
            bus = after.course.bus;
          },
        )
