-- ===== src/Travel.antt =====
-- server/src/modules/travel/travel.service.ts: journeys between joined nodes, and what happens on
-- arrival. Weights are doubles, by the interface of Base/Double. The random numbers are a parameter:
-- `random i n` is `Math.floor(Math.random() * n)` at the i-th call. An ISO text of a time is that
-- time. Levels of hazard are whole, so that `roll <= threshold * 0.3` is `roll <= 3 * level`.
mod Hazards
pub mod Resolution
pub mod Journeys
pub mod Arrivals
pub mod Ending
pub mod Weight
mod Tests
unfoldable pub use Hazards.*
use Prim.Native.String.{◌++◌ as string_append}
use mmorpg_design_documents.Base.{
  ℕ, ◌+◌, Bool, true, false, ◌&&◌, not, Option, none, some, List, [], ◌∷◌, ◌++◌, String, Result, ok,
  err, if◌then◌else◌, ltb,
}
use mmorpg_design_documents.Base.Int.{ℤ, pos, ◌+ℤ◌, ◌-ℤ◌, ◌*ℤ◌, leb_ℤ, pos_part}
use mmorpg_design_documents.Base.Double.{Double}
use mmorpg_design_documents.Base.Key.{EntityId, issued, string_eq, entity_eq, ◌==◌}
use mmorpg_design_documents.Base.Dict.{Dict, lookup, insert, values}
use mmorpg_design_documents.Base.Lists.{length, keep, any, find, splice_one}
use mmorpg_design_documents.Events.{
  DomainEventBus, HazardEntry, next_event_id, publish, travel_arrived,
}
use mmorpg_design_documents.Simulation.{SimulationService, get_world_time_ms}
use mmorpg_design_documents.World.{
  WorldEdge, WorldService, get_node_by_id, get_outgoing_connections,
}

pub data JourneyStatus : Type 0 where
  in_progress arrived failed : JourneyStatus

pub record CargoItem (W : Type 0) : Type 0 where
  pub item_instance_id : String
  pub weight : W

pub record TravelJourney (W : Type 0) : Type 0 where
  pub id : EntityId
  pub character_id : String
  pub from_node_id : String
  pub to_node_id : String
  pub cargo : List (CargoItem W)
  pub status : JourneyStatus
  pub started_at_world_ms : ℤ
  pub arrives_at_world_ms : ℤ
  pub hazard_log : List HazardEntry

pub record Notification : Type 0 where
  pub id : EntityId
  pub character_id : String
  pub message : String
  pub timestamp : ℤ

pub record StartJourneyInput (W : Type 0) : Type 0 where
  pub character_id : String
  pub from_node_id : String
  pub to_node_id : String
  pub cargo : List (CargoItem W)

-- `draws` counts the calls of `Math.random`.
pub record TravelService (W : Type 0) : Type 0 where
  pub journeys : Dict EntityId (TravelJourney W)
  pub notifications : List Notification
  pub world : WorldService
  pub simulation : SimulationService
  pub draws : ℕ
  pub bus : DomainEventBus

pub data TravelError : Type 0 where
  already_travelling : TravelError
  origin_missing destination_missing : String → TravelError
  no_route : (origin destination : String) → TravelError

pub find_edge : String → String → WorldService → Option WorldEdge
unfolding get_outgoing_connections
find_edge from_id to_id world =
    find (λ e. e.to_node_id == to_id) (get_outgoing_connections from_id world)

module _ {W : Type 0} where
  abbrev pub is_in_progress : TravelJourney W → Bool
  is_in_progress j = elim j.status [ in_progress ↦ true | arrived ↦ false | failed ↦ false ]

  abbrev pub is_going : String → TravelJourney W → Bool
  is_going c j = j.character_id == c && is_in_progress j

  pub is_character_travelling : String → TravelService W → Bool
  is_character_travelling c s = any (is_going c) (values s.journeys)

  pub get_active_journeys : TravelService W → List (TravelJourney W)
  get_active_journeys s = keep is_in_progress (values s.journeys)

  pub get_journeys_by_character : String → TravelService W → List (TravelJourney W)
  get_journeys_by_character c s = keep (λ j. j.character_id == c) (values s.journeys)

  pub get_notifications : String → TravelService W → List Notification
  get_notifications c s = keep (λ n. n.character_id == c) s.notifications

module _ {W : Type 0} ⦃d : Double W⦄ where
  -- `cargo.reduce((sum, item) => sum + item.weight, start)`
  abbrev pub weigh : W → List (CargoItem W) → W
  weigh sum [] = sum
  weigh sum (item ∷ items) = weigh (d.add sum item.weight) items

  pub compute_cargo_weight : List (CargoItem W) → W
  compute_cargo_weight cargo = weigh (d.whole (pos 0)) cargo

  -- `Math.max(0, cargoWeight - CARGO_BASE_THRESHOLD)`
  pub overweight : W → W
  overweight weight =
      let over = d.sub weight (d.whole (pos 50)) in
      if d.at_most over (d.whole (pos 0)) then d.whole (pos 0) else over

  pub compute_travel_duration : ℤ → W → ℤ
  unfolding overweight
  compute_travel_duration minutes weight =
      let base = d.whole (minutes *ℤ pos 60000) in
      let penalty = d.add (d.whole (pos 1)) (d.mul (overweight weight) (d.decimal 1 2)) in
      d.ceil (d.mul base penalty)

  abbrev pub new_journey : EntityId → StartJourneyInput W → ℤ → ℤ → TravelJourney W
  new_journey id input world_now travel_ms = record {
    id = id;
    character_id = input.character_id;
    from_node_id = input.from_node_id;
    to_node_id = input.to_node_id;
    cargo = input.cargo;
    status = in_progress;
    started_at_world_ms = world_now;
    arrives_at_world_ms = world_now +ℤ travel_ms;
    hazard_log = [];
  }

  pub start_journey :
      StartJourneyInput W
      → ℤ
      → TravelService W
      → Result TravelError (TravelJourney W) × TravelService W
  unfolding is_character_travelling compute_cargo_weight compute_travel_duration get_node_by_id
  start_journey input now s =
      if is_character_travelling input.character_id s
      then (err already_travelling, s)
      else elim (get_node_by_id input.from_node_id s.world) [
        | none ↦ (err (origin_missing input.from_node_id), s)
        | some from_node ↦ elim (get_node_by_id input.to_node_id s.world) [
          | none ↦ (err (destination_missing input.to_node_id), s)
          | some to_node ↦ elim (find_edge input.from_node_id input.to_node_id s.world) [
            | none ↦ (err (no_route input.from_node_id input.to_node_id), s)
            | some edge ↦
                let weight = compute_cargo_weight input.cargo in
                let (id, bus) = next_event_id (pos_part now) s.bus in
                let j =
                  new_journey id input (get_world_time_ms s.simulation now)
                    (compute_travel_duration edge.travel_time_minutes weight) in
                (ok j, record s { journeys = insert id j s.journeys; bus = bus })
          ]
        ]
      ]
