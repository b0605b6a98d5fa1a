-- ===== src/Travel/Tests.antt =====
-- Runs of the travel service at concrete inputs. Weights are whole numbers here, and the random
-- numbers the greatest or the least that there are.
use mmorpg_design_documents.Base.{ℕ, ◌<◌, ◌≤◌, ◌≡◌, refl, none, some, [], ◌∷◌, arith, String}
use mmorpg_design_documents.Base.Int.{ℤ, pos, ◌+ℤ◌, ◌-ℤ◌, ◌≤ℤ◌}
use mmorpg_design_documents.Base.Double.{whole_double, whole_double-IsRounded}
use mmorpg_design_documents.Base.Key.{chosen, string_eq, entity_eq, entity_beq}
use mmorpg_design_documents.Base.Dict.{lookup}
use mmorpg_design_documents.Events.{new_bus}
use mmorpg_design_documents.Simulation.{SimulationService}
use mmorpg_design_documents.World.{region, unlocked, WorldNode, WorldService}
use mmorpg_design_documents.Travel.{
  in_progress, arrived, TravelJourney, TravelService, StartJourneyInput, compute_travel_duration,
}
use mmorpg_design_documents.Travel.Resolution.{resolve_arrivals}
use mmorpg_design_documents.Travel.Ending.{reached_by, resolve_arrivals_ends}
use mmorpg_design_documents.Travel.Journeys.{IsSingle, start, resolve, run, run-IsSingle}
use mmorpg_design_documents.Travel.Weight.{compute_travel_duration_mono}

abbrev clock : SimulationService
clock = record { startup_realtime_ms = pos 0; world_seed_time_ms = pos 0; acceleration = pos 30 }

abbrev named : String → WorldNode
named id = record {
  id = id;
  name = id;
  node_type = region;
  parent_id = none;
  environmental_tags = [];
  travel_cost = pos 1;
  unlock_status = unlocked;
}

abbrev coast : WorldService
coast = record {
  nodes = ("hill", named "hill") ∷ ("port", named "port") ∷ [];
  edges =
      record {
        from_node_id = "hill";
        to_node_id = "port";
        travel_time_minutes = pos 5;
        currency_cost = pos 1;
        hazard_level = pos 8;
      }
      ∷ [];
}

-- The least index.
abbrev least : ℕ → ℕ → ℕ
least i n = 0

least_in_range : (i n : ℕ) → 1 ≤ n → least i n < n
least_in_range i n h = omega arith

abbrev trip : TravelJourney ℤ
trip = record {
  id = chosen "trip";
  character_id = "olga";
  from_node_id = "hill";
  to_node_id = "port";
  cargo = record { item_instance_id = "salt"; weight = pos 9 } ∷ [];
  status = in_progress;
  started_at_world_ms = pos 0;
  arrives_at_world_ms = pos 300000;
  hazard_log = [];
}

abbrev roads : TravelService ℤ
roads = record {
  journeys = (chosen "trip", trip) ∷ [];
  notifications = [];
  world = coast;
  simulation = clock;
  draws = 0;
  bus = new_bus;
}

abbrev setting_out : StartJourneyInput ℤ
setting_out = record {
  character_id = "olga";
  from_node_id = "hill";
  to_node_id = "port";
  cargo = [];
}

roads-trip : lookup (chosen "trip") roads.journeys ≡ some trip
unfolding lookup entity_beq
roads-trip = refl

clock-reached : reached_by clock (pos 300000) ≤ℤ pos 300000
unfolding reached_by ◌+ℤ◌ ◌-ℤ◌
clock-reached = omega arith

resolve_arrivals_ends_example :
    (j' : TravelJourney ℤ) × (lookup
        (chosen "trip")
        (resolve_arrivals least (pos 300000) roads).1.journeys
      ≡ some j')
    × (j'.status ≡ arrived)
resolve_arrivals_ends_example =
    resolve_arrivals_ends least (pos 300000) roads (chosen "trip") trip least_in_range (omega arith)
      roads-trip refl clock-reached

abbrev fresh : TravelService ℤ
fresh = record roads { journeys = [] }

run-IsSingle_example : IsSingle (
    run least
      ((pos 1, start setting_out) ∷ (pos 2, start setting_out) ∷ (pos 90000, resolve) ∷ [])
      fresh)
run-IsSingle_example = run-IsSingle least _ fresh (λ c. omega arith)

compute_travel_duration_mono_example :
    compute_travel_duration {W = ℤ} (pos 5) (pos 40)
    ≤ℤ compute_travel_duration {W = ℤ} (pos 5) (pos 90)
compute_travel_duration_mono_example =
    compute_travel_duration_mono whole_double-IsRounded (pos 5) (pos 40) (pos 90) (omega arith) refl
