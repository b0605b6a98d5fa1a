-- ===== src/Simulation/Tests.antt =====
-- Runs of the world clock at concrete inputs.
use mmorpg_design_documents.Base.{◌≡◌, refl}
use mmorpg_design_documents.Base.Int.{pos, ◌+ℤ◌, ◌-ℤ◌, ◌*ℤ◌, floor_div}
use mmorpg_design_documents.Simulation.{SimulationService, get_world_time_ms, get_game_day_number}

abbrev clock : SimulationService
clock = record { startup_realtime_ms = pos 5000; world_seed_time_ms = pos 7; acceleration = pos 30 }

-- At thirty times the speed, a day of the world takes 48 minutes.
first_days :
    (get_game_day_number clock (pos 2884999) ≡ pos 0)
    × (get_game_day_number clock (pos 2885000) ≡ pos 1)
unfolding get_game_day_number get_world_time_ms ◌+ℤ◌ ◌-ℤ◌ ◌*ℤ◌ floor_div
first_days = (refl, refl)
