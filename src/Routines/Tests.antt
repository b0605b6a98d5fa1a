-- ===== src/Routines/Tests.antt =====
-- Runs of the routine service at concrete inputs.
use mmorpg_design_documents.Base.{◌≡◌, [], ◌∷◌, arith}
use mmorpg_design_documents.Base.Int.{pos, ◌+ℤ◌, ◌-ℤ◌, ◌*ℤ◌, ◌≤ℤ◌}
use mmorpg_design_documents.Lifecycle.{adult}
use mmorpg_design_documents.Simulation.{SimulationService}
use mmorpg_design_documents.Routines.{
  CharacterOfflineState, cycle, sort_by_priority, start_work, run_routines,
  process_offline_routines, times_total,
}
use mmorpg_design_documents.Routines.Loop.{run_routines-enough}
use mmorpg_design_documents.Routines.Durations.{total_time}
use mmorpg_design_documents.Routines.Totals.{twice, six_times, process_offline_routines-totals}

abbrev clock : SimulationService
clock = record { startup_realtime_ms = pos 0; world_seed_time_ms = pos 0; acceleration = pos 30 }

-- A forager away for an hour, which is 30 hours of the world.
abbrev forager : CharacterOfflineState
forager = record {
  character_id = "olga";
  offline_since_ms = pos 0;
  routines =
      record { action_type = "rest"; priority = pos 2 }
      ∷ record { action_type = "forage"; priority = pos 1 }
      ∷ [];
  life_stage = adult;
  needs = record { hunger = pos 90; fatigue = pos 80 };
}

run_routines-enough_example :
    cycle adult (pos 108000000) (sort_by_priority forager.routines) 50 (start_work forager.needs)
    ≡ run_routines forager (pos 108000000)
run_routines-enough_example =
    run_routines-enough forager (pos 108000000) 50 (omega arith) (omega arith)

went_on : pos 0 ≤ℤ (pos 3600000 -ℤ forager.offline_since_ms) *ℤ clock.acceleration
unfolding ◌-ℤ◌ ◌*ℤ◌
went_on = omega arith

process_offline_routines-totals_example :
    let report = process_offline_routines clock forager (pos 3600000) in
    (total_time report.actions_completed ≤ℤ (pos 3600000 -ℤ pos 0) *ℤ pos 30)
    × (report.total_xp_earned ≡ six_times (times_total report.actions_completed))
    × (report.hunger_delta +ℤ twice (times_total report.actions_completed) ≡ pos 0)
    × (report.fatigue_delta +ℤ twice (times_total report.actions_completed) ≡ pos 0)
process_offline_routines-totals_example =
    process_offline_routines-totals clock forager (pos 3600000) went_on
