-- ===== src/Simulation.antt =====
-- server/src/modules/simulation/simulation.service.ts: the world clock. Times are whole milliseconds.
-- The texts of `getWorldSnapshot` are left out: they only print the two times.
pub mod Clock
mod Tests
use mmorpg_design_documents.Base.{ℕ, none, some, Option}
use mmorpg_design_documents.Base.Int.{ℤ, pos, ◌+ℤ◌, ◌-ℤ◌, ◌*ℤ◌, floor_div}

pub record SimulationConfig : Type 0 where
  pub world_seed_ms : Option ℤ
  pub acceleration : Option ℤ

pub record SimulationService : Type 0 where
  pub startup_realtime_ms : ℤ
  pub world_seed_time_ms : ℤ
  pub acceleration : ℤ

-- `24 * 60 * 60 * 1000`
abbrev pub game_day_ms : ℕ
game_day_ms = 86400000

-- `Date.UTC(2200, 0, 1, 0, 0, 0)`
abbrev default_seed_ms : ℤ
default_seed_ms = pos 7258118400000

-- The constructor, called at the time `now`.
pub new_simulation : ℤ → SimulationConfig → SimulationService
new_simulation now config = record {
  startup_realtime_ms = now;
  world_seed_time_ms = elim config.world_seed_ms [ none ↦ default_seed_ms | some seed ↦ seed ];
  acceleration = elim config.acceleration [ none ↦ pos 30 | some a ↦ a ];
}

unfoldable pub get_world_time_ms : SimulationService → ℤ → ℤ
get_world_time_ms s now = s.world_seed_time_ms +ℤ (now -ℤ s.startup_realtime_ms) *ℤ s.acceleration

unfoldable pub get_game_day_number : SimulationService → ℤ → ℤ
unfolding get_world_time_ms
get_game_day_number s now = floor_div (get_world_time_ms s now -ℤ s.world_seed_time_ms) game_day_ms
