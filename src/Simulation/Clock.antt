-- ===== src/Simulation/Clock.antt =====
-- server/src/modules/simulation/simulation.service.ts: the days that the clock counts.
use mmorpg_design_documents.Base.{ℕ, zero, suc, ◌+◌, ◌*◌, ◌≤◌, ◌≡◌, arith}
use mmorpg_design_documents.Base.Int.{
  ℤ, pos, negsuc, ◌+ℤ◌, ◌-ℤ◌, ◌*ℤ◌, ◌≤ℤ◌, floor_div, int_laws, pos_part, neg_part,
}
use mmorpg_design_documents.Simulation.{
  SimulationService, game_day_ms, get_world_time_ms, get_game_day_number,
}

floor_div_mono : (x y : ℤ) → x ≤ℤ y → floor_div x game_day_ms ≤ℤ floor_div y game_day_ms
unfolding floor_div
floor_div_mono (pos n) (pos m) h = omega arith
floor_div_mono (pos n) (negsuc m) h = absurd (omega arith)
floor_div_mono (negsuc n) (pos m) h = omega arith
floor_div_mono (negsuc n) (negsuc m) h = omega arith

mul_mono : (m n a : ℕ) → m ≤ n → m * a ≤ n * a
mul_mono m n zero h = omega arith
mul_mono m n (suc a) h = omega (arith, mul_mono m n a h)

times_parts :
    (x : ℤ) (a : ℕ)
    → pos_part (x *ℤ pos a) + neg_part x * a ≡ neg_part (x *ℤ pos a) + pos_part x * a
unfolding ◌*ℤ◌
times_parts x a = ground arith

scale_mono : (x y : ℤ) (a : ℕ) → x ≤ℤ y → x *ℤ pos a ≤ℤ y *ℤ pos a
scale_mono x y a h = grind (
  arith,
  times_parts x a,
  times_parts y a,
  mul_mono (pos_part x + neg_part y) (pos_part y + neg_part x) a h,
)

elapsed : (seed x : ℤ) → seed +ℤ x -ℤ seed ≡ x
elapsed seed x = omega int_laws

-- Where the clock does not run backwards, the day number never falls as time goes on.
pub get_game_day_number_mono :
    (s : SimulationService) (a : ℕ) (now later : ℤ)
    → s.acceleration ≡ pos a
    → now ≤ℤ later
    → get_game_day_number s now ≤ℤ get_game_day_number s later
unfolding get_game_day_number get_world_time_ms
get_game_day_number_mono s a now later e h =
    rw
      (
        elapsed s.world_seed_time_ms ((now -ℤ s.startup_realtime_ms) *ℤ s.acceleration),
        elapsed s.world_seed_time_ms ((later -ℤ s.startup_realtime_ms) *ℤ s.acceleration),
        e,
      )
      (floor_div_mono _ _ (
        scale_mono (now -ℤ s.startup_realtime_ms) (later -ℤ s.startup_realtime_ms) a
          (omega int_laws)))
