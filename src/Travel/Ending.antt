-- ===== src/Travel/Ending.antt =====
-- server/src/modules/travel/travel.service.ts, `resolveArrivals`: every journey ends.
use mmorpg_design_documents.Base.{ℕ, ◌<◌, ◌≤◌, ◌≡◌, Bool, true, some, arith, subst, if◌then◌else◌}
use mmorpg_design_documents.Base.Int.{ℤ, pos, ◌+ℤ◌, ◌-ℤ◌, ◌*ℤ◌, ◌≤ℤ◌, leb_ℤ, pos_part, int_laws}
use mmorpg_design_documents.Base.Double.{int_mul_mono, int_mul-one}
use mmorpg_design_documents.Base.Key.{EntityId, entity_eq}
use mmorpg_design_documents.Base.Dict.{lookup}
use mmorpg_design_documents.Simulation.{SimulationService, get_world_time_ms}
use mmorpg_design_documents.Travel.{arrived, TravelJourney, TravelService, is_in_progress}
use mmorpg_design_documents.Travel.Resolution.{is_due, resolve_arrivals}
use mmorpg_design_documents.Travel.Arrivals.{Landed, resolve_arrivals-Resolved}

-- A time of the wall clock by which the world's clock has come to a time of the world.
unfoldable pub reached_by : SimulationService → ℤ → ℤ
reached_by s t = s.startup_realtime_ms +ℤ pos (pos_part (t -ℤ s.world_seed_time_ms))

reached_by_lem :
    (s : SimulationService) (t now : ℤ)
    → pos 1 ≤ℤ s.acceleration
    → reached_by s t ≤ℤ now
    → t ≤ℤ get_world_time_ms s now
unfolding reached_by get_world_time_ms
reached_by_lem s t now fast h =
    let elapsed = now -ℤ s.startup_realtime_ms in
    let scaled : elapsed *ℤ pos 1 ≤ℤ elapsed *ℤ s.acceleration =
      int_mul_mono elapsed (pos 1) s.acceleration (omega int_laws) fast in
    omega (int_laws, subst (λ x. x ≤ℤ elapsed *ℤ s.acceleration) (int_mul-one elapsed) scaled)

-- Every journey under way ends: where the clock does not stop, it has arrived after any tick from
-- a certain time on.
pub resolve_arrivals_ends :
    {W : Type 0} (random : ℕ → ℕ → ℕ) (now : ℤ) (s : TravelService W) (k : EntityId)
    (j : TravelJourney W)
    → ((i n : ℕ) → 1 ≤ n → random i n < n)
    → pos 1 ≤ℤ s.simulation.acceleration
    → lookup k s.journeys ≡ some j
    → is_in_progress j ≡ true
    → reached_by s.simulation j.arrives_at_world_ms ≤ℤ now
    → (j' : TravelJourney W) × (lookup k (resolve_arrivals random now s).1.journeys ≡ some j')
      × (j'.status ≡ arrived)
unfolding is_due
resolve_arrivals_ends {W} random now s k j in_range fast found going late =
    let (j', here, outcome) = resolve_arrivals-Resolved random now s k j in_range found in
    let landed : Landed s.world j j' =
      subst (λ (b : Bool). if b then Landed s.world j j' else (j' ≡ j)) due outcome in
    (j', here, landed.on_time)
  where
    to_leb : (a b : ℤ) → a ≤ℤ b → leb_ℤ a b ≡ true
    to_leb a b h = ground arith

    due : is_due (get_world_time_ms s.simulation now) j ≡ true
    due =
        rw (is_due, going)
          (to_leb j.arrives_at_world_ms (get_world_time_ms s.simulation now)
            (reached_by_lem s.simulation j.arrives_at_world_ms now fast late))
