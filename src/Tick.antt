-- ===== src/Tick.antt =====
-- server/src/modules/simulation/tick.service.ts: the loop that drives the other services. They share
-- one bus and one needs service: each call is given what the call before it left. `now` is the wall
-- clock that the services read, `now_ms` the `nowMs` of the tick, which the callers take from the
-- same clock; `took` is what `performance.now()` shows of the tick's duration.
pub mod Days
pub mod Soundness
mod Tests
use mmorpg_design_documents.Base.{
  ℕ, ◌+◌, Bool, true, false, ◌&&◌, not, Option, none, some, List, [], ◌∷◌, String, if◌then◌else◌,
}
use mmorpg_design_documents.Base.Int.{ℤ, pos, negsuc, ◌+ℤ◌, ◌-ℤ◌, leb_ℤ, int_eq, max_ℤ, pos_part}
use mmorpg_design_documents.Events.{DomainEventBus, publish, tick_completed}
use mmorpg_design_documents.Simulation.{SimulationService, get_world_time_ms, get_game_day_number}
use mmorpg_design_documents.Needs.{NeedsStore, decay_needs}
use mmorpg_design_documents.Actions.{ActionService, tick_actions}
use mmorpg_design_documents.Market.{MarketService}
use mmorpg_design_documents.Market.Trade.{match_orders}
use mmorpg_design_documents.Lifecycle.{
  LifeStage, LifecycleService, get_character, process_character_lifecycles,
}
use mmorpg_design_documents.Family.{FamilyService, resolve_family_support}
use mmorpg_design_documents.Travel.{TravelService}
use mmorpg_design_documents.Travel.Resolution.{resolve_arrivals}
use mmorpg_design_documents.Health.{HealthService, resolve_expired_conditions}

pub record TickMetrics : Type 0 where
  pub tick_count : ℕ
  pub last_tick_duration_ms : ℤ
  pub max_tick_duration_ms : ℤ
  pub current_game_day : ℤ
  pub drift_ms : ℤ

-- `interval` is the cadence of the timer that runs. `bus` is the one bus; the `bus` of a service is
-- what its last call left. `observed` is what the observability service was last given.
pub record TickService (W : Type 0) : Type 0 where
  pub simulation : SimulationService
  pub actions : ActionService
  pub order_matcher : Option MarketService
  pub travel_resolver : Option (TravelService W)
  pub lifecycle_service : Option LifecycleService
  pub family_service : Option FamilyService
  pub needs_service : Option NeedsStore
  pub health_service : Option HealthService
  pub bus : DomainEventBus
  pub interval : Option ℤ
  pub last_game_day : ℤ
  pub tick_count : ℕ
  pub last_tick_duration_ms : ℤ
  pub max_tick_duration_ms : ℤ
  pub current_game_day : ℤ
  pub drift_ms : ℤ
  pub last_tick_expected_ms : ℤ
  pub observed : Option TickMetrics

-- One holder's view of the needs after the other has changed them: the same store, where it has one.
abbrev pub shared : Option NeedsStore → Option NeedsStore → Option NeedsStore
shared none changed = none
shared (some old) none = some old
shared (some old) (some new) = some new

-- `lc.getCharacter(characterId)?.currentStage`
abbrev pub stage_from : LifecycleService → String → Option LifeStage
stage_from lc id = elim (get_character id lc) [ none ↦ none | some r ↦ some r.current_stage ]

-- The families, with the stages that the characters have by now.
abbrev pub supported_by : ℕ → ℤ → Option LifecycleService → FamilyService → FamilyService
supported_by now day none f = f
supported_by now day (some lc) f = resolve_family_support now day (stage_from lc) f

module _ {W : Type 0} where
  abbrev pub new_tick : SimulationService → ActionService → DomainEventBus → TickService W
  new_tick simulation actions bus = record {
    simulation = simulation;
    actions = actions;
    order_matcher = none;
    travel_resolver = none;
    lifecycle_service = none;
    family_service = none;
    needs_service = none;
    health_service = none;
    bus = bus;
    interval = none;
    last_game_day = negsuc 0;
    tick_count = 0;
    last_tick_duration_ms = pos 0;
    max_tick_duration_ms = pos 0;
    current_game_day = pos 0;
    drift_ms = pos 0;
    last_tick_expected_ms = pos 0;
    observed = none;
  }

  pub set_lifecycle_service : LifecycleService → TickService W → TickService W
  set_lifecycle_service service s = record s { lifecycle_service = some service }

  pub set_family_service : FamilyService → TickService W → TickService W
  set_family_service service s = record s { family_service = some service }

  -- The actions, if they have a needs service, have the same one.
  pub set_needs_service : NeedsStore → TickService W → TickService W
  set_needs_service service s = record s { needs_service = some service }

  pub set_health_service : HealthService → TickService W → TickService W
  set_health_service service s = record s { health_service = some service }

  pub set_order_matcher : MarketService → TickService W → TickService W
  set_order_matcher matcher s = record s { order_matcher = some matcher }

  pub set_travel_resolver : TravelService W → TickService W → TickService W
  set_travel_resolver resolver s = record s { travel_resolver = some resolver }

  pub stop_loop : TickService W → TickService W
  stop_loop s = record s { interval = none }

  pub start_loop : ℤ → ℤ → TickService W → TickService W
  unfolding stop_loop
  start_loop now interval_ms s = record (stop_loop s) {
    last_tick_expected_ms = now;
    interval = some interval_ms;
  }

  -- Where the injected services are there; the cadence is two seconds.
  pub on_module_init : ℤ → TickService W → TickService W
  unfolding start_loop
  on_module_init now s = start_loop now (pos 2000) s

  pub on_module_destroy : TickService W → TickService W
  unfolding stop_loop
  on_module_destroy s = stop_loop s

  abbrev pub metrics : TickService W → TickMetrics
  metrics s = record {
    tick_count = s.tick_count;
    last_tick_duration_ms = s.last_tick_duration_ms;
    max_tick_duration_ms = s.max_tick_duration_ms;
    current_game_day = s.current_game_day;
    drift_ms = s.drift_ms;
  }

  -- `gameDay !== this.lastGameDay && this.lastGameDay >= 0`
  abbrev pub day_changed : ℤ → TickService W → Bool
  day_changed day s = not (int_eq day s.last_game_day) && leb_ℤ (pos 0) s.last_game_day

  pub run_actions : ℤ → TickService W → TickService W
  run_actions now_ms s =
      let after = (tick_actions now_ms (record s.actions { bus = s.bus })).1 in
      record s {
        actions = after;
        needs_service = shared s.needs_service after.needs_service;
        bus = after.bus;
      }

  pub run_market : ℕ → ℤ → TickService W → TickService W
  run_market now day s = elim s.order_matcher [
    | none ↦ s
    | some m ↦
        let after = (match_orders now day (record m { bus = s.bus })).market in
        record s { order_matcher = some after; bus = after.bus }
  ]

  pub run_travel : (ℕ → ℕ → ℕ) → ℤ → TickService W → TickService W
  run_travel random now_ms s = elim s.travel_resolver [
    | none ↦ s
    | some t ↦
        let after = (resolve_arrivals random now_ms (record t { bus = s.bus })).1 in
        record s { travel_resolver = some after; bus = after.bus }
  ]

  pub run_lifecycles : ℕ → ℤ → TickService W → TickService W
  run_lifecycles now day s = elim s.lifecycle_service [
    | none ↦ s
    | some lc ↦
        let after = (process_character_lifecycles now day (record lc { bus = s.bus })).1 in
        record s { lifecycle_service = some after; bus = after.bus }
  ]

  pub run_families : ℕ → ℤ → TickService W → TickService W
  run_families now day s = elim s.family_service [
    | none ↦ s
    | some f ↦ record s { family_service = some (supported_by now day s.lifecycle_service f) }
  ]

  pub run_needs : ℕ → ℤ → TickService W → TickService W
  run_needs now day s = elim s.needs_service [
    | none ↦ s
    | some store ↦
        let (count, store', bus) = decay_needs now day store s.bus in
        record s {
          needs_service = some store';
          actions = record s.actions {
            needs_service = shared s.actions.needs_service (some store');
          };
          bus = bus;
        }
  ]

  pub run_health : ℕ → ℤ → TickService W → TickService W
  run_health now day s = elim s.health_service [
    | none ↦ s
    | some h ↦
        let after = (resolve_expired_conditions now day (record h { bus = s.bus })).1 in
        record s { health_service = some after; bus = after.bus }
  ]

  pub complete_day : ℕ → ℤ → ℤ → TickService W → TickService W
  complete_day now now_ms day s =
      let event = tick_completed (record {
        game_day = day;
        world_utc = get_world_time_ms s.simulation now_ms;
        realtime_utc = now_ms;
        drift_ms = s.drift_ms;
      }) in
      record s { bus = publish now (pos_part now_ms) event s.bus }

  -- What a new day brings, in its order.
  pub run_day : ℕ → ℤ → ℤ → TickService W → TickService W
  unfolding run_lifecycles run_families run_needs run_health complete_day
  run_day now now_ms day s =
      complete_day now now_ms day
        (run_health now day (run_needs now day (run_families now day (run_lifecycles now day s))))

  pub count_tick : ℤ → ℤ → TickService W → TickService W
  count_tick now_ms took s =
      let counted : TickService W = record s {
        tick_count = s.tick_count + 1;
        last_tick_duration_ms = took;
        max_tick_duration_ms = max_ℤ s.max_tick_duration_ms took;
        drift_ms = now_ms -ℤ s.last_tick_expected_ms;
      } in
      record counted { observed = some (metrics counted) }

  -- What every tick does, whatever the day.
  pub drive : (ℕ → ℕ → ℕ) → ℕ → ℤ → TickService W → TickService W
  unfolding run_actions run_market run_travel
  drive random now now_ms s =
      let day = get_game_day_number s.simulation now_ms in
      run_travel random now_ms
        (run_market now day (run_actions now_ms (record s { current_game_day = day })))

  -- `tick(nowMs)`, whose injected services are all there.
  pub tick : (ℕ → ℕ → ℕ) → ℕ → ℤ → ℤ → TickService W → TickService W
  unfolding drive run_day count_tick
  tick random now now_ms took s =
      let day = get_game_day_number s.simulation now_ms in
      let driven = drive random now now_ms s in
      let dated : TickService W = record driven { last_game_day = day } in
      count_tick now_ms took
        (if day_changed day driven then run_day now now_ms day dated else dated)

  -- The timer's callback.
  pub fire : (ℕ → ℕ → ℕ) → ℕ → ℤ → ℤ → TickService W → TickService W
  unfolding tick
  fire random now now_ms took s = elim s.interval [
    | none ↦ s
    | some interval_ms ↦
        tick random now now_ms took
          (record s { last_tick_expected_ms = s.last_tick_expected_ms +ℤ interval_ms })
  ]
