-- ===== src/Tick/Soundness.antt =====
-- server/src/modules/simulation/tick.service.ts: the invariants of the services through the ticks.
use mmorpg_design_documents.Base.{
  ℕ, ◌≡◌, refl, ◌∙◌, sym, ap, subst, inl, inr, Option, none, some, Option-cases, if_elim,
}
use mmorpg_design_documents.Base.Int.{ℤ, pos}
use mmorpg_design_documents.Events.{DomainEventBus}
use mmorpg_design_documents.Simulation.{get_game_day_number}
use mmorpg_design_documents.Actions.{ActionQueue}
use mmorpg_design_documents.Base.Dict.{Every}
use mmorpg_design_documents.Actions.Timing.{Timed, IsTimed, tick_actions-IsTimed}
use mmorpg_design_documents.Market.{MarketService}
use mmorpg_design_documents.Market.Funds.{money, money-match_orders}
use mmorpg_design_documents.Market.Soundness.{IsSound, match_orders-IsSound}
use mmorpg_design_documents.Travel.{TravelService}
use mmorpg_design_documents.Travel.Journeys.{IsSingle, resolve_arrivals-IsSingle}
use mmorpg_design_documents.Tick.{
  TickService, run_actions, run_market, run_travel, run_lifecycles, run_families, run_needs,
  run_health, complete_day, drive, run_day, day_changed, count_tick, tick,
}

abbrev pub Holds {ℓ κ} : {A : Type ℓ} → (A → Type κ) → Option A → Type κ
Holds P none = Unit
Holds P (some x) = P x

-- The money of the market that the loop drives.
abbrev pub funds : Option MarketService → ℤ
funds none = pos 0
funds (some m) = money m

-- The market is sound, the actions are timed, and no character is on two journeys.
pub record IsHealthy {W : Type 0} (s : TickService W) : Type 0 where
  pub market : Holds IsSound s.order_matcher
  pub actions : IsTimed s.actions
  pub travel : Holds IsSingle s.travel_resolver

-- What the invariants are about.
abbrev Parts : Type 0 → Type 0
Parts W = Option MarketService × ActionQueue × Option (TravelService W)

rebus-IsSound :
    (m : MarketService) (b : DomainEventBus) → IsSound m → IsSound (record m { bus = b })
rebus-IsSound m b h = record {
  balances = h.balances;
  listings = h.listings;
  orders = h.orders;
  history = h.history;
}

module _ {W : Type 0} where
  abbrev parts : TickService W → Parts W
  parts s = (s.order_matcher, s.actions.queue, s.travel_resolver)

  parts-IsHealthy : (s s' : TickService W) → parts s' ≡ parts s → IsHealthy s → IsHealthy s'
  parts-IsHealthy s s' e h = record {
    market = subst (λ (p : Parts W). Holds IsSound p.0) (sym e) h.market;
    actions = subst (λ (p : Parts W). Every Timed p.1) (sym e) h.actions;
    travel = subst (λ (p : Parts W). Holds IsSingle p.2) (sym e) h.travel;
  }

  run_lifecycles-parts :
      (now : ℕ) (day : ℤ) (s : TickService W) → parts (run_lifecycles now day s) ≡ parts s
  unfolding run_lifecycles
  run_lifecycles-parts now day s = elim (Option-cases s.lifecycle_service) [
    | inl e ↦ rw (run_lifecycles, e) refl
    | inr (lc, e) ↦ rw (run_lifecycles, e) refl
  ]

  run_families-parts :
      (now : ℕ) (day : ℤ) (s : TickService W) → parts (run_families now day s) ≡ parts s
  unfolding run_families
  run_families-parts now day s = elim (Option-cases s.family_service) [
    | inl e ↦ rw (run_families, e) refl
    | inr (f, e) ↦ rw (run_families, e) refl
  ]

  run_needs-parts : (now : ℕ) (day : ℤ) (s : TickService W) → parts (run_needs now day s) ≡ parts s
  unfolding run_needs
  run_needs-parts now day s = elim (Option-cases s.needs_service) [
    | inl e ↦ rw (run_needs, e) refl
    | inr (store, e) ↦ rw (run_needs, e) refl
  ]

  run_health-parts :
      (now : ℕ) (day : ℤ) (s : TickService W) → parts (run_health now day s) ≡ parts s
  unfolding run_health
  run_health-parts now day s = elim (Option-cases s.health_service) [
    | inl e ↦ rw (run_health, e) refl
    | inr (h, e) ↦ rw (run_health, e) refl
  ]

  -- A new day's work leaves the market, the actions and the journeys as they are.
  run_day-parts :
      (now : ℕ) (now_ms day : ℤ) (s : TickService W) → parts (run_day now now_ms day s) ≡ parts s
  unfolding run_day complete_day
  run_day-parts now now_ms day s =
      run_health-parts now day _
      ∙ run_needs-parts now day _
      ∙ run_families-parts now day _
      ∙ run_lifecycles-parts now day s

  run_actions-IsHealthy :
      (now_ms : ℤ) (s : TickService W) → IsHealthy s → IsHealthy (run_actions now_ms s)
  unfolding run_actions
  run_actions-IsHealthy now_ms s h = record {
    market = h.market;
    actions = tick_actions-IsTimed now_ms (record s.actions { bus = s.bus }) h.actions;
    travel = h.travel;
  }

  run_market-IsHealthy :
      (now : ℕ) (day : ℤ) (s : TickService W) → IsHealthy s → IsHealthy (run_market now day s)
  unfolding run_market
  run_market-IsHealthy now day s h = elim (Option-cases s.order_matcher) [
    | inl e ↦ rw (run_market, e) h
    | inr (m, e) ↦
        rw (run_market, e)
          (record {
            market =
                match_orders-IsSound now day (record m { bus = s.bus })
                  (rebus-IsSound m s.bus (subst (Holds IsSound) e h.market));
            actions = h.actions;
            travel = h.travel;
          })
  ]

  run_travel-IsHealthy :
      (random : ℕ → ℕ → ℕ) (now_ms : ℤ) (s : TickService W)
      → IsHealthy s
      → IsHealthy (run_travel random now_ms s)
  unfolding run_travel
  run_travel-IsHealthy random now_ms s h = elim (Option-cases s.travel_resolver) [
    | inl e ↦ rw (run_travel, e) h
    | inr (t, e) ↦
        rw (run_travel, e)
          (record {
            market = h.market;
            actions = h.actions;
            travel =
                resolve_arrivals-IsSingle random now_ms (record t { bus = s.bus })
                  (subst (Holds IsSingle) e h.travel);
          })
  ]

  drive-IsHealthy :
      (random : ℕ → ℕ → ℕ) (now : ℕ) (now_ms : ℤ) (s : TickService W)
      → IsHealthy s
      → IsHealthy (drive random now now_ms s)
  unfolding drive
  drive-IsHealthy random now now_ms s h = run_travel-IsHealthy random now_ms _ (
      run_market-IsHealthy now _ _
        (run_actions-IsHealthy now_ms started (parts-IsHealthy s started refl h)))
    where
      started : TickService W
      started = record s { current_game_day = get_game_day_number s.simulation now_ms }

  -- Whatever tick comes, the invariants that hold of the services before it hold after it.
  pub tick-IsHealthy :
      (random : ℕ → ℕ → ℕ) (now : ℕ) (now_ms took : ℤ) (s : TickService W)
      → IsHealthy s
      → IsHealthy (tick random now now_ms took s)
  unfolding tick count_tick
  tick-IsHealthy random now now_ms took s h =
      parts-IsHealthy dated _
        (if_elim (λ x. parts x ≡ parts dated) (day_changed day driven) _ _
          (λ _. run_day-parts now now_ms day dated) (λ _. refl))
        (parts-IsHealthy driven dated refl (drive-IsHealthy random now now_ms s h))
    where
      day : ℤ
      day = get_game_day_number s.simulation now_ms

      driven : TickService W
      driven = drive random now now_ms s

      dated : TickService W
      dated = record driven { last_game_day = day }

  run_market-funds :
      (now : ℕ) (day : ℤ) (s : TickService W)
      → funds (run_market now day s).order_matcher ≡ funds s.order_matcher
  unfolding run_market
  run_market-funds now day s = elim (Option-cases s.order_matcher) [
    | inl e ↦ rw (run_market, e) (ap funds e)
    | inr (m, e) ↦ rw (run_market, e) (money-match_orders now day (record m { bus = s.bus }))
  ]

  run_travel-order_matcher :
      (random : ℕ → ℕ → ℕ) (now_ms : ℤ) (s : TickService W)
      → (run_travel random now_ms s).order_matcher ≡ s.order_matcher
  unfolding run_travel
  run_travel-order_matcher random now_ms s = elim (Option-cases s.travel_resolver) [
    | inl e ↦ rw (run_travel, e) refl
    | inr (t, e) ↦ rw (run_travel, e) refl
  ]

  drive-funds :
      (random : ℕ → ℕ → ℕ) (now : ℕ) (now_ms : ℤ) (s : TickService W)
      → funds (drive random now now_ms s).order_matcher ≡ funds s.order_matcher
  unfolding drive run_actions
  drive-funds random now now_ms s =
      ap funds (run_travel-order_matcher random now_ms _) ∙ run_market-funds now _ _

  -- A tick makes and loses no money of the market that it drives.
  pub tick-funds :
      (random : ℕ → ℕ → ℕ) (now : ℕ) (now_ms took : ℤ) (s : TickService W)
      → funds (tick random now now_ms took s).order_matcher ≡ funds s.order_matcher
  unfolding tick count_tick
  tick-funds random now now_ms took s =
      if_elim (λ (x : TickService W). funds x.order_matcher ≡ funds driven.order_matcher)
        (day_changed day driven) _ _ (λ _. ap (λ p. funds p.0) (run_day-parts now now_ms day dated))
        (λ _. refl)
      ∙ drive-funds random now now_ms s
    where
      day : ℤ
      day = get_game_day_number s.simulation now_ms

      driven : TickService W
      driven = drive random now now_ms s

      dated : TickService W
      dated = record driven { last_game_day = day }
