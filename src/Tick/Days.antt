-- ===== src/Tick/Days.antt =====
-- server/src/modules/simulation/tick.service.ts: what a day brings, and that it comes once.
use mmorpg_design_documents.Base.{
  ℕ, ◌≡◌, refl, ◌∙◌, sym, ap, inl, inr, Bool, true, false, not, ◌&&◌, Option, none, some,
  Option-cases, String, arith, if_elim, if◌then◌else◌,
}
use mmorpg_design_documents.Base.Int.{ℤ, pos, int_eq, leb_ℤ}
use mmorpg_design_documents.Base.Key.{string_eq, entity_eq}
use mmorpg_design_documents.Base.Dict.{lookup}
use mmorpg_design_documents.Simulation.{SimulationService, get_game_day_number}
use mmorpg_design_documents.Lifecycle.{
  LifecycleService, CharacterRecord, is_protected, stage_on, get_character,
  process_character_lifecycles,
}
use mmorpg_design_documents.Lifecycle.Daily.{lookup-process}
use mmorpg_design_documents.Family.{FamilyRecord, FamilyService, provided, resolve_family_support}
use mmorpg_design_documents.Family.Support.{supported, lookup-resolve}
use mmorpg_design_documents.Health.{HealthService}
use mmorpg_design_documents.Tick.{
  TickService, stage_from, supported_by, run_actions, run_market, run_travel, run_lifecycles,
  run_families, run_needs, run_health, complete_day, drive, run_day, day_changed, count_tick, tick,
}

same_day : (day : ℤ) (b : Bool) → (not (int_eq day day) && b) ≡ false
same_day day b = ground arith

module _ {W : Type 0} where
  -- What only a new day changes, and what tells a new day.
  abbrev pub daily :
      TickService W
      → Option LifecycleService
        × Option FamilyService
        × Option HealthService
        × SimulationService
        × ℤ
  daily s = (s.lifecycle_service, s.family_service, s.health_service, s.simulation, s.last_game_day)

  run_market-daily :
      (now : ℕ) (day : ℤ) (s : TickService W) → daily (run_market now day s) ≡ daily s
  unfolding run_market
  run_market-daily now day s = elim (Option-cases s.order_matcher) [
    | inl e ↦ rw (run_market, e) refl
    | inr (m, e) ↦ rw (run_market, e) refl
  ]

  run_travel-daily :
      (random : ℕ → ℕ → ℕ) (now_ms : ℤ) (s : TickService W)
      → daily (run_travel random now_ms s) ≡ daily s
  unfolding run_travel
  run_travel-daily random now_ms s = elim (Option-cases s.travel_resolver) [
    | inl e ↦ rw (run_travel, e) refl
    | inr (t, e) ↦ rw (run_travel, e) refl
  ]

  drive-daily :
      (random : ℕ → ℕ → ℕ) (now : ℕ) (now_ms : ℤ) (s : TickService W)
      → daily (drive random now now_ms s) ≡ daily s
  unfolding drive run_actions
  drive-daily random now now_ms s = run_travel-daily random now_ms _ ∙ run_market-daily now _ _

  -- The day and the clock that the loop holds.
  abbrev dates : TickService W → SimulationService × ℤ
  dates s = (s.simulation, s.last_game_day)

  run_lifecycles-dates :
      (now : ℕ) (day : ℤ) (s : TickService W) → dates (run_lifecycles now day s) ≡ dates s
  unfolding run_lifecycles
  run_lifecycles-dates now day s = elim (Option-cases s.lifecycle_service) [
    | inl e ↦ rw (run_lifecycles, e) refl
    | inr (lc, e) ↦ rw (run_lifecycles, e) refl
  ]

  run_families-dates :
      (now : ℕ) (day : ℤ) (s : TickService W) → dates (run_families now day s) ≡ dates s
  unfolding run_families
  run_families-dates now day s = elim (Option-cases s.family_service) [
    | inl e ↦ rw (run_families, e) refl
    | inr (f, e) ↦ rw (run_families, e) refl
  ]

  run_needs-kept : (now : ℕ) (day : ℤ) (s : TickService W) → daily (run_needs now day s) ≡ daily s
  unfolding run_needs
  run_needs-kept now day s = elim (Option-cases s.needs_service) [
    | inl e ↦ rw (run_needs, e) refl
    | inr (store, e) ↦ rw (run_needs, e) refl
  ]

  run_health-kept :
      (now : ℕ) (day : ℤ) (s : TickService W)
      → (dates (run_health now day s) ≡ dates s)
        × ((run_health now day s).lifecycle_service ≡ s.lifecycle_service)
        × ((run_health now day s).family_service ≡ s.family_service)
  unfolding run_health
  run_health-kept now day s = elim (Option-cases s.health_service) [
    | inl e ↦ (rw (run_health, e) refl, rw (run_health, e) refl, rw (run_health, e) refl)
    | inr (h, e) ↦ (rw (run_health, e) refl, rw (run_health, e) refl, rw (run_health, e) refl)
  ]

  run_day-dates :
      (now : ℕ) (now_ms day : ℤ) (s : TickService W) → dates (run_day now now_ms day s) ≡ dates s
  unfolding run_day complete_day
  run_day-dates now now_ms day s =
      (run_health-kept now day _).0
      ∙ ap (λ d. (d.3, d.4)) (run_needs-kept now day _)
      ∙ run_families-dates now day _
      ∙ run_lifecycles-dates now day s

  -- A tick of a day that has begun, or the first tick of all, leaves these as they are.
  tick-daily :
      (random : ℕ → ℕ → ℕ) (now : ℕ) (now_ms took : ℤ) (s : TickService W)
      → let day = get_game_day_number s.simulation now_ms in
        day_changed day s ≡ false
        → daily (tick random now now_ms took s)
          ≡ (s.lifecycle_service, s.family_service, s.health_service, s.simulation, day)
  unfolding tick count_tick
  tick-daily random now now_ms took s h =
      let kept = drive-daily random now now_ms s in
      let quiet : day_changed day (drive random now now_ms s) ≡ false =
        ap (λ d. not (int_eq day d.4) && leb_ℤ (pos 0) d.4) kept ∙ h in
      rw quiet (ap (λ d. (d.0, d.1, d.2, d.3, day)) kept)
    where
      day : ℤ
      day = get_game_day_number s.simulation now_ms

  -- After a tick the loop holds its day.
  tick-dates :
      (random : ℕ → ℕ → ℕ) (now : ℕ) (now_ms took : ℤ) (s : TickService W)
      → dates (tick random now now_ms took s)
        ≡ (s.simulation, get_game_day_number s.simulation now_ms)
  unfolding tick count_tick
  tick-dates random now now_ms took s =
      if_elim (λ (x : TickService W). dates x ≡ dates dated) (day_changed day driven) _ _
        (λ _. run_day-dates now now_ms day dated) (λ _. refl)
      ∙ ap (λ d. (d.3, day)) (drive-daily random now now_ms s)
    where
      day : ℤ
      day = get_game_day_number s.simulation now_ms

      driven : TickService W
      driven = drive random now now_ms s

      dated : TickService W
      dated = record driven { last_game_day = day }

  -- The daily passes come once a day: after any tick, a later one on the same game day leaves the
  -- characters' records, the families and the conditions as they are.
  pub tick-tick :
      (random : ℕ → ℕ → ℕ) (now later : ℕ) (now_ms later_ms took took' : ℤ) (s : TickService W)
      → get_game_day_number s.simulation later_ms ≡ get_game_day_number s.simulation now_ms
      → let once = tick random now now_ms took s in
        let twice = tick random later later_ms took' once in
        (twice.lifecycle_service ≡ once.lifecycle_service)
        × (twice.family_service ≡ once.family_service)
        × (twice.health_service ≡ once.health_service)
  tick-tick random now later now_ms later_ms took took' s e =
      (ap (λ d. d.0) same, ap (λ d. d.1) same, ap (λ d. d.2) same)
    where
      once : TickService W
      once = tick random now now_ms took s

      day : ℤ
      day = get_game_day_number s.simulation now_ms

      held : dates once ≡ (s.simulation, day)
      held = tick-dates random now now_ms took s

      again : get_game_day_number once.simulation later_ms ≡ once.last_game_day
      again = ap (λ d. get_game_day_number d.0 later_ms) held ∙ e ∙ sym (ap (λ d. d.1) held)

      unchanged : day_changed (get_game_day_number once.simulation later_ms) once ≡ false
      unchanged = ap (λ d. day_changed d once) again ∙ same_day once.last_game_day _

      same : daily (tick random later later_ms took' once) ≡ (
        once.lifecycle_service,
        once.family_service,
        once.health_service,
        once.simulation,
        get_game_day_number once.simulation later_ms,
      )
      same = tick-daily random later later_ms took' once unchanged

  run_lifecycles-some :
      (now : ℕ) (day : ℤ) (s : TickService W) (lc : LifecycleService)
      → s.lifecycle_service ≡ some lc
      → (run_lifecycles now day s).lifecycle_service
        ≡ some (process_character_lifecycles now day (record lc { bus = s.bus })).1
  unfolding run_lifecycles
  run_lifecycles-some now day s lc e = rw (run_lifecycles, e) refl

  run_lifecycles-family_service :
      (now : ℕ) (day : ℤ) (s : TickService W)
      → (run_lifecycles now day s).family_service ≡ s.family_service
  unfolding run_lifecycles
  run_lifecycles-family_service now day s = elim (Option-cases s.lifecycle_service) [
    | inl e ↦ rw (run_lifecycles, e) refl
    | inr (lc, e) ↦ rw (run_lifecycles, e) refl
  ]

  run_families-some :
      (now : ℕ) (day : ℤ) (s : TickService W) (lc : LifecycleService) (f : FamilyService)
      → s.lifecycle_service ≡ some lc
      → s.family_service ≡ some f
      → (run_families now day s).family_service
        ≡ some (resolve_family_support now day (stage_from lc) f)
  unfolding run_families
  run_families-some now day s lc f e g =
      rw (run_families, g) (ap (λ o. some (supported_by now day o f)) e)

  -- The families after the passes of a day, by the stages after the lifecycle pass.
  run_day-families :
      (now : ℕ) (now_ms day : ℤ) (s : TickService W) (lc : LifecycleService) (f : FamilyService)
      → s.lifecycle_service ≡ some lc
      → s.family_service ≡ some f
      → let grown = (process_character_lifecycles now day (record lc { bus = s.bus })).1 in
        (run_day now now_ms day s).family_service
        ≡ some (resolve_family_support now day (stage_from grown) f)
  unfolding run_day complete_day
  run_day-families now now_ms day s lc f e g =
      (run_health-kept now day _).2
      ∙ ap (λ d. d.1) (run_needs-kept now day _)
      ∙ run_families-some now day (run_lifecycles now day s) _ f
          (run_lifecycles-some now day s lc e) (run_lifecycles-family_service now day s ∙ g)

  -- On the tick that begins a day, the household of a registered character is provided for exactly
  -- where the stage that the character has by its age on the new day is a protected one, and else
  -- it stays as it was: the stages are brought up to date before the families are supported.
  pub tick-households :
      (random : ℕ → ℕ → ℕ) (now : ℕ) (now_ms took : ℤ) (s : TickService W) (lc : LifecycleService)
      (f : FamilyService) (c : String) (r : CharacterRecord) (h : FamilyRecord)
      → let day = get_game_day_number s.simulation now_ms in
        day_changed day s ≡ true
        → s.lifecycle_service ≡ some lc
        → s.family_service ≡ some f
        → lookup h.character_id lc.characters ≡ some r
        → lookup c f.families ≡ some h
        → (f' : FamilyService) × ((tick random now now_ms took s).family_service ≡ some f')
          × (lookup c f'.families
              ≡ some (if is_protected (stage_on day r) then provided day h else h))
  unfolding tick count_tick get_character
  tick-households random now now_ms took s lc f c r h new e g found home = (
    resolve_family_support now day (stage_from grown) f,
    rw begun (
        run_day-families now now_ms day dated lc f (ap (λ d. d.0) kept ∙ e)
          (ap (λ d. d.1) kept ∙ g)),
    (lookup-resolve now day (stage_from grown) f c).0
        ∙ ap (λ o. elim o [ none ↦ none | some x ↦ some (supported day (stage_from grown) x) ]) home
        ∙ ap
            (λ o.
              some (elim o [ none ↦ h | some t ↦ if is_protected t then provided day h else h ]))
            aging,
  )
    where
      day : ℤ
      day = get_game_day_number s.simulation now_ms

      driven : TickService W
      driven = drive random now now_ms s

      dated : TickService W
      dated = record driven { last_game_day = day }

      kept : daily driven ≡ daily s
      kept = drive-daily random now now_ms s

      begun : day_changed day driven ≡ true
      begun = ap (λ d. not (int_eq day d.4) && leb_ℤ (pos 0) d.4) kept ∙ new

      grown : LifecycleService
      grown = (process_character_lifecycles now day (record lc { bus = driven.bus })).1

      aging : stage_from grown h.character_id ≡ some (stage_on day r)
      aging =
          ap (λ o. elim o [ none ↦ none | some x ↦ some x.current_stage ])
            (lookup-process now day (record lc { bus = driven.bus }) h.character_id r found)
