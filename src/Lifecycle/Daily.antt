-- ===== src/Lifecycle/Daily.antt =====
-- server/src/modules/characters/lifecycle/lifecycle.service.ts: what the daily pass does.
use mathlib.Core.List.{append_assoc, append-nil, map-append}
use mmorpg_design_documents.Base.{
  ℕ, ◌≡◌, refl, ◌∙◌, sym, ap, inl, inr, Bool, true, false, ◌&&◌, Bool-cases, some, List, [], ◌∷◌,
  ◌++◌, map, String, arith, if◌then◌else◌, ltb,
}
use mmorpg_design_documents.Base.Int.{ℤ, ◌≤ℤ◌}
use mmorpg_design_documents.Base.Key.{string_eq, ◌==◌}
use mmorpg_design_documents.Base.Dict.{Dict, lookup, map_values, lookup-map_values}
use mmorpg_design_documents.Base.Lists.{any}
use mmorpg_design_documents.Events.{
  DomainEvent, DomainEventBus, Payload, publish, LifeStageTransitionPayload, life_stage_transition,
}
use mmorpg_design_documents.Lifecycle.{
  LifeStage, same_stage, dangerous_actions, CharacterRecord, LifecycleService, stage_on,
  transition_of, process_each, process_character_lifecycles, enforce_stage_restrictions,
}
use mmorpg_design_documents.Lifecycle.Stages.{years, is_protected-stage_on}

same_stage-eq : (a b : LifeStage) → same_stage a b ≡ true → a ≡ b
same_stage-eq a b h = ground arith

same_stage_refl : (a : LifeStage) → same_stage a a ≡ true
same_stage_refl a = ground arith

-- The record with the stage that it ought to have on a day.
abbrev pub aged : ℤ → CharacterRecord → CharacterRecord
aged day r = record r { current_stage = stage_on day r }

abbrev changes : ℤ → CharacterRecord → Bool
changes day r = if same_stage (stage_on day r) r.current_stage then false else true

aged-if : (day : ℤ) (r : CharacterRecord) → (if changes day r then aged day r else r) ≡ aged day r
aged-if day r = elim (Bool-cases (same_stage (stage_on day r) r.current_stage)) [
  | inl same ↦ rw same (
      ap (λ (t : LifeStage). record r { current_stage = t })
        (sym (same_stage-eq (stage_on day r) r.current_stage same)))
  | inr other ↦ rw other
]

-- The bus once one record is done.
abbrev bus_after : ℕ → ℤ → CharacterRecord → DomainEventBus → DomainEventBus
bus_after now day r bus =
    if changes day r then publish now now (life_stage_transition (transition_of day r)) bus else bus

process_each-aged :
    (now : ℕ) (day : ℤ) (d : Dict String CharacterRecord) (bus : DomainEventBus)
    → (process_each now day d bus).characters ≡ map_values (aged day) d
unfolding process_each
process_each-aged now day [] bus = refl
process_each-aged now day (e ∷ d) bus =
    λ i. (e.0, aged-if day e.1 i) ∷ process_each-aged now day d (bus_after now day e.1 bus) i

-- After the daily pass every character has the stage of its age on that day.
pub lookup-process :
    (now : ℕ) (day : ℤ) (s : LifecycleService) (c : String) (r : CharacterRecord)
    → lookup c s.characters ≡ some r
    → lookup c (process_character_lifecycles now day s).1.characters ≡ some (aged day r)
unfolding process_character_lifecycles
lookup-process now day s c r h =
    rw
      (process_each-aged now day s.characters s.bus, lookup-map_values c (aged day) s.characters, h)

-- The same as the pass returns: a transition for each record whose stage was another.
abbrev pub expected : ℤ → Dict String CharacterRecord → List LifeStageTransitionPayload
expected day [] = []
expected day (e ∷ d) =
    let rest = expected day d in if changes day e.1 then transition_of day e.1 ∷ rest else rest

abbrev pub payloads : DomainEventBus → List Payload
payloads bus = map (λ (e : DomainEvent). e.payload) bus.emitted

payloads-publish :
    (now : ℕ) (p : Payload) (bus : DomainEventBus)
    → payloads (publish now now p bus) ≡ payloads bus ++ p ∷ []
unfolding publish
payloads-publish now p bus = map-append _ _ _

process_each-transitions :
    (now : ℕ) (day : ℤ) (d : Dict String CharacterRecord) (bus : DomainEventBus)
    → ((process_each now day d bus).transitions ≡ expected day d)
      × (payloads (process_each now day d bus).bus
          ≡ payloads bus ++ map life_stage_transition (expected day d))
unfolding process_each
process_each-transitions now day [] bus = (refl, sym (append-nil _))
process_each-transitions now day (e ∷ d) bus = elim (Bool-cases (changes day e.1)) [
  | inl changed ↦
      let rest =
        process_each-transitions now day d
          (publish now now (life_stage_transition (transition_of day e.1)) bus) in
      (
        rw (changed, rest.0),
        rw
            (
              changed,
              rest.1,
              payloads-publish now (life_stage_transition (transition_of day e.1)) bus,
            )
            (append_assoc (payloads bus) (life_stage_transition (transition_of day e.1) ∷ [])
              (map life_stage_transition (expected day d))),
      )
  | inr same ↦
      let rest = process_each-transitions now day d bus in (rw (same, rest.0), rw (same, rest.1))
]

-- The pass returns one transition for each character whose stage was not that of its age, in the
-- order of the store, and publishes exactly these.
pub process-transitions :
    (now : ℕ) (day : ℤ) (s : LifecycleService)
    → let (transitions, s') = process_character_lifecycles now day s in
      (transitions ≡ expected day s.characters)
      × (payloads s'.bus ≡ payloads s.bus ++ map life_stage_transition transitions)
unfolding process_character_lifecycles
process-transitions now day s =
    let (returned, published) = process_each-transitions now day s.characters s.bus in
    (returned, rw returned published)

expected-aged :
    (day : ℤ) (d : Dict String CharacterRecord) → expected day (map_values (aged day) d) ≡ []
unfolding stage_on
expected-aged day [] = refl
expected-aged day (e ∷ d) = rw (same_stage_refl (stage_on day e.1)) (expected-aged day d)

-- A second pass on the same day finds nothing to do.
pub process_twice :
    (now later : ℕ) (day : ℤ) (s : LifecycleService)
    → (process_character_lifecycles later day (process_character_lifecycles now day s).1).0 ≡ []
unfolding process_character_lifecycles
process_twice now later day s =
    (process_each-transitions later day _ _).0
    ∙ ap (expected day) (process_each-aged now day s.characters s.bus)
    ∙ expected-aged day s.characters

-- After the daily pass, a character that was born by that day has the dangerous actions blocked,
-- and no others, exactly while it is younger than ten years.
pub enforce-process :
    (now : ℕ) (day : ℤ) (s : LifecycleService) (c action : String) (r : CharacterRecord)
    → lookup c s.characters ≡ some r
    → r.born_at_game_day ≤ℤ day
    → enforce_stage_restrictions c action (process_character_lifecycles now day s).1
      ≡ (ltb (years r.born_at_game_day day) 10 && any (λ a. action == a) dangerous_actions)
unfolding enforce_stage_restrictions
enforce-process now day s c action r h born =
    rw
      (lookup-process now day s c r h, enforce_stage_restrictions, is_protected-stage_on r day born)
