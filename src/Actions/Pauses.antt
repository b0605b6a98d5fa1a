-- ===== src/Actions/Pauses.antt =====
-- server/src/modules/simulation/actions/action.service.ts: an action that is paused again and again.
use mmorpg_design_documents.Base.{◌≡◌, refl, ◌∙◌, ap, true, some, List, [], ◌∷◌, String, arith}
use mmorpg_design_documents.Base.Int.{ℤ, pos, pos_part, neg_part, ◌+ℤ◌, ◌-ℤ◌, int_laws}
use mmorpg_design_documents.Base.Key.{string_eq}
use mmorpg_design_documents.Base.Dict.{lookup, lookup-Every, lookup-insert_self}
use mmorpg_design_documents.Simulation.{SimulationService, get_world_time_ms}
use mmorpg_design_documents.Actions.Catalog.{ActionDefinition, get_action_definition}
use mmorpg_design_documents.Actions.{
  ActionSlot, ActionService, active, is_active, is_paused, put_slot, paused_slot, resumed_slot,
  resume_action,
}
use mmorpg_design_documents.Actions.Timing.{
  Request, pause, resume, apply, run, Timed, IsTimed, Delayed, apply-IsTimed, pause-slot,
  resumed-paused,
}

-- The calls that pause the character's action and resume it, at these times.
abbrev pub pauses : String → List (ℤ × ℤ) → List (ℤ × Request)
pauses c [] = []
pauses c ((t, u) ∷ ps) = (t, pause c) ∷ (u, resume c) ∷ pauses c ps

-- The world time between each pause and its resumption, together.
abbrev pub time_paused : SimulationService → List (ℤ × ℤ) → ℤ
time_paused simulation [] = pos 0
time_paused simulation ((t, u) ∷ ps) =
    (get_world_time_ms simulation u -ℤ get_world_time_ms simulation t) +ℤ time_paused simulation ps

-- The service after one pause and the resumption.
abbrev again : String → ℤ → ℤ → ActionService → ActionService
again c t u s = apply u (resume c) (apply t (pause c) s)

paused_once :
    (c : String) (t : ℤ) (s : ActionService) (slot : ActionSlot)
    → lookup c s.queue ≡ some slot
    → is_active slot ≡ true
    → apply t (pause c) s ≡ put_slot c (paused_slot (get_world_time_ms s.simulation t) slot) s
unfolding apply
paused_once c t s slot e on = pause-slot c t s slot e on

resume-put :
    (c : String) (u : ℤ) (s : ActionService) (slot : ActionSlot) (d : ActionDefinition)
    → lookup c s.queue ≡ some slot
    → is_paused slot ≡ true
    → get_action_definition slot.definition_id ≡ some d
    → (resume_action c u s).1
      ≡ put_slot c (resumed_slot (get_world_time_ms s.simulation u) d slot) s
unfolding resume_action
resume-put c u s slot d e off found = rw (e, resume_action, off, found) refl

resumed_once :
    (c : String) (u : ℤ) (s : ActionService) (slot : ActionSlot) (d : ActionDefinition)
    → lookup c s.queue ≡ some slot
    → is_paused slot ≡ true
    → get_action_definition slot.definition_id ≡ some d
    → apply u (resume c) s ≡ put_slot c (resumed_slot (get_world_time_ms s.simulation u) d slot) s
unfolding apply
resumed_once c u s slot d e off found = resume-put c u s slot d e off found

again_lem :
    (c : String) (t u : ℤ) (s : ActionService) (slot : ActionSlot) (d : ActionDefinition)
    → lookup c s.queue ≡ some slot
    → is_active slot ≡ true
    → get_action_definition slot.definition_id ≡ some d
    → let slot' = paused_slot (get_world_time_ms s.simulation t) slot in
      again c t u s
      ≡ put_slot c (resumed_slot (get_world_time_ms s.simulation u) d slot') (put_slot c slot' s)
unfolding paused_slot
again_lem c t u s slot d e on found =
    ap (apply u (resume c)) (paused_once c t s slot e on)
    ∙ resumed_once c u _ _ d (lookup-insert_self c _ s.queue) refl found

-- However often a timed action that is active is paused and resumed, it is active after the last
-- resumption, and ends later than it would have by exactly the world time of all its pauses
-- together.
pub run-pauses :
    (ps : List (ℤ × ℤ)) (c : String) (s : ActionService) (slot : ActionSlot)
    → IsTimed s
    → lookup c s.queue ≡ some slot
    → is_active slot ≡ true
    → (slot' : ActionSlot) × (lookup c (run (pauses c ps) s).queue ≡ some slot')
      × (slot'.state ≡ active)
      × (slot'.ends_at_world_ms ≡ slot.ends_at_world_ms +ℤ time_paused s.simulation ps)
unfolding run
run-pauses [] c s slot h e on = (slot, e, on_state slot on, omega int_laws)
  where
    on_state : (x : ActionSlot) → is_active x ≡ true → x.state ≡ active
    on_state x k = ground arith
run-pauses ((t, u) ∷ ps) c s slot h e on =
    let (slot', found, live, end) =
      run-pauses ps c (again c t u s) next
        (apply-IsTimed u (resume c) _ (apply-IsTimed t (pause c) s h))
        (ap (λ x. lookup c x.queue) step ∙ lookup-insert_self c next _)
        (unfold resumed_slot in refl) in
    (
      slot',
      found,
      live,
      end ∙ later _ _ _ _ _ delayed.1 (ap (λ x. time_paused x.simulation ps) step),
    )
  where
    timed : Timed slot
    timed = lookup-Every Timed c slot s.queue h e

    from : ℤ
    from = get_world_time_ms s.simulation t

    to : ℤ
    to = get_world_time_ms s.simulation u

    next : ActionSlot
    next = resumed_slot to timed.definition (paused_slot from slot)

    step : again c t u s ≡ put_slot c next (put_slot c (paused_slot from slot) s)
    step = again_lem c t u s slot timed.definition e on timed.found

    delayed : Delayed from to slot next
    delayed = resumed-paused from to slot timed.definition (timed.whole on)

    later : (x y a p q : ℤ) → x ≡ y +ℤ a → p ≡ q → x +ℤ p ≡ y +ℤ (a +ℤ q)
    later x y a p q e f =
        omega (int_laws, ap pos_part e, ap neg_part e, ap pos_part f, ap neg_part f)
