-- ===== src/Routines/Totals.antt =====
-- server/src/modules/simulation/routines/routine.service.ts: what the report adds up to.
use mmorpg_design_documents.Base.{
  ◌≡◌, ◌∙◌, sym, subst, inl, inr, Bool-cases, refl, ap, false, ◌||◌, if◌then◌else◌, Option, none,
  some, [], ◌∷◌, String, arith,
}
use mmorpg_design_documents.Base.Int.{
  ℤ, pos, ◌+ℤ◌, ◌-ℤ◌, ◌*ℤ◌, ◌≤ℤ◌, ltb_ℤ, leb_ℤ, max_ℤ, pos_part, neg_part, int_laws,
}
use mmorpg_design_documents.Base.Key.{string_eq, ◌==◌, eq_lem}
use mmorpg_design_documents.Base.Dict.{
  Dict, lookup, insert, lookup-insert, values, sum_by, figure, sum_by-insert,
}
use mmorpg_design_documents.Simulation.{SimulationService}
use mmorpg_design_documents.Actions.Catalog.{ActionDefinition, get_action_definition}
use mmorpg_design_documents.Routines.{
  NeedsState, RoutineSlot, CharacterOfflineState, OfflineReportEntry, Work, execute, credit_entry,
  is_critical, sort_by_priority, max_iterations, start_work, run_routines, process_offline_routines,
  times_total,
}
use mmorpg_design_documents.Routines.Durations.{
  duration, time, total_time, duration-found, credit_time, credit_named, total_time_lem,
}
use mmorpg_design_documents.Routines.Loop.{cycle-Kept}

abbrev pub twice : ℤ → ℤ
twice x = x +ℤ x

abbrev pub six_times : ℤ → ℤ
six_times x = twice (x +ℤ x +ℤ x)

abbrev times : OfflineReportEntry → ℤ
times e = e.times_completed

abbrev xp : OfflineReportEntry → ℤ
xp e = e.xp_earned

-- Experience and food go by the number of actions, and the time stays in its bounds.
record Kept (world : ℤ) (start : NeedsState) (consumed : ℤ) (es : Dict String OfflineReportEntry)
    (n : NeedsState) : Type 0 where
  in_time : consumed ≤ℤ world
  named :
      (a : String) (e : OfflineReportEntry)
      → lookup a es ≡ some e
      → (e.action_type ≡ a) × (pos 0 ≤ℤ e.times_completed)
  taken : sum_by time es ≡ consumed
  earned : sum_by xp es ≡ six_times (sum_by times es)
  eaten : n.hunger +ℤ twice (sum_by times es) ≡ start.hunger
  tired : n.fatigue +ℤ twice (sum_by times es) ≡ start.fatigue

cancel : (s' g s v k : ℤ) → s' +ℤ g ≡ s +ℤ v → v ≡ g +ℤ k → s' ≡ s +ℤ k
cancel s' g s v k h e = omega (int_laws, ap pos_part h, ap neg_part h, ap pos_part e, ap neg_part e)

credit_times :
    (a : String) (o : Option OfflineReportEntry)
    → times (credit_entry a o) ≡ figure times o +ℤ pos 1
unfolding credit_entry
credit_times a none = omega int_laws
credit_times a (some e) = refl

credit_xp :
    (a : String) (o : Option OfflineReportEntry) → xp (credit_entry a o) ≡ figure xp o +ℤ pos 6
unfolding credit_entry
credit_xp a none = omega int_laws
credit_xp a (some e) = refl

-- Crediting an action adds one to the number of actions, and six to the experience.
credited :
    (a : String) (es : Dict String OfflineReportEntry)
    → let es' = insert a (credit_entry a (lookup a es)) es in
      (sum_by times es' ≡ sum_by times es +ℤ pos 1) × (sum_by xp es' ≡ sum_by xp es +ℤ pos 6)
credited a es =
    let e = credit_entry a (lookup a es) in
    (
      cancel _ _ _ _ _ (sum_by-insert times a e es) (credit_times a (lookup a es)),
      cancel _ _ _ _ _ (sum_by-insert xp a e es) (credit_xp a (lookup a es)),
    )

bite :
    (h f : ℤ)
    → (leb_ℤ h (pos 10) || leb_ℤ f (pos 10)) ≡ false
    → (max_ℤ (pos 0) (h -ℤ pos 2) ≡ h -ℤ pos 2) × (max_ℤ (pos 0) (f -ℤ pos 2) ≡ f -ℤ pos 2)
unfolding ◌-ℤ◌
bite h f calm = ground arith

eat : (x h t s t' : ℤ) → x ≡ h -ℤ pos 2 → h +ℤ twice t ≡ s → t' ≡ t +ℤ pos 1 → x +ℤ twice t' ≡ s
eat x h t s t' less e e' = omega (
  int_laws,
  ap pos_part less,
  ap neg_part less,
  ap pos_part e,
  ap neg_part e,
  ap pos_part e',
  ap neg_part e',
)

earn : (x t x' t' : ℤ) → x ≡ six_times t → t' ≡ t +ℤ pos 1 → x' ≡ x +ℤ pos 6 → x' ≡ six_times t'
earn x t x' t' e e' e'' = omega (
  int_laws,
  ap pos_part e,
  ap neg_part e,
  ap pos_part e',
  ap neg_part e',
  ap pos_part e'',
  ap neg_part e'',
)

inserted :
    (a k : String) (v e : OfflineReportEntry) (es : Dict String OfflineReportEntry)
    → lookup a (insert k v es) ≡ some e
    → (if a == k then some v else lookup a es) ≡ some e
inserted a k v e es f = sym (lookup-insert a k v es) ∙ f

execute-Kept :
    (world : ℤ) (start : NeedsState) (r : RoutineSlot) (d : ActionDefinition) (w : Work)
    → get_action_definition r.action_type ≡ some d
    → is_critical w.needs ≡ false
    → ltb_ℤ world (w.consumed +ℤ d.duration_game_ms) ≡ false
    → Kept world start w.consumed w.entries w.needs
    → let w' = execute r d w in Kept world start w'.consumed w'.entries w'.needs
unfolding execute
execute-Kept world start r d w known calm fits h =
    let (once, six) = credited r.action_type w.entries in
    let (ate, slept) = bite w.needs.hunger w.needs.fatigue calm in
    record {
      in_time = ground arith;
      named = λ a e f. elim (Bool-cases (a == r.action_type)) [
        | inl own ↦
            let same : credit_entry r.action_type (lookup r.action_type w.entries) ≡ e =
              cc (rw own at (inserted a r.action_type _ e w.entries f)) in
            let (name, counted) = credit_named r.action_type _ (h.named r.action_type) in
            (
              ap (λ x. x.action_type) (sym same) ∙ name ∙ sym ((eq_lem a r.action_type).0 own),
              subst (λ x. pos 0 ≤ℤ x.times_completed) same counted,
            )
        | inr other ↦ h.named a e (rw other at (inserted a r.action_type _ e w.entries f))
      ];
      taken =
          cancel _ _ _ _ _ (sum_by-insert time r.action_type _ w.entries)
            (credit_time r.action_type (lookup r.action_type w.entries) (h.named r.action_type))
          ∙ ap (λ x. x +ℤ duration r.action_type) h.taken
          ∙ ap (λ x. w.consumed +ℤ x) (duration-found r.action_type d known);
      earned = earn _ _ _ _ h.earned once six;
      eaten = eat _ _ _ _ _ ate h.eaten once;
      tired = eat _ _ _ _ _ slept h.tired once;
    }

no_entry : (a : String) (e : OfflineReportEntry) → lookup {V = OfflineReportEntry} a [] ≡ some e → ⊥
unfolding lookup
no_entry a e f = cc

start-Kept : (world : ℤ) (needs : NeedsState) → pos 0 ≤ℤ world → Kept world needs (pos 0) [] needs
start-Kept world needs h = record {
  in_time = h;
  named = λ a e f. absurd (no_entry a e f);
  taken = refl;
  earned = omega int_laws;
  eaten = omega int_laws;
  tired = omega int_laws;
}

run_routines-Kept :
    (state : CharacterOfflineState) (world : ℤ)
    → pos 0 ≤ℤ world
    → let w = run_routines state world in Kept world state.needs w.consumed w.entries w.needs
unfolding run_routines
run_routines-Kept state world h =
    cycle-Kept state.life_stage world (Kept world state.needs)
      (λ r d w known calm fits kept. execute-Kept world state.needs r d w known calm fits kept)
      (sort_by_priority state.routines) max_iterations (start_work state.needs)
      (start-Kept world state.needs h)

times_total_lem : (es : Dict String OfflineReportEntry) → times_total (values es) ≡ sum_by times es
unfolding times_total
times_total_lem [] = refl
times_total_lem (e ∷ es) = ap (λ n. e.1.times_completed +ℤ n) (times_total_lem es)

-- Where time has not run backwards, the report adds up: the actions that it lists, each as long as
-- the catalog says and as often as it was completed, take together no more world time than has gone
-- by, its experience is six for each action, and hunger and fatigue have each fallen by two for each
-- action.
pub process_offline_routines-totals :
    (simulation : SimulationService) (state : CharacterOfflineState) (login : ℤ)
    → pos 0 ≤ℤ (login -ℤ state.offline_since_ms) *ℤ simulation.acceleration
    → let report = process_offline_routines simulation state login in
      (total_time report.actions_completed
        ≤ℤ (login -ℤ state.offline_since_ms) *ℤ simulation.acceleration)
      × (report.total_xp_earned ≡ six_times (times_total report.actions_completed))
      × (report.hunger_delta +ℤ twice (times_total report.actions_completed) ≡ pos 0)
      × (report.fatigue_delta +ℤ twice (times_total report.actions_completed) ≡ pos 0)
unfolding process_offline_routines
process_offline_routines-totals simulation state login h =
    let world = (login -ℤ state.offline_since_ms) *ℤ simulation.acceleration in
    let w = run_routines state world in
    let kept = run_routines-Kept state world h in
    rw (times_total_lem w.entries) (
      subst (λ x. x ≤ℤ world) (sym (total_time_lem w.entries ∙ kept.taken)) kept.in_time,
      kept.earned,
      fall w.needs.hunger state.needs.hunger (sum_by times w.entries) kept.eaten,
      fall w.needs.fatigue state.needs.fatigue (sum_by times w.entries) kept.tired,
    )
  where
    fall : (x s t : ℤ) → x +ℤ twice t ≡ s → x -ℤ s +ℤ twice t ≡ pos 0
    fall x s t e = omega (int_laws, ap pos_part e, ap neg_part e)
