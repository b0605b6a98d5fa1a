-- ===== src/Routines/Loop.antt =====
-- server/src/modules/simulation/routines/routine.service.ts, `processOfflineRoutines`: what all the
-- passes keep, and why the loop ends by itself.
use mmorpg_design_documents.Base.{
  ℕ, zero, suc, ◌+◌, ◌*◌, ◌≤◌, ◌≡◌, refl, ◌∙◌, sym, inl, inr, ◌⊎◌, Bool, true, false, ◌||◌, ◌&&◌,
  Bool-cases, some, Option-cases, List, [], ◌∷◌, String, arith, if_elim,
}
use mmorpg_design_documents.Base.Int.{ℤ, pos, ◌+ℤ◌, ◌-ℤ◌, ◌≤ℤ◌, ltb_ℤ, leb_ℤ, max_ℤ, int_laws}
use mmorpg_design_documents.Base.Key.{string_eq, ◌==◌}
use mmorpg_design_documents.Base.Dict.{Dict}
use mmorpg_design_documents.Base.Lists.{any}
use mmorpg_design_documents.Lifecycle.{LifeStage}
use mmorpg_design_documents.Actions.Catalog.{ActionDefinition, get_action_definition}
use mmorpg_design_documents.Routines.{
  NeedsState, RoutineSlot, CharacterOfflineState, OfflineReportEntry, Work, warn, execute,
  is_critical, is_dangerous, is_minor, visit, sweep, cycle, start_work, run_routines,
  sort_by_priority,
}

-- A visit warns at most, or it executes an action of the catalog that fits into the time left,
-- while the needs are not critical.
visit_cases {ℓ} :
    (P : Bool × Work → Type ℓ) (stage : LifeStage) (world : ℤ) (r : RoutineSlot) (w : Work)
    → ((stop : Bool) → P (stop, w))
    → ((stop : Bool) (m : String) → P (stop, warn m w))
    → ((d : ActionDefinition)
        → get_action_definition r.action_type ≡ some d
        → is_critical w.needs ≡ false
        → ltb_ℤ world (w.consumed +ℤ d.duration_game_ms) ≡ false
        → P (false, execute r d w))
    → P (visit stage world r w)
unfolding visit
visit_cases P stage world r w idle warned executed =
    if_elim P (leb_ℤ world w.consumed) _ _ (λ _. idle true)
      λ _. elim (Option-cases (get_action_definition r.action_type)) [
        | inl e ↦ rw (e, visit) (idle false)
        | inr (d, e) ↦
            rw (e, visit)
              (if_elim P (is_dangerous d.category && is_minor stage) _ _ (λ _. warned false _)
                λ _.
                  if_elim P (is_critical w.needs) _ _ (λ _. warned true _)
                    λ calm.
                      if_elim P (ltb_ℤ world (w.consumed +ℤ d.duration_game_ms)) _ _
                        (λ _. idle false) (λ fits. executed d e calm fits))
      ]

-- What every execution keeps of the time, the entries and the needs, all passes keep.
module _ {ℓ} (stage : LifeStage) (world : ℤ)
    (P : ℤ → Dict String OfflineReportEntry → NeedsState → Type ℓ)
    (keeps : (r : RoutineSlot) (d : ActionDefinition) (w : Work)
      → get_action_definition r.action_type ≡ some d
      → is_critical w.needs ≡ false
      → ltb_ℤ world (w.consumed +ℤ d.duration_game_ms) ≡ false
      → P w.consumed w.entries w.needs
      → let w' = execute r d w in P w'.consumed w'.entries w'.needs) where
  abbrev Kept : Work → Type ℓ
  Kept w = P w.consumed w.entries w.needs

  warn-Kept : (m : String) (w : Work) → Kept w → Kept (warn m w)
  unfolding warn
  warn-Kept m w h = if_elim Kept (any (λ x. x == m) w.warnings) _ _ (λ _. h) (λ _. h)

  visit-Kept : (r : RoutineSlot) (w : Work) → Kept w → Kept (visit stage world r w).1
  visit-Kept r w h =
      visit_cases (λ v. Kept v.1) stage world r w (λ _. h) (λ _ m. warn-Kept m w h)
        (λ d e calm fits. keeps r d w e calm fits h)

  sweep-Kept : (rs : List RoutineSlot) (w : Work) → Kept w → Kept (sweep stage world rs w)
  unfolding sweep
  sweep-Kept [] w h = h
  sweep-Kept (r ∷ rs) w h =
      let one = visit-Kept r w h in
      if_elim Kept (visit stage world r w).0 _ _ (λ _. one) (λ _. sweep-Kept rs _ one)

  pub cycle-Kept :
      (rs : List RoutineSlot) (n : ℕ) (w : Work) → Kept w → Kept (cycle stage world rs n w)
  unfolding cycle
  cycle-Kept rs zero w h = h
  cycle-Kept rs (suc n) w h = elim (Bool-cases (ltb_ℤ w.consumed world)) [
    | inr done ↦ rw (done, cycle) h
    | inl goes ↦
        let w' = sweep stage world rs (record w { made_progress = false }) in
        let after = sweep-Kept rs (record w { made_progress = false }) h in
        elim (Bool-cases w'.made_progress) [
          | inr none_done ↦ rw (goes, cycle, none_done, cycle) after
          | inl some_done ↦ rw (goes, cycle, some_done, cycle) (cycle-Kept rs n w' after)
        ]
  ]

-- Progress costs food: two of the hunger value, which was above the threshold.
pub record Fed (w w' : Work) : Type 0 where
  pub less : w'.needs.hunger ≤ℤ w.needs.hunger
  pub cost :
      w'.made_progress ≡ true
      → (w.made_progress ≡ true)
        ⊎ ((pos 11 ≤ℤ w.needs.hunger) × (w'.needs.hunger +ℤ pos 2 ≤ℤ w.needs.hunger))

Fed-refl : (w : Work) → Fed w w
Fed-refl w = record { less = omega arith; cost = λ h. inl h }

Fed-trans : (u v w : Work) → Fed u v → Fed v w → Fed u w
Fed-trans u v w a b = record {
  less = omega (arith, a.less, b.less);
  cost = λ h. elim (b.cost h) [
    | inl before ↦ elim (a.cost before) [
      | inl start ↦ inl start
      | inr (enough, paid) ↦ inr (enough, omega (int_laws, paid, b.less))
    ]
    | inr (enough, paid) ↦ inr (omega (arith, enough, a.less), omega (int_laws, paid, a.less))
  ];
}

warn-Fed : (m : String) (w : Work) → Fed w (warn m w)
unfolding warn
warn-Fed m w =
    if_elim (Fed w) (any (λ x. x == m) w.warnings) _ _ (λ _. Fed-refl w)
      (λ _. record { less = omega arith; cost = λ h. inl h })

meal :
    (h f : ℤ)
    → (leb_ℤ h (pos 10) || leb_ℤ f (pos 10)) ≡ false
    → (pos 11 ≤ℤ h) × (max_ℤ (pos 0) (h -ℤ pos 2) ≤ℤ h) × (max_ℤ (pos 0) (h -ℤ pos 2) +ℤ pos 2 ≤ℤ h)
unfolding ◌-ℤ◌ ◌+ℤ◌
meal h f calm = ground arith

visit-Fed :
    (stage : LifeStage) (world : ℤ) (r : RoutineSlot) (w : Work) → Fed w (visit stage world r w).1
unfolding execute
visit-Fed stage world r w =
    visit_cases (λ v. Fed w v.1) stage world r w (λ _. Fed-refl w) (λ _ m. warn-Fed m w)
      (λ d _ calm _.
        let (enough, less, paid) = meal w.needs.hunger w.needs.fatigue calm in
        record { less = less; cost = λ _. inr (enough, paid) })

sweep-Fed :
    (stage : LifeStage) (world : ℤ) (rs : List RoutineSlot) (w : Work)
    → Fed w (sweep stage world rs w)
unfolding sweep
sweep-Fed stage world [] w = Fed-refl w
sweep-Fed stage world (r ∷ rs) w =
    let (stop, w') = visit stage world r w in
    if_elim (Fed w) stop _ _ (λ _. visit-Fed stage world r w)
      (λ _. Fed-trans w w' _ (visit-Fed stage world r w) (sweep-Fed stage world rs w'))

-- A pass that makes progress leaves less food by two, and there was some above the threshold.
pass_costs :
    (stage : LifeStage) (world : ℤ) (rs : List RoutineSlot) (w : Work)
    → let w' = sweep stage world rs (record w { made_progress = false }) in
      w'.made_progress ≡ true
      → (pos 11 ≤ℤ w.needs.hunger) × (w'.needs.hunger +ℤ pos 2 ≤ℤ w.needs.hunger)
pass_costs stage world rs w progress =
    elim ((sweep-Fed stage world rs (record w { made_progress = false })).cost progress) [
      | inl before ↦ absurd (cc)
      | inr costs ↦ costs
    ]

-- Two limits agree on a pass where they agree on what follows it.
pass_agrees :
    (stage : LifeStage) (world : ℤ) (rs : List RoutineSlot) (n m : ℕ) (w : Work)
    → (let w' = sweep stage world rs (record w { made_progress = false }) in
        (pos 11 ≤ℤ w.needs.hunger) × (w'.needs.hunger +ℤ pos 2 ≤ℤ w.needs.hunger)
        → cycle stage world rs m w' ≡ cycle stage world rs n w')
    → cycle stage world rs (suc m) w ≡ cycle stage world rs (suc n) w
unfolding cycle
pass_agrees stage world rs n m w next = elim (Bool-cases (ltb_ℤ w.consumed world)) [
  | inr done ↦ rw (done, cycle) refl
  | inl goes ↦
      let w' = sweep stage world rs (record w { made_progress = false }) in
      elim (Bool-cases w'.made_progress) [
        | inr none_done ↦ rw (goes, cycle, none_done, cycle) refl
        | inl some_done ↦
            rw (goes, cycle, some_done, cycle) (next (pass_costs stage world rs w some_done))
      ]
]

-- Once a limit allows one pass more than the food does, no further pass is taken.
cycle_enough :
    (stage : LifeStage) (world : ℤ) (rs : List RoutineSlot) (n m : ℕ) (w : Work)
    → suc n ≤ m
    → w.needs.hunger ≤ℤ pos (10 + 2 * n)
    → cycle stage world rs m w ≡ cycle stage world rs (suc n) w
cycle_enough stage world rs n zero w b h = absurd (omega (arith, b))
cycle_enough stage world rs zero (suc m) w b h =
    pass_agrees stage world rs zero m w (λ costs. absurd (omega (arith, h, costs.0)))
cycle_enough stage world rs (suc n) (suc m) w b h =
    pass_agrees stage world rs (suc n) m w
      (λ costs. cycle_enough stage world rs n m _ (omega (arith, b)) (omega (int_laws, h, costs.1)))

-- The limit on the passes is never what ends the loop: where the hunger value is at most 100, as
-- on its scale, the loop with 10000 passes allowed ends in the same state as with any other limit
-- from 46 on.
pub run_routines-enough :
    (state : CharacterOfflineState) (world : ℤ) (limit : ℕ)
    → state.needs.hunger ≤ℤ pos 100
    → 46 ≤ limit
    → cycle state.life_stage world (sort_by_priority state.routines) limit (start_work state.needs)
      ≡ run_routines state world
unfolding run_routines
run_routines-enough state world limit h b =
    let rs = sort_by_priority state.routines in
    let w = start_work state.needs in
    cycle_enough state.life_stage world rs 45 limit w b h
    ∙ sym (cycle_enough state.life_stage world rs 45 10000 w (omega arith) h)
