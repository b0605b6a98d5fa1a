-- ===== src/Routines/Durations.antt =====
-- server/src/modules/simulation/routines/routine.service.ts: how long the actions of a report take.
use mmorpg_design_documents.Base.{
  ℕ, zero, suc, ◌≡◌, ◌∙◌, refl, ap, Option, none, some, List, [], ◌∷◌, String, arith,
}
use mmorpg_design_documents.Base.Int.{ℤ, pos, ◌+ℤ◌, ◌≤ℤ◌, pos_part, int_laws}
use mmorpg_design_documents.Base.Key.{string_eq}
use mmorpg_design_documents.Base.Dict.{Dict, values, sum_by, figure}
use mmorpg_design_documents.Actions.Catalog.{ActionDefinition, get_action_definition}
use mmorpg_design_documents.Routines.{OfflineReportEntry, credit_entry}

-- How long an action of the catalog lasts, and how long all those of an entry.
abbrev pub duration : String → ℤ
duration a = elim (get_action_definition a) [ none ↦ pos 0 | some d ↦ d.duration_game_ms ]

abbrev pub repeated : ℕ → ℤ → ℤ
repeated zero d = pos 0
repeated (suc n) d = repeated n d +ℤ d

abbrev pub time : OfflineReportEntry → ℤ
time e = repeated (pos_part e.times_completed) (duration e.action_type)

-- The time that the actions of a report take.
pub total_time : List OfflineReportEntry → ℤ
total_time [] = pos 0
total_time (e ∷ es) = time e +ℤ total_time es

pub duration-found :
    (a : String) (d : ActionDefinition)
    → get_action_definition a ≡ some d
    → duration a ≡ d.duration_game_ms
duration-found a d h = rw (duration, h) refl

pub credit_time :
    (a : String) (o : Option OfflineReportEntry)
    → ((e : OfflineReportEntry) → o ≡ some e → (e.action_type ≡ a) × (pos 0 ≤ℤ e.times_completed))
    → time (credit_entry a o) ≡ figure time o +ℤ duration a
unfolding credit_entry
credit_time a none own = refl
credit_time a (some e) own =
    let (name, counted) = own e refl in
    ap (λ n. repeated n (duration e.action_type)) (raised e.times_completed counted)
    ∙ ap (λ k. time e +ℤ duration k) name
  where
    raised : (t : ℤ) → pos 0 ≤ℤ t → pos_part (t +ℤ pos 1) ≡ suc (pos_part t)
    raised t h = unfold ◌+ℤ◌ in ground arith

pub credit_named :
    (a : String) (o : Option OfflineReportEntry)
    → ((e : OfflineReportEntry) → o ≡ some e → (e.action_type ≡ a) × (pos 0 ≤ℤ e.times_completed))
    → ((credit_entry a o).action_type ≡ a) × (pos 0 ≤ℤ (credit_entry a o).times_completed)
unfolding credit_entry
credit_named a none own = (refl, omega arith)
credit_named a (some e) own =
    let (name, counted) = own e refl in (name, more e.times_completed counted)
  where
    more : (t : ℤ) → pos 0 ≤ℤ t → pos 0 ≤ℤ t +ℤ pos 1
    more t h = omega int_laws

pub total_time_lem : (es : Dict String OfflineReportEntry) → total_time (values es) ≡ sum_by time es
unfolding total_time
total_time_lem [] = refl
total_time_lem (e ∷ es) = ap (λ n. time e.1 +ℤ n) (total_time_lem es)
