-- ===== src/Health/Tests.antt =====
-- Runs of the health service at concrete inputs.
use mmorpg_design_documents.Base.{◌≡◌, ◌⊎◌, refl, none, some, [], ◌∷◌}
use mmorpg_design_documents.Base.Int.{ℤ, pos, ◌+ℤ◌, ◌-ℤ◌, ◌*ℤ◌, ◌≤ℤ◌, floor_div}
use mmorpg_design_documents.Base.Double.{whole_double}
use mmorpg_design_documents.Base.Key.{chosen, string_eq, entity_eq, entity_beq, ◌==◌}
use mmorpg_design_documents.Base.Dict.{lookup, insert}
use mmorpg_design_documents.Base.Lists.{find}
use mmorpg_design_documents.Events.{new_bus}
use mmorpg_design_documents.Lifecycle.{infant}
use mmorpg_design_documents.Health.{
  wound, illness, HealthCondition, ApplyConditionInput, HealthService, get_conditions,
  get_total_stat_penalty, apply_condition, resolve_expired_conditions,
}
use mmorpg_design_documents.Health.Treatment.{get_treatment_reduction}
use mmorpg_design_documents.Health.Severity.{Mild, apply_condition-protected}
use mmorpg_design_documents.Health.Recovery.{
  IsAbsent, IsDistinct, IsTracked, survivors, expired_count, announce_each,
  resolve_expired_conditions_lem,
}

abbrev cut : HealthCondition
cut = record {
  id = chosen "cut";
  character_id = "olga";
  condition_type = wound;
  severity = pos 3;
  illness_subtype = none;
  duration_days = pos 14;
  stat_penalty_modifier = pos 20;
  recovery_action_required = "rest_or_surgery";
  started_at_day = pos 0;
  resolves_at_day = pos 14;
  treated_by_skill = none;
}

abbrev cold : HealthCondition
cold = record cut {
  id = chosen "cold";
  condition_type = illness;
  severity = pos 1;
  resolves_at_day = pos 3;
}

abbrev ward : HealthService
ward = record { store = ("olga", cut ∷ cold ∷ []) ∷ []; bus = new_bus }

abbrev fever : ApplyConditionInput
fever = record {
  character_id = "olga";
  condition_type = illness;
  severity = pos 4;
  illness_subtype = none;
  current_game_day = pos 2;
  life_stage = some infant;
}

ward-olga : lookup "olga" ward.store ≡ some (cut ∷ cold ∷ [])
unfolding lookup
ward-olga = refl

-- A half of severity 4, since one illness is there: 2, for seven days.
fever_run :
    let (c, s) = apply_condition 9 fever ward in
    (elim c [ none ↦ pos 0 | some x ↦ x.severity ] ≡ pos 2)
    × (get_total_stat_penalty s "olga" ≡ pos 50)
unfolding apply_condition get_total_stat_penalty get_conditions lookup insert ◌+ℤ◌ ◌*ℤ◌ floor_div
fever_run = (refl, refl)

apply_condition-protected_example :
    ((pos 5 ≤ℤ fever.severity) × (apply_condition 9 fever ward ≡ (none, ward)))
    ⊎ Mild fever ward (apply_condition 9 fever ward)
apply_condition-protected_example = apply_condition-protected 9 fever ward infant refl refl

cut-found : find (λ (x : HealthCondition). x.id == chosen "cut") (cut ∷ cold ∷ []) ≡ some cut
unfolding entity_beq
cut-found = refl

-- By whole numbers a treatment of a half, cut off at its point, takes nothing off.
cut-treated :
    (get_treatment_reduction ℤ "olga" (chosen "cut") "Surgery" (pos 4) ward).0 ≡ some (pos 14)
unfolding get_treatment_reduction lookup insert entity_beq ◌+ℤ◌ ◌-ℤ◌ ◌*ℤ◌
cut-treated = refl

ward-IsTracked : IsTracked ward.store
unfolding IsTracked IsDistinct IsAbsent entity_beq
ward-IsTracked = (((refl, tt), (tt, tt)), tt)

resolve_expired_conditions_lem_example : resolve_expired_conditions 9 (pos 5) ward ≡ (
  expired_count (pos 5) ward.store,
  record {
    store = survivors (pos 5) ward.store;
    bus = announce_each 9 (pos 5) ward.store ward.bus;
  },
)
resolve_expired_conditions_lem_example =
    resolve_expired_conditions_lem 9 (pos 5) ward ward-IsTracked
