-- ===== src/Lifecycle/Tests.antt =====
-- Runs of the lifecycle service at concrete inputs.
use mmorpg_design_documents.Base.{◌≡◌, refl, ◌&&◌, some, [], ◌∷◌, arith, ltb}
use mmorpg_design_documents.Base.Int.{pos}
use mmorpg_design_documents.Base.Key.{string_eq, ◌==◌}
use mmorpg_design_documents.Base.Dict.{lookup}
use mmorpg_design_documents.Base.Lists.{any}
use mmorpg_design_documents.Events.{new_bus}
use mmorpg_design_documents.Lifecycle.{
  infant, child, adult, elder, CharacterRecord, LifecycleService, compute_life_stage, stage_on,
  is_protected, dangerous_actions, process_character_lifecycles, enforce_stage_restrictions,
}
use mmorpg_design_documents.Lifecycle.Stages.{years, is_protected-stage_on}
use mmorpg_design_documents.Lifecycle.Daily.{enforce-process}

abbrev olga : CharacterRecord
olga = record { character_id = "olga"; born_at_game_day = pos 0; current_stage = infant }

abbrev village : LifecycleService
village = record { characters = ("olga", olga) ∷ []; bus = new_bus }

stages :
    (compute_life_stage (pos 2) ≡ infant)
    × (compute_life_stage (pos 3) ≡ child)
    × (compute_life_stage (pos 45) ≡ adult)
    × (compute_life_stage (pos 46) ≡ elder)
unfolding compute_life_stage
stages = (refl, refl, refl, refl)

is_protected-stage_on_example :
    is_protected (stage_on (pos 4000) olga) ≡ ltb (years (pos 0) (pos 4000)) 10
is_protected-stage_on_example = is_protected-stage_on olga (pos 4000) (omega arith)

village-olga : lookup "olga" village.characters ≡ some olga
unfolding lookup
village-olga = refl

enforce-process_example :
    enforce_stage_restrictions "olga" "trade" (process_character_lifecycles 7 (pos 4000) village).1
    ≡ (ltb (years (pos 0) (pos 4000)) 10 && any (λ a. "trade" == a) dangerous_actions)
enforce-process_example =
    enforce-process 7 (pos 4000) village "olga" "trade" olga village-olga (omega arith)
