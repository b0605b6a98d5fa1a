-- ===== src/Family/Tests.antt =====
-- Runs of the family service at concrete inputs.
use mmorpg_design_documents.Base.{◌≡◌, refl, true, false, Option, some, [], String}
use mmorpg_design_documents.Base.Int.{pos}
use mmorpg_design_documents.Base.Key.{string_eq}
use mmorpg_design_documents.Base.Dict.{lookup, insert}
use mmorpg_design_documents.Lifecycle.{LifeStage, child}
use mmorpg_design_documents.Family.{
  FamilyService, shelter, create_family, simulate_neglect, resolve_family_support,
}

abbrev homes : FamilyService
homes = record { families = []; alerts = [] }

housed : FamilyService
unfolding create_family
housed = (create_family "olga" (pos 3) homes).1

neglected : FamilyService
unfolding simulate_neglect
neglected = (simulate_neglect "olga" shelter housed).1

abbrev young : String → Option LifeStage
young c = some child

-- Neglect takes the shelter away, and the next support gives it back.
neglect_run :
    (lookup "olga" neglected.families
      ≡ some (record {
        family_id = "fam_olga";
        character_id = "olga";
        guardian_npc_id = "npc_guardian_olga";
        household_state = record {
          food_supplied = true;
          shelter_provided = false;
          last_checked_game_day = pos 3;
        };
        created_at_game_day = pos 3;
      }))
    × ((resolve_family_support 9 (pos 4) young neglected).alerts ≡ [])
unfolding neglected housed create_family simulate_neglect resolve_family_support lookup insert
neglect_run = (refl, refl)
