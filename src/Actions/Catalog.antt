-- ===== src/Actions/Catalog.antt =====
-- server/src/modules/simulation/actions/action-catalog.ts: what a character can do.
use mmorpg_design_documents.Base.{ℕ, ◌*◌, Bool, true, false, Option, List, [], ◌∷◌, String}
use mmorpg_design_documents.Base.Int.{ℤ, pos}
use mmorpg_design_documents.Base.Key.{string_eq}
use mmorpg_design_documents.Base.Dict.{Dict, lookup, values}

abbrev game_hour_ms : ℕ
game_hour_ms = 3600000

pub data ActionCategory : Type 0 where
  labor rest social travel combat training : ActionCategory

pub record ActionDefinition : Type 0 where
  pub id : String
  pub name : String
  pub duration_game_ms : ℤ
  pub category : ActionCategory
  pub repeatable : Bool

abbrev pub seed_definitions : List ActionDefinition
seed_definitions =
    record {
      id = "rest";
      name = "Rest";
      duration_game_ms = pos (game_hour_ms * 8);
      category = rest;
      repeatable = true;
    }
    ∷ record {
      id = "forage";
      name = "Forage";
      duration_game_ms = pos (game_hour_ms * 4);
      category = labor;
      repeatable = true;
    }
    ∷ record {
      id = "train-strength";
      name = "Train Strength";
      duration_game_ms = pos (game_hour_ms * 3);
      category = training;
      repeatable = true;
    }
    ∷ record {
      id = "socialize";
      name = "Socialize";
      duration_game_ms = pos (game_hour_ms * 2);
      category = social;
      repeatable = false;
    }
    ∷ []

abbrev by_id : List ActionDefinition → Dict String ActionDefinition
by_id [] = []
by_id (d ∷ ds) = (d.id, d) ∷ by_id ds

unfoldable pub get_action_definition : String → Option ActionDefinition
get_action_definition id = lookup id (by_id seed_definitions)

pub get_all_action_definitions : List ActionDefinition
get_all_action_definitions = values (by_id seed_definitions)
