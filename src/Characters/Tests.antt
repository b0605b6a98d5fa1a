-- ===== src/Characters/Tests.antt =====
-- Runs of the characters service at concrete inputs.
use text.Mathlib.TextEquality.{eq_iff}
use mmorpg_design_documents.Base.{◌≡◌, ◌≢◌, ◌↔◌, refl, String, some, none, [], ok, err, arith}
use mmorpg_design_documents.Base.Key.{string_eq}
use mmorpg_design_documents.Base.Dict.{lookup, insert, remove}
use mmorpg_design_documents.Events.{new_bus, publish}
use mmorpg_design_documents.Characters.{
  CharactersService, alive_character_exists, find_alive_by_account, newborn, create_character, bury,
  kill_character, reset_character, not_alive,
}
use mmorpg_design_documents.Characters.Alive.{
  Lives, Reachable, started, created, killed, Reachable-one_alive,
}
use mmorpg_design_documents.Characters.Turnover.{Created, create_character-found}

abbrev nobody : CharactersService
nobody = record { characters = []; alive_index = []; bus = new_bus }

named : ◌≢◌ {A = String} "u1" ""
named = ground (arith, eq_iff "u1" "")

named_later : ◌≢◌ {A = String} "u2" ""
named_later = ground (arith, eq_iff "u2" "")

abbrev with_mia : CharactersService
with_mia = (create_character 5 "u1" "mia" "Mia" nobody).1

with_mia-Reachable : Reachable with_mia
unfolding lookup
with_mia-Reachable = created 5 "u1" "mia" "Mia" nobody named refl (started new_bus)

second_refused :
    (create_character 6 "u2" "mia" "Mina" with_mia).0 ≡ err (alive_character_exists "mia")
unfolding create_character lookup insert
second_refused = refl

killed_once :
    (kill_character 8 "u1" "fell" (kill_character 7 "u1" "starved" with_mia).1).0
    ≡ err (not_alive "u1")
unfolding kill_character bury create_character lookup insert remove publish
killed_once = refl

free_again : find_alive_by_account "mia" (reset_character 9 "mia" with_mia).1 ≡ none
unfolding find_alive_by_account reset_character kill_character bury create_character lookup insert
    remove publish
free_again = refl

mia-Lives : Lives "mia" "u1" (newborn 5 "u1" "mia" "Mia") with_mia
unfolding create_character lookup insert
mia-Lives = (refl, refl, refl)

abbrev mia_dead : CharactersService
mia_dead = (kill_character 7 "u1" "plague" with_mia).1

Reachable-one_alive_example :
    ((find_alive_by_account "mia" mia_dead ≡ some (newborn 5 "u1" "mia" "Mia"))
      × (◌≡◌ {A = String} "u1" "u1"))
    ↔ Lives "mia" "u1" (newborn 5 "u1" "mia" "Mia") mia_dead
Reachable-one_alive_example =
    Reachable-one_alive mia_dead "mia" "u1" (newborn 5 "u1" "mia" "Mia")
      (killed 7 "u1" "plague" with_mia with_mia-Reachable)

create_character-found_example :
    ((create_character 6 "u2" "tom" "Tom" with_mia).0 ≡ ok (newborn 6 "u2" "tom" "Tom"))
    × Created 6 "u2" "tom" "Tom" with_mia (create_character 6 "u2" "tom" "Tom" with_mia).1
unfolding create_character lookup insert find_alive_by_account
create_character-found_example =
    create_character-found 6 "u2" "tom" "Tom" with_mia with_mia-Reachable named_later refl refl
