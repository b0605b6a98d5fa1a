-- ===== src/Birth/Tests.antt =====
-- Runs of birth rituals at concrete inputs, with whole numbers in place of doubles.
use mmorpg_design_documents.Base.{◌≡◌, refl, some, none, List, [], ◌∷◌, ok, err, arith}
use mmorpg_design_documents.Base.Int.{ℤ, pos, ◌+ℤ◌, ◌-ℤ◌, floor_div}
use mmorpg_design_documents.Base.Double.{whole_double}
use mmorpg_design_documents.Base.Key.{EntityId, issued, string_eq, entity_eq, entity_beq}
use mmorpg_design_documents.Base.Dict.{lookup, insert}
use mmorpg_design_documents.Events.{new_bus, publish, character_born}
use mmorpg_design_documents.Wheels.{
  race, aptitude, trait, origin, omen, wheel_eq, WheelContentFile, spin, get_wheel_definition,
  weighted_select, select_from,
}
use mmorpg_design_documents.Random.{mulberry32, hash_from, hash_step}
use mmorpg_design_documents.Wheels.Content.{wheels_json}
use mmorpg_design_documents.Birth.{
  in_progress, BirthRitual, BirthService, finished, spin_wheel, complete_ritual, start_ritual,
  unspun, get_balance, recorded, cooldown_active, wheel_outcomes,
}
use mmorpg_design_documents.Birth.Invariant.{IsSound}
use mmorpg_design_documents.Birth.Spins.{begun}
use mmorpg_design_documents.Birth.Runs.{
  Call, start, turn_wheel, end, credit, run, run-IsSound, empty-IsSound,
}
use mmorpg_design_documents.Birth.Finality.{complete_ritual-final}
use mmorpg_design_documents.Birth.Charges.{Spent, spin_wheel-charge}
use mmorpg_design_documents.Birth.Pauses.{spin_wheel-pause}

abbrev content : WheelContentFile ℤ
content = wheels_json

abbrev empty : BirthService
empty = record { rituals = []; cooldowns = []; balances = []; id_counter = 0; bus = new_bus }

abbrev chr : EntityId
chr = issued "chr" 5 1

abbrev calls : List Call
calls =
    start 5 "mia"
    ∷ turn_wheel chr race 6
    ∷ turn_wheel chr aptitude 7
    ∷ turn_wheel chr trait 8
    ∷ turn_wheel chr origin 9
    ∷ []

run-IsSound_example : IsSound (run content calls empty)
run-IsSound_example = run-IsSound content calls empty (empty-IsSound empty refl)

abbrev spun_ritual : BirthRitual
spun_ritual = record {
  account_id = "mia";
  character_id = chr;
  status = in_progress;
  spins = (race, "golem") ∷ (aptitude, "balanced") ∷ (trait, "stoic") ∷ (origin, "shipborn") ∷ [];
  reroll_counts = (race, 1) ∷ (aptitude, 1) ∷ (trait, 1) ∷ (origin, 1) ∷ [];
  created_at = 5;
  completed_at = none;
}

stored_after_run : lookup chr (run content calls empty).rituals ≡ some spun_ritual
unfolding run start_ritual spin_wheel lookup insert entity_beq spin get_wheel_definition
    weighted_select select_from ◌+ℤ◌ floor_div mulberry32 hash_from hash_step
stored_after_run = refl

abbrev later : List Call
later = turn_wheel chr race 11 ∷ end 12 chr ∷ start 13 "mia" ∷ []

run-IsSound_lem : IsSound (run content calls empty)
run-IsSound_lem = run-IsSound content calls empty (empty-IsSound empty refl)

abbrev ready : BirthService
ready = run content calls empty

complete_ritual-final_example :
    ((complete_ritual 10 chr ready).0 ≡ ok (finished 10 spun_ritual))
    × (lookup chr (run content later (complete_ritual 10 chr ready).1).rituals
        ≡ some (finished 10 spun_ritual))
    × ((complete_ritual 10 chr ready).1.bus
        ≡ publish 10 10
            (character_born (record {
              account_id = "mia";
              character_id = chr;
              wheel_outcomes = wheel_outcomes spun_ritual;
            }))
            ready.bus)
unfolding unspun lookup
complete_ritual-final_example =
    complete_ritual-final content 10 chr spun_ritual ready later run-IsSound_lem stored_after_run
      refl refl

-- A reroll after the pause, by an account with 80 coins.
abbrev richer : BirthService
richer = record {
  rituals = (chr, spun_ritual) ∷ [];
  cooldowns = [];
  balances = ("mia", pos 80) ∷ [];
  id_counter = 1;
  bus = new_bus;
}

charged : get_balance "mia" (spin_wheel chr race 20 content richer).1 ≡ pos 30
unfolding spin_wheel lookup entity_beq spin get_wheel_definition weighted_select select_from ◌+ℤ◌
    floor_div mulberry32 hash_from hash_step insert ◌-ℤ◌
charged = refl

stored_richer : lookup chr richer.rituals ≡ some spun_ritual
unfolding lookup entity_beq
stored_richer = refl

rerolled :
    (spin_wheel chr race 20 content richer).0 ≡ ok ("golem", recorded race "golem" 1 spun_ritual)
unfolding spin_wheel lookup entity_beq spin get_wheel_definition weighted_select select_from ◌+ℤ◌
    floor_div mulberry32 hash_from hash_step
rerolled = refl

spin_wheel-charge_example :
    Spent chr race 20 content spun_ritual "golem"
      (recorded race "golem" 1 spun_ritual)
      richer
      (spin_wheel chr race 20 content richer).1
spin_wheel-charge_example =
    spin_wheel-charge chr race 20 content spun_ritual (recorded race "golem" 1 spun_ritual) "golem"
      richer stored_richer refl rerolled

first_omen :
    (spin_wheel chr omen 20 content ready).0 ≡ ok ("none", recorded omen "none" 0 spun_ritual)
unfolding run start_ritual spin_wheel lookup insert entity_beq spin get_wheel_definition
    weighted_select select_from ◌+ℤ◌ floor_div mulberry32 hash_from hash_step
first_omen = refl

-- What happens before the omen wheel is turned again.
abbrev between_omens : List Call
between_omens = turn_wheel chr race 21 ∷ credit "mia" (pos 100) ∷ start 22 "tom" ∷ []

spin_wheel-pause_example :
    let t = run content between_omens (spin_wheel chr omen 20 content ready).1 in
    (q : BirthRitual) × (lookup chr t.rituals ≡ some q)
    × (spin_wheel chr omen 100 content t ≡ (err (cooldown_active omen 86400), begun chr q t))
spin_wheel-pause_example =
    spin_wheel-pause chr omen 20 100 content spun_ritual (recorded omen "none" 0 spun_ritual) "none"
      between_omens ready run-IsSound_lem stored_after_run refl first_omen (refl, (tt, (tt, tt)))
      (omega arith)
