-- ===== src/Progression/Tests.antt =====
-- Runs of the experience service at concrete inputs, with whole numbers for the doubles.
use mmorpg_design_documents.Base.{◌≡◌, false, some, [], ◌∷◌}
use mmorpg_design_documents.Base.Int.{ℤ, pos, ◌+ℤ◌}
use mmorpg_design_documents.Base.Double.{whole_double}
use mmorpg_design_documents.Base.Key.{string_eq}
use mmorpg_design_documents.Events.{new_bus}
use mmorpg_design_documents.Progression.Curves.{physical}
use mmorpg_design_documents.Progression.{
  SkillXpRecord, HiddenPotentialStats, XpService, get_skill_record, compute_effective_gain,
  award_xp,
}
use mmorpg_design_documents.Progression.Climb.{Climbed}
use mmorpg_design_documents.Progression.Levels.{
  held, IsSkilled, award, decay, run, award_xp-Climbed, run-IsSkilled,
}

abbrev school : XpService
school = record { store = []; bus = new_bus }

abbrev able : HiddenPotentialStats ℤ
able = record { growth_elasticity = pos 1; ceiling_bias = pos 1 }

award_xp-Climbed_example :
    let r = held "olga" "physical.run" school in
    let gain = compute_effective_gain ℤ (pos 250) r.level physical able in
    let after = award_xp ℤ 9 "olga" "physical.run" physical (pos 250) able (pos 3) school in
    (r' : SkillXpRecord) × (get_skill_record "olga" "physical.run" after.1 ≡ some r')
    × Climbed ℤ physical 9 "olga" "physical.run"
        (record r { current_xp = r.current_xp +ℤ gain; last_activity_day = pos 3 })
        false
        school.bus
        (r', after.0.levelled_up, after.1.bus)
award_xp-Climbed_example =
    award_xp-Climbed ℤ 9 "olga" "physical.run" physical (pos 250) able (pos 3) school

run-IsSkilled_example : IsSkilled (
    run
      (award 9 "olga" "physical.run" physical (pos 250) able (pos 3) ∷ decay "olga" (pos 90) ∷ [])
      school)
run-IsSkilled_example = run-IsSkilled _ school tt
