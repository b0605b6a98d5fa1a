-- ===== src/Stats/Tests.antt =====
-- Runs of the stat service at concrete inputs, with whole numbers in place of doubles.
use mmorpg_design_documents.Base.{◌≡◌, refl, none, some, [], ok}
use mmorpg_design_documents.Base.Int.{ℤ, pos, ◌+ℤ◌, floor_div}
use mmorpg_design_documents.Base.Double.{whole_double, whole_double-IsRounded}
use mmorpg_design_documents.Base.Key.{string_eq}
use mmorpg_design_documents.Base.Dict.{lookup}
use mmorpg_design_documents.Events.{new_bus, WheelResult}
use mmorpg_design_documents.Random.{hash_from, hash_step, mulberry32}
use mmorpg_design_documents.Wheels.{
  aptitude, omen, spin, get_wheel_definition, weighted_select, select_from,
}
use mmorpg_design_documents.Wheels.Content.{wheels_json}
use mmorpg_design_documents.Stats.{
  StatService, accumulated_family, accumulated_potential, born_record, init_stats,
  seed_potential_stats, stat_key,
}
use mmorpg_design_documents.Stats.Ranges.{Initialised, init_stats-once}
use mmorpg_design_documents.Stats.Content.{spin-no_effect}

abbrev none_born : StatService
none_born = record { records = []; bus = new_bus }

abbrev dwarf : WheelResult
dwarf = record {
  race = "dwarf";
  aptitude = "artisan";
  trait = "brave";
  origin = "merchant";
  omen = some "flame";
}

abbrev dreamer : WheelResult
dreamer = record dwarf { aptitude = "scholar"; omen = some "dream" }

dwarf_is_strong : (accumulated_family dwarf).physical ≡ pos 11
unfolding accumulated_family lookup ◌+ℤ◌
dwarf_is_strong = refl

dwarf_crafts : (accumulated_potential dwarf).craft_intuition ≡ pos 20
unfolding accumulated_potential lookup ◌+ℤ◌
dwarf_crafts = refl

strength_key : stat_key "c1" "physical" "STR" ≡ 2903139514
unfolding stat_key hash_from hash_step
strength_key = refl

init_stats-once_example :
    ((init_stats ℤ 4 "c1" dwarf none_born).0 ≡ ok (born_record ℤ 4 "c1" dwarf))
    × Initialised ℤ whole_double-IsRounded 4 "c1" dwarf none_born
        (init_stats ℤ 4 "c1" dwarf none_born).1
unfolding lookup
init_stats-once_example = init_stats-once ℤ whole_double-IsRounded 4 "c1" dwarf none_born refl

drawn_aptitude : spin {W = ℤ} aptitude 7 wheels_json ≡ ok "balanced"
unfolding spin get_wheel_definition weighted_select select_from lookup ◌+ℤ◌ floor_div mulberry32
drawn_aptitude = refl

drawn_omen : spin {W = ℤ} omen 8 wheels_json ≡ ok "none"
unfolding spin get_wheel_definition weighted_select select_from lookup ◌+ℤ◌ floor_div mulberry32
drawn_omen = refl

spin-no_effect_example :
    seed_potential_stats ℤ "c1" (record dwarf { aptitude = "balanced"; omen = some "none" })
    ≡ seed_potential_stats ℤ "c1" (record dwarf { aptitude = ""; omen = none })
spin-no_effect_example = spin-no_effect ℤ "c1" "balanced" "none" 7 8 dwarf drawn_aptitude drawn_omen
