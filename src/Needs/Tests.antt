-- ===== src/Needs/Tests.antt =====
-- Runs of the needs service at concrete inputs.
use mmorpg_design_documents.Base.{ℕ, ◌*◌, ◌≡◌, refl, some, List, [], ◌∷◌, arith}
use mmorpg_design_documents.Base.Int.{ℤ, pos, ◌+ℤ◌, ◌-ℤ◌, ◌*ℤ◌, ◌≤ℤ◌, max_ℤ, floor_div}
use mmorpg_design_documents.Base.Key.{string_eq}
use mmorpg_design_documents.Base.Dict.{lookup}
use mmorpg_design_documents.Events.{new_bus}
use mmorpg_design_documents.Needs.{
  NeedDimension, nutrition, fatigue, hygiene, morale, belonging, CharacterNeeds, NeedsStore,
  get_modifier,
}
use mmorpg_design_documents.Needs.Bounds.{InRange}
use mmorpg_design_documents.Needs.Decay.{decay_days, days, rate, decay_days-value}

abbrev hungry : CharacterNeeds
hungry = record {
  character_id = "olga";
  value = λ d. elim d [
    | nutrition ↦ pos 8
    | fatigue ↦ pos 50
    | hygiene ↦ pos 50
    | morale ↦ pos 50
    | belonging ↦ pos 50
  ];
  updated_at = 0;
}

abbrev store : NeedsStore
store = ("olga", hungry) ∷ []

hungry_lower : (d : NeedDimension) → pos 0 ≤ℤ hungry.value d
hungry_lower nutrition = omega arith
hungry_lower fatigue = omega arith
hungry_lower hygiene = omega arith
hungry_lower morale = omega arith
hungry_lower belonging = omega arith

hungry_upper : (d : NeedDimension) → hungry.value d ≤ℤ pos 100
hungry_upper nutrition = omega arith
hungry_upper fatigue = omega arith
hungry_upper hygiene = omega arith
hungry_upper morale = omega arith
hungry_upper belonging = omega arith

hungry-InRange : InRange hungry
hungry-InRange = record { lower = hungry_lower; upper = hungry_upper }

modifier-store : (get_modifier 1 "olga" store).0 ≡ pos 84
unfolding get_modifier lookup ◌+ℤ◌ ◌-ℤ◌ ◌*ℤ◌ floor_div
modifier-store = refl

store-olga : lookup "olga" store ≡ some hungry
unfolding lookup
store-olga = refl

abbrev two_days : List (ℕ × ℤ)
two_days = (3, pos 2) ∷ (4, pos 3) ∷ []

decay_days-value_example :
    (n' : CharacterNeeds) × (lookup "olga" (decay_days two_days store new_bus).0 ≡ some n')
    × ((d : NeedDimension)
        → n'.value d ≡ max_ℤ (pos 0) (hungry.value d -ℤ pos (days two_days * rate d)))
decay_days-value_example =
    decay_days-value two_days "olga" store new_bus hungry store-olga hungry-InRange.lower
