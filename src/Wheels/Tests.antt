-- ===== src/Wheels/Tests.antt =====
-- Runs of the wheels at concrete inputs, with whole numbers in place of doubles.
use mmorpg_design_documents.Base.{◌≡◌, ◌≢◌, refl, String, List, [], ◌∷◌, ok}
use mmorpg_design_documents.Base.Int.{ℤ, pos, ◌+ℤ◌, floor_div}
use mmorpg_design_documents.Base.Double.{whole_double}
use mmorpg_design_documents.Wheels.{WheelOutcome, total_weight, select_from, weighted_select}
use mmorpg_design_documents.Wheels.Selection.{Chosen, weighted_select-Chosen}

-- Shares of 1 each, so that a roll of 1 is below the cursor after the second outcome.
abbrev wheel : List (WheelOutcome ℤ)
wheel = record { id = "oak"; label = "Oak"; weight = pos 5 } ∷ []

picks_oak : weighted_select wheel (pos 0) ≡ ok "oak"
unfolding weighted_select select_from ◌+ℤ◌ floor_div
picks_oak = refl

wheel_filled : wheel ≢ []
wheel_filled h = cc (h)

weighted_select-Chosen_example :
    (id : String) × (weighted_select wheel (pos 0) ≡ ok id)
    × Chosen (total_weight (pos 0) wheel) (pos 0) (pos 0) wheel id
weighted_select-Chosen_example = weighted_select-Chosen wheel (pos 0) wheel_filled
