-- ===== src/BotDetection/Tests.antt =====
-- Runs of the bot detection at concrete inputs.
use mmorpg_design_documents.Base.{◌+◌, ◌≡◌, refl, true, false, List, [], ◌∷◌, arith, ltb}
use mmorpg_design_documents.Base.Int.{ℤ, pos, ◌-ℤ◌}
use mmorpg_design_documents.Base.Dict.{lookup, insert}
use mmorpg_design_documents.BotDetection.{check}
use mmorpg_design_documents.BotDetection.Window.{Call, run, IsSince, IsOrdered, calls, check-flags}

abbrev call : ℤ → Call
call t = record { character_id = "olga"; action_key = "buy"; at = t }

abbrev burst : List Call
burst = call (pos 1900) ∷ call (pos 1500) ∷ call (pos 1400) ∷ call (pos 1300) ∷ call (pos 1000) ∷ []

-- Six within a second are flagged; once the first is a second old, they are five again.
burst_flagged :
    ((check "olga" "buy" (pos 1999) (run burst)).0 ≡ true)
    × ((check "olga" "buy" (pos 2000) (run burst)).0 ≡ false)
unfolding check run lookup insert ◌-ℤ◌
burst_flagged = (refl, refl)

burst-IsOrdered : IsOrdered burst
unfolding IsOrdered IsSince
burst-IsOrdered = (omega arith, (omega arith, (omega arith, (omega arith, (tt, tt)))))

burst-IsSince : IsSince (pos 1999) burst
unfolding IsSince
burst-IsSince = omega arith

check-flags_example :
    (check "olga" "buy" (pos 1999) (run burst)).0 ≡ ltb 5 (calls "olga" "buy" (pos 1999) burst + 1)
check-flags_example = check-flags "olga" "buy" (pos 1999) burst burst-IsOrdered burst-IsSince
