-- ===== src/Travel/Hazards.antt =====
-- server/src/modules/travel/travel.service.ts, `rollHazard`.
use mmorpg_design_documents.Base.{
  ℕ, zero, suc, ◌+◌, ◌-◌, ◌*◌, ◌≡◌, Bool, true, false, String, arith, if◌then◌else◌, leb,
}
use mmorpg_design_documents.Base.Int.{ℤ, pos, ◌*ℤ◌, leb_ℤ, ltb_ℤ}

-- `outcome`, and its text. No branch of the code gives `failure`.
pub data Hazard : Type 0 where
  safe cargo_loss delay injury failure : Hazard

abbrev pub hazard_text : Hazard → String
hazard_text safe = "safe"
hazard_text cargo_loss = "cargo_loss"
hazard_text delay = "delay"
hazard_text injury = "injury"
hazard_text failure = "failure"

-- The threshold is ten times the level.
unfoldable pub hazard_of : ℤ → ℕ → Hazard
hazard_of level roll =
    if ltb_ℤ (pos 10 *ℤ level) (pos roll)
    then safe
    else if leb_ℤ (pos roll) (pos 3 *ℤ level)
    then cargo_loss
    else if leb_ℤ (pos roll) (pos 6 *ℤ level)
    then delay
    else injury

abbrev pub same_hazard : Hazard → Hazard → Bool
same_hazard safe safe = true
same_hazard cargo_loss cargo_loss = true
same_hazard delay delay = true
same_hazard injury injury = true
same_hazard failure failure = true
same_hazard _ _ = false

-- How many of the rolls from 1 up to n have an outcome.
abbrev pub odds : ℤ → Hazard → ℕ → ℕ
odds level h zero = 0
odds level h (suc n) = (if same_hazard (hazard_of level (suc n)) h then 1 else 0) + odds level h n

abbrev pub at_most : ℕ → ℕ → ℕ
at_most n m = if leb n m then n else m

-- Of the rolls from 1 to n, those up to ten times the level meet a hazard: the first three tenths of
-- them lose cargo, the next three are delays and the last four injuries. The rest are safe, and
-- none at all fails the journey.
pub odds_lem :
    (level n : ℕ)
    → (odds (pos level) cargo_loss n ≡ at_most n (3 * level))
      × (odds (pos level) delay n ≡ at_most n (6 * level) - at_most n (3 * level))
      × (odds (pos level) injury n ≡ at_most n (10 * level) - at_most n (6 * level))
      × (odds (pos level) safe n ≡ n - at_most n (10 * level))
      × (odds (pos level) failure n ≡ 0)
unfolding hazard_of ◌*ℤ◌
odds_lem level zero = ground arith
odds_lem level (suc n) = let ih = odds_lem level n in ground arith
