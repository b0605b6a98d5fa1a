-- ===== src/Lifecycle/Stages.antt =====
-- server/src/modules/characters/lifecycle/lifecycle.service.ts: the life stage of an age.
use mmorpg_design_documents.Base.{ℕ, ◌-◌, ◌/◌, ◌≤◌, ◌≡◌, ◌∙◌, ap, refl, arith, if◌then◌else◌, ltb}
use mmorpg_design_documents.Base.Int.{
  ℤ, pos, negsuc, ◌-ℤ◌, ◌≤ℤ◌, ◌<ℤ◌, floor_div, pos_part, neg_part, int_laws,
}
use mmorpg_design_documents.Lifecycle.{
  LifeStage, infant, child, teen, adult, elder, CharacterRecord, compute_life_stage, stage_on,
  game_days_to_years, is_protected,
}

-- The ages at which the stages begin.
abbrev pub stage_of : ℕ → LifeStage
stage_of n =
    if ltb n 3
    then infant
    else if ltb n 10
    then child
    else if ltb n 15
    then teen
    else if ltb n 46
    then adult
    else elder

-- For an age that is not negative the ranges leave no gap: a stage lasts until the next begins.
-- An age below 0 is in no range and counts as `elder`.
pub compute_life_stage_lem :
    (age : ℤ) → compute_life_stage age ≡ elim age [ pos n ↦ stage_of n | negsuc n ↦ elder ]
unfolding compute_life_stage
compute_life_stage_lem (pos n) = ground arith
compute_life_stage_lem (negsuc n) = ground arith

abbrev pub rank : LifeStage → ℕ
rank infant = 0
rank child = 1
rank teen = 2
rank adult = 3
rank elder = 4

rank_mono : (n m : ℕ) → n ≤ m → rank (stage_of n) ≤ rank (stage_of m)
rank_mono n m h = ground arith

pos_of_nonneg : (x : ℤ) → pos 0 ≤ℤ x → x ≡ pos (pos_part x)
pos_of_nonneg (pos n) h = refl
pos_of_nonneg (negsuc n) h = absurd (omega arith)

-- The age in whole years of somebody born on or before the day.
abbrev pub years : ℤ → ℤ → ℕ
years born day = pos_part (day -ℤ born) / 365

stage_on-born :
    (day : ℤ) (r : CharacterRecord)
    → r.born_at_game_day ≤ℤ day
    → stage_on day r ≡ stage_of (years r.born_at_game_day day)
unfolding stage_on game_days_to_years
stage_on-born day r h =
    let age : day -ℤ r.born_at_game_day ≡ pos (pos_part (day -ℤ r.born_at_game_day)) =
      pos_of_nonneg (day -ℤ r.born_at_game_day) (omega int_laws) in
    ap (λ x. compute_life_stage (floor_div x 365)) age
    ∙ compute_life_stage_lem (floor_div (pos (pos_part (day -ℤ r.born_at_game_day))) 365)
    ∙ after (pos_part (day -ℤ r.born_at_game_day))
  where
    after :
        (n : ℕ)
        → elim (floor_div (pos n) 365) [ pos m ↦ stage_of m | negsuc m ↦ elder ]
          ≡ stage_of (n / 365)
    after n = unfold floor_div in refl

age_mono :
    (born day later : ℤ)
    → born ≤ℤ day
    → day ≤ℤ later
    → pos_part (day -ℤ born) ≤ pos_part (later -ℤ born)
age_mono born day later p q = rise (day -ℤ born) (later -ℤ born) (omega int_laws) (omega int_laws)
  where
    rise : (x y : ℤ) → pos 0 ≤ℤ x → x ≤ℤ y → pos_part x ≤ pos_part y
    rise (pos n) (pos m) h k = omega arith
    rise (pos n) (negsuc m) h k = absurd (omega arith)
    rise (negsuc n) y h k = absurd (omega arith)

-- From the day of birth on, a character's stage never goes back.
pub stage_on_mono :
    (r : CharacterRecord) (day later : ℤ)
    → r.born_at_game_day ≤ℤ day
    → day ≤ℤ later
    → rank (stage_on day r) ≤ rank (stage_on later r)
stage_on_mono r day later born h =
    rw (stage_on-born day r born, stage_on-born later r (omega arith))
      (rank_mono (years r.born_at_game_day day) (years r.born_at_game_day later) (
        older (pos_part (day -ℤ r.born_at_game_day)) (pos_part (later -ℤ r.born_at_game_day))
          (age_mono r.born_at_game_day day later born h)))
  where
    older : (a b : ℕ) → a ≤ b → a / 365 ≤ b / 365
    older a b p = omega arith

-- A character is protected exactly while it is younger than ten years.
pub is_protected-stage_on :
    (r : CharacterRecord) (day : ℤ)
    → r.born_at_game_day ≤ℤ day
    → is_protected (stage_on day r) ≡ ltb (years r.born_at_game_day day) 10
is_protected-stage_on r day born =
    rw (stage_on-born day r born) (young (years r.born_at_game_day day))
  where
    young : (n : ℕ) → is_protected (stage_of n) ≡ ltb n 10
    young n = ground arith

-- Before its day of birth a character counts as an elder.
pub stage_on_unborn :
    (r : CharacterRecord) (day : ℤ) → day <ℤ r.born_at_game_day → stage_on day r ≡ elder
unfolding stage_on game_days_to_years
stage_on_unborn r day h =
    ap (λ x. compute_life_stage (floor_div x 365))
      (below (day -ℤ r.born_at_game_day) (omega int_laws))
    ∙ compute_life_stage_lem (floor_div (negsuc (neg_part (day -ℤ r.born_at_game_day) - 1)) 365)
    ∙ (unfold floor_div in refl)
  where
    below : (x : ℤ) → x <ℤ pos 0 → x ≡ negsuc (neg_part x - 1)
    below (pos n) p = absurd (omega arith)
    below (negsuc n) p = ground arith
