-- ===== src/Progression/Curves.antt =====
-- server/src/modules/progression/curves.ts: what a level costs.
use mmorpg_design_documents.Base.{Bool, not, ◌||◌, Option, none, some, if◌then◌else◌}
use mmorpg_design_documents.Base.Int.{ℤ, pos, ◌+ℤ◌, ◌-ℤ◌, leb_ℤ, ltb_ℤ}
use mmorpg_design_documents.Base.Double.{Double}

pub data StatFamily : Type 0 where
  physical mental social perceptual spiritual economic : StatFamily

abbrev pub peak_human_level : ℤ
peak_human_level = pos 100

abbrev pub superhuman_max_level : ℤ
superhuman_max_level = pos 500

abbrev pub decay_inactivity_threshold_days : ℤ
decay_inactivity_threshold_days = pos 30

module _ {W : Type 0} ⦃d : Double W⦄ where
  abbrev pub soft_cap_efficiency : W
  soft_cap_efficiency = d.decimal 1 1

  abbrev pub decay_rate_per_day : W
  decay_rate_per_day = d.decimal 2 3

  abbrev pub domain_multiplier : StatFamily → W
  domain_multiplier physical = d.decimal 10 1
  domain_multiplier mental = d.decimal 12 1
  domain_multiplier social = d.decimal 115 2
  domain_multiplier perceptual = d.decimal 11 1
  domain_multiplier spiritual = d.decimal 13 1
  domain_multiplier economic = d.decimal 125 2

  -- The cost in doubles of a level that can be left.
  pub raw_cost : ℤ → StatFamily → W
  raw_cost level family =
      let xp =
        d.mul (d.mul (d.whole (pos 100)) (d.pow (d.whole level) (d.decimal 185 2)))
          (domain_multiplier family) in
      if leb_ℤ peak_human_level level
      then d.mul xp (
          d.add (d.whole (pos 1))
            (d.pow (d.whole (level -ℤ peak_human_level +ℤ pos 1)) (d.decimal 35 2)))
      else xp

  pub is_soft_capped : ℤ → W → Bool
  is_soft_capped level bias = not (d.at_most (d.whole level) (d.mul bias (d.whole (pos 1000))))

module _ (W : Type 0) ⦃d : Double W⦄ where
  -- `none` is `Infinity`.
  unfoldable pub xp_required : ℤ → StatFamily → Option ℤ
  unfolding raw_cost
  xp_required level family =
      if ltb_ℤ level (pos 1) || leb_ℤ superhuman_max_level level
      then none
      else some (d.round (raw_cost {W = W} level family))
