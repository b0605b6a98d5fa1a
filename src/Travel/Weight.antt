-- ===== src/Travel/Weight.antt =====
-- server/src/modules/travel/travel.service.ts, `computeTravelDuration`: how long a journey takes.
use mmorpg_design_documents.Base.{◌≡◌, refl, ◌∙◌, ap, inl, inr, Bool-cases, arith}
use mmorpg_design_documents.Base.Int.{ℤ, pos, ◌*ℤ◌, ◌≤ℤ◌, *ℤ_nonneg}
use mmorpg_design_documents.Base.Double.{Double, IsRounded, ◌≲◌}
use mmorpg_design_documents.Travel.{overweight, compute_travel_duration}

module _ {W : Type 0} ⦃d : Double W⦄ (laws : IsRounded W) where
  open laws use {
    whole_mono, at_most_trans, at_most_total, sub_mono, add_mono, mul_mono, scale_mono, ceil_mono,
    decimal_nonneg, zero-mul, add-zero, mul-one, ceil-whole,
  }

  overweight-light :
      (weight : W)
      → d.sub weight (d.whole (pos 50)) ≲ d.whole (pos 0)
      → overweight weight ≡ d.whole (pos 0)
  unfolding overweight
  overweight-light weight light = rw light refl

  -- A load that is at most 50 kg costs no time: the journey takes the minutes of the edge exactly.
  pub compute_travel_duration-light :
      (minutes : ℤ) (weight : W)
      → d.sub weight (d.whole (pos 50)) ≲ d.whole (pos 0)
      → compute_travel_duration minutes weight ≡ minutes *ℤ pos 60000
  unfolding compute_travel_duration
  compute_travel_duration-light minutes weight light =
      let base = d.whole (minutes *ℤ pos 60000) in
      ap (λ o. d.ceil (d.mul base (d.add (d.whole (pos 1)) (d.mul o (d.decimal 1 2)))))
        (overweight-light weight light)
      ∙ ap (λ p. d.ceil (d.mul base (d.add (d.whole (pos 1)) p))) (zero-mul (d.decimal 1 2))
      ∙ ap (λ p. d.ceil (d.mul base p)) (add-zero (d.whole (pos 1)))
      ∙ ap d.ceil (mul-one base)
      ∙ ceil-whole (minutes *ℤ pos 60000)

  overweight_mono : (v w : W) → v ≲ w → overweight v ≲ overweight w
  unfolding overweight
  overweight_mono v w h =
      let zero = d.whole (pos 0) in
      let a = d.sub v (d.whole (pos 50)) in
      let b = d.sub w (d.whole (pos 50)) in
      elim (Bool-cases (d.at_most a zero)) [
        | inl light ↦ elim (Bool-cases (d.at_most b zero)) [
          | inl light' ↦ rw (light, light') (whole_mono (pos 0) (pos 0) (omega arith))
          | inr heavy ↦
              rw (light, heavy)
                (elim (at_most_total zero b) [
                  | inl over ↦ over
                  | inr under ↦ absurd (cc (heavy, under))
                ])
        ]
        | inr heavy ↦ elim (Bool-cases (d.at_most b zero)) [
          | inl light ↦ absurd (cc (heavy, at_most_trans a b zero (sub_mono _ v w h) light))
          | inr heavy' ↦ rw (heavy, heavy') (sub_mono _ v w h)
        ]
      ]

  -- A heavier cargo never makes the journey shorter.
  pub compute_travel_duration_mono :
      (minutes : ℤ) (v w : W)
      → pos 0 ≤ℤ minutes
      → v ≲ w
      → compute_travel_duration minutes v ≤ℤ compute_travel_duration minutes w
  unfolding compute_travel_duration
  compute_travel_duration_mono minutes v w h heavier = ceil_mono _ _ (
      mul_mono _ _ _ (whole_mono (pos 0) _ (*ℤ_nonneg minutes (pos 60000) h (omega arith)))
        (add_mono _ _ _ (scale_mono _ _ _ (decimal_nonneg 1 2) (overweight_mono v w heavier))))
