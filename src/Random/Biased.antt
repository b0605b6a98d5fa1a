-- ===== src/Random/Biased.antt =====
-- What `biasedStatValue` of server/src/modules/characters/stats/stat.service.ts and `biasedWeight` of
-- .../traits/trait.service.ts share: a value between two bounds, drawn around a centre.
use mmorpg_design_documents.Base.{
  ℕ, ◌≡◌, sym, ap, subst, ◌∙◌, false, inl, inr, Bool-cases, if◌then◌else◌, arith,
}
use mmorpg_design_documents.Base.Int.{ℤ, pos, ◌+ℤ◌, ◌-ℤ◌, ◌≤ℤ◌, int_laws, eq_of_parts}
use mmorpg_design_documents.Base.Double.{Double, IsRounded, ◌≲◌, Exact}
use mmorpg_design_documents.Random.{seeded_random}

module _ {κ} {W : Type κ} ⦃doubles : Double W⦄ where
  -- `Math.min(a, b)` and `Math.max(a, b)`
  abbrev pub min_of : W → W → W
  min_of a b = if doubles.at_most a b then a else b

  abbrev pub max_of : W → W → W
  max_of a b = if doubles.at_most a b then b else a

  -- `Math.max(0, Math.min(1, x))`
  unfoldable pub clamp_unit : W → W
  clamp_unit x = max_of (doubles.whole (pos 0)) (min_of (doubles.whole (pos 1)) x)

  -- `raw * 0.4 - 0.2`
  abbrev pub noise : ℕ → W
  noise seed =
      doubles.sub (doubles.mul (seeded_random seed) (doubles.decimal 4 1)) (doubles.decimal 2 1)

  -- The rest of the two functions, once the centre is known.
  unfoldable pub value_around : W → ℕ → ℤ → ℤ → ℤ
  unfolding clamp_unit
  value_around centre seed low high = doubles.round (
      doubles.add (doubles.whole low) (
        doubles.mul (clamp_unit (doubles.add centre (noise seed)))
          (doubles.sub (doubles.whole high) (doubles.whole low))))

  module _ (laws : IsRounded W) where
    refl_le : (x : W) → x ≲ x
    refl_le x = elim (laws.at_most_total x x) [ inl h ↦ h | inr h ↦ h ]

    zero_le_one : doubles.whole (pos 0) ≲ doubles.whole (pos 1)
    zero_le_one = laws.whole_mono (pos 0) (pos 1) (omega arith)

    turned_round : (x y : W) → doubles.at_most x y ≡ false → y ≲ x
    turned_round x y h = elim (laws.at_most_total x y) [ inl k ↦ absurd (cc (h, k)) | inr k ↦ k ]

    min_of-le : (a b : W) → (min_of a b ≲ a) × (min_of a b ≲ b)
    min_of-le a b = elim (Bool-cases (doubles.at_most a b)) [
      | inl e ↦ rw e (refl_le a, e)
      | inr e ↦ rw e (turned_round a b e, refl_le b)
    ]

    max_of-between : (a b c : W) → a ≲ c → b ≲ c → (a ≲ max_of a b) × (max_of a b ≲ c)
    max_of-between a b c h k = elim (Bool-cases (doubles.at_most a b)) [
      | inl e ↦ rw e (e, k)
      | inr e ↦ rw e (refl_le a, h)
    ]

    pub clamp_unit-between :
        (x : W) → (doubles.whole (pos 0) ≲ clamp_unit x) × (clamp_unit x ≲ doubles.whole (pos 1))
    unfolding clamp_unit
    clamp_unit-between x =
        max_of-between (doubles.whole (pos 0)) (min_of (doubles.whole (pos 1)) x)
          (doubles.whole (pos 1)) zero_le_one (min_of-le (doubles.whole (pos 1)) x).0

    min_of_mono : (a x y : W) → x ≲ y → min_of a x ≲ min_of a y
    min_of_mono a x y h = elim (Bool-cases (doubles.at_most a y)) [
      | inl e ↦ rw e (min_of-le a x).0
      | inr e ↦ rw e (laws.at_most_trans (min_of a x) x y (min_of-le a x).1 h)
    ]

    max_of_mono : (a x y : W) → x ≲ y → max_of a x ≲ max_of a y
    max_of_mono a x y h = elim (Bool-cases (doubles.at_most a x)) [
      | inl e ↦ rw (e, laws.at_most_trans a x y e h) h
      | inr e ↦
          rw e
            (elim (Bool-cases (doubles.at_most a y)) [ inl f ↦ rw f f | inr f ↦ rw f (refl_le a) ])
    ]

    pub clamp_unit_mono : (x y : W) → x ≲ y → clamp_unit x ≲ clamp_unit y
    unfolding clamp_unit
    clamp_unit_mono x y h =
        max_of_mono (doubles.whole (pos 0)) (min_of (doubles.whole (pos 1)) x)
          (min_of (doubles.whole (pos 1)) y) (min_of_mono (doubles.whole (pos 1)) x y h)

    gap_nonneg :
        (low high : ℤ)
        → low ≤ℤ high
        → Exact low
        → Exact high
        → doubles.whole (pos 0) ≲ doubles.sub (doubles.whole high) (doubles.whole low)
    gap_nonneg low high le p q =
        subst (λ g. doubles.whole (pos 0) ≲ g) (sym (laws.whole-sub high low q p))
          (laws.whole_mono (pos 0) (high -ℤ low) (omega int_laws))

    -- A higher centre gives no lower value, for the same seed.
    pub value_around_mono :
        (x y : W) (seed : ℕ) (low high : ℤ)
        → low ≤ℤ high
        → Exact low
        → Exact high
        → x ≲ y
        → value_around x seed low high ≤ℤ value_around y seed low high
    unfolding value_around
    value_around_mono x y seed low high le p q h = laws.round_mono _ _ (
        laws.add_mono _ _ _ (
          laws.scale_mono (clamp_unit (doubles.add x (noise seed)))
            (clamp_unit (doubles.add y (noise seed))) _ (gap_nonneg low high le p q)
            (clamp_unit_mono (doubles.add x (noise seed)) (doubles.add y (noise seed))
              (laws.add_mono_left x y (noise seed) h))))

    low_below :
        (u : W) (low high : ℤ)
        → low ≤ℤ high
        → Exact low
        → Exact high
        → doubles.whole (pos 0) ≲ u
        → doubles.whole low
          ≲ doubles.add
              (doubles.whole low)
              (doubles.mul u (doubles.sub (doubles.whole high) (doubles.whole low)))
    low_below u low high le p q h =
        subst (λ x. x ≲ doubles.add (doubles.whole low) (doubles.mul u gap))
          (laws.add-zero (doubles.whole low))
          (laws.add_mono (doubles.whole low) (doubles.whole (pos 0)) (doubles.mul u gap) (
            subst (λ x. x ≲ doubles.mul u gap) (laws.zero-mul gap)
              (laws.scale_mono (doubles.whole (pos 0)) u gap (gap_nonneg low high le p q) h)))
      where
        gap : W
        gap = doubles.sub (doubles.whole high) (doubles.whole low)

    low_gap :
        (low high : ℤ)
        → Exact low
        → Exact high
        → Exact (high -ℤ low)
        → doubles.add (doubles.whole low) (doubles.sub (doubles.whole high) (doubles.whole low))
          ≡ doubles.whole high
    low_gap low high p q r =
        ap (λ g. doubles.add (doubles.whole low) g) (laws.whole-sub high low q p)
        ∙ laws.whole-add low (high -ℤ low) p r
        ∙ ap doubles.whole (eq_of_parts (low +ℤ (high -ℤ low)) high (omega int_laws))

    high_above :
        (u : W) (low high : ℤ)
        → low ≤ℤ high
        → Exact low
        → Exact high
        → Exact (high -ℤ low)
        → u ≲ doubles.whole (pos 1)
        → doubles.add
            (doubles.whole low)
            (doubles.mul u (doubles.sub (doubles.whole high) (doubles.whole low)))
          ≲ doubles.whole high
    high_above u low high le p q r h =
        subst (λ x. doubles.add (doubles.whole low) (doubles.mul u gap) ≲ x)
          (low_gap low high p q r)
          (laws.add_mono (doubles.whole low) (doubles.mul u gap) gap (
            subst (λ x. doubles.mul u gap ≲ x) (laws.one-mul gap)
              (laws.scale_mono u (doubles.whole (pos 1)) gap (gap_nonneg low high le p q) h)))
      where
        gap : W
        gap = doubles.sub (doubles.whole high) (doubles.whole low)

    -- The value is within the bounds, whatever the seed and the centre.
    pub value_around-range :
        (centre : W) (seed : ℕ) (low high : ℤ)
        → low ≤ℤ high
        → Exact low
        → Exact high
        → Exact (high -ℤ low)
        → (low ≤ℤ value_around centre seed low high) × (value_around centre seed low high ≤ℤ high)
    unfolding value_around
    value_around-range centre seed low high le p q r = (
      subst (λ x. x ≤ℤ value_around centre seed low high) (laws.round-whole low)
          (laws.round_mono _ _ (low_below u low high le p q (clamp_unit-between x).0)),
      subst (λ x. value_around centre seed low high ≤ℤ x) (laws.round-whole high)
          (laws.round_mono _ _ (high_above u low high le p q r (clamp_unit-between x).1)),
    )
      where
        x : W
        x = doubles.add centre (noise seed)

        u : W
        u = clamp_unit x
