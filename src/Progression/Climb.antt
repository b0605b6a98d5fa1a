-- ===== src/Progression/Climb.antt =====
-- server/src/modules/progression/xp.service.ts, `awardXp`: the loop over the levels.
use mmorpg_design_documents.Base.{
  ℕ, zero, suc, ◌≡◌, refl, ◌∙◌, ◌⊎◌, ap, subst, inl, inr, Bool, true, false, ◌||◌, Bool-cases, none,
  some, Option-cases, String, arith, if◌then◌else◌,
}
use mmorpg_design_documents.Base.Int.{
  ℤ, pos, ◌+ℤ◌, ◌-ℤ◌, ◌≤ℤ◌, ◌<ℤ◌, leb_ℤ, ltb_ℤ, pos_part, neg_part, int_laws,
}
use mmorpg_design_documents.Base.Double.{Double}
use mmorpg_design_documents.Events.{DomainEventBus}
use mmorpg_design_documents.Progression.Curves.{StatFamily, xp_required}
use mmorpg_design_documents.Progression.{SkillXpRecord, affordable, risen, announced, climb}

guarded :
    (level xp n needed : ℤ)
    → (if leb_ℤ (pos 500) level || ltb_ℤ xp n then none else some n) ≡ some needed
    → (n ≡ needed) × (n ≤ℤ xp) × (level ≤ℤ pos 499)
guarded level xp n needed h = elim (Bool-cases (leb_ℤ (pos 500) level)) [
  | inl top ↦ absurd (cc (rw top at h))
  | inr low ↦ elim (Bool-cases (ltb_ℤ xp n)) [
    | inl poor ↦ absurd (cc (rw (low, poor) at h))
    | inr rich ↦ (cc (rw (low, rich) at h), enough rich, below low)
  ]
]
  where
    enough : ltb_ℤ xp n ≡ false → n ≤ℤ xp
    enough e = ground arith

    below : leb_ℤ (pos 500) level ≡ false → level ≤ℤ pos 499
    below e = ground arith

barred :
    (level xp n : ℤ)
    → (if leb_ℤ (pos 500) level || ltb_ℤ xp n then none else some n) ≡ none
    → (pos 500 ≤ℤ level) ⊎ (xp <ℤ n)
barred level xp n h = elim (Bool-cases (leb_ℤ (pos 500) level)) [
  | inl top ↦ inl (ground arith)
  | inr low ↦ elim (Bool-cases (ltb_ℤ xp n)) [
    | inl poor ↦ inr (ground arith)
    | inr rich ↦ absurd (cc (rw (low, rich) at h))
  ]
]

-- Whether a climb has raised the level, before or now.
abbrev pub flagged : ℕ → Bool → Bool
flagged zero up = up
flagged (suc n) up = true

flagged-true : (n : ℕ) → flagged n true ≡ true
flagged-true zero = refl
flagged-true (suc n) = refl

spend : (x p n k xp : ℤ) → p ≡ n → x +ℤ k ≡ xp -ℤ n → x +ℤ (p +ℤ k) ≡ xp
spend x p n k xp same e = rw same (omega (int_laws, ap pos_part e, ap neg_part e))

module _ (W : Type 0) ⦃d : Double W⦄ (family : StatFamily) where
  -- What a level costs to leave; nothing where it cannot be left.
  pub price : ℤ → ℤ
  price level = elim (xp_required W level family) [ none ↦ pos 0 | some needed ↦ needed ]

  -- What n levels cost from one on.
  pub cost : ℕ → ℤ → ℤ
  cost zero level = pos 0
  cost (suc n) level = price level +ℤ cost n (level +ℤ pos 1)

  pub affordable-some :
      (r : SkillXpRecord) (needed : ℤ)
      → affordable W family r ≡ some needed
      → (price r.level ≡ needed) × (needed ≤ℤ r.current_xp) × (r.level ≤ℤ pos 499)
  unfolding affordable price
  affordable-some r needed h = elim (Option-cases (xp_required W r.level family)) [
    | inl e ↦ absurd (cc (rw (affordable, e) at h))
    | inr (n, e) ↦
        let (same, paid, low) = guarded r.level r.current_xp n needed (rw (affordable, e) at h) in
        (rw (price, e) same, subst (λ m. m ≤ℤ r.current_xp) same paid, low)
  ]

  affordable-none :
      (r : SkillXpRecord)
      → affordable W family r ≡ none
      → (pos 500 ≤ℤ r.level)
        ⊎ (xp_required W r.level family ≡ none)
        ⊎ (r.current_xp <ℤ price r.level)
  unfolding affordable price
  affordable-none r h = elim (Option-cases (xp_required W r.level family)) [
    | inl e ↦ inr (inl e)
    | inr (n, e) ↦ elim (barred r.level r.current_xp n (rw (affordable, e) at h)) [
      | inl top ↦ inl top
      | inr poor ↦ inr (inr (rw (price, e) poor))
    ]
  ]

  -- The events of n levels gained from one on, in order.
  pub announce : ℕ → ℕ → String → String → ℤ → DomainEventBus → DomainEventBus
  announce zero now c skill level bus = bus
  announce (suc n) now c skill level bus =
      announce n now c skill (level +ℤ pos 1) (announced now c skill (level +ℤ pos 1) bus)

  -- A climb of n levels: the experience is spent on exactly these levels, one event tells of each,
  -- no debt is made for one, and at its end the level is the highest of all, cannot be left, or costs more than is left.
  pub record Climbed (now : ℕ) (c skill : String) (r : SkillXpRecord) (up : Bool)
      (bus : DomainEventBus) (after : SkillXpRecord × Bool × DomainEventBus) : Type 0 where
    pub gained : ℕ
    pub level : after.0.level ≡ r.level +ℤ pos gained
    pub spent : after.0.current_xp +ℤ cost gained r.level ≡ r.current_xp
    pub told : after.2 ≡ announce gained now c skill r.level bus
    pub flag : after.1 ≡ flagged gained up
    pub owned : (gained ≡ 0) ⊎ (pos 0 ≤ℤ after.0.current_xp)
    pub ended :
        (pos 500 ≤ℤ after.0.level)
        ⊎ (xp_required W after.0.level family ≡ none)
        ⊎ (after.0.current_xp <ℤ price after.0.level)

  stays :
      (now : ℕ) (c skill : String) (r : SkillXpRecord) (up : Bool) (bus : DomainEventBus)
      → affordable W family r ≡ none
      → Climbed now c skill r up bus (r, up, bus)
  unfolding cost announce
  stays now c skill r up bus e = record {
    gained = 0;
    level = omega int_laws;
    spent = omega int_laws;
    told = refl;
    flag = refl;
    owned = inl refl;
    ended = affordable-none r e;
  }

  rises :
      (now : ℕ) (c skill : String) (r : SkillXpRecord) (up : Bool) (bus : DomainEventBus)
      (needed : ℤ) (after : SkillXpRecord × Bool × DomainEventBus)
      → price r.level ≡ needed
      → needed ≤ℤ r.current_xp
      → Climbed now c skill
          (risen needed r)
          true
          (announced now c skill (r.level +ℤ pos 1) bus)
          after
      → Climbed now c skill r up bus after
  unfolding cost announce
  rises now c skill r up bus needed after same paid h = record {
    gained = suc h.gained;
    level = h.level ∙ omega int_laws;
    spent = spend after.0.current_xp _ needed _ r.current_xp same h.spent;
    told = h.told;
    flag = h.flag ∙ flagged-true h.gained;
    owned = inr (elim h.owned [
      | inr fine ↦ fine
      | inl none_gained ↦ kept after.0.current_xp r.current_xp needed paid (
          subst (λ n. after.0.current_xp +ℤ cost n (r.level +ℤ pos 1) ≡ r.current_xp -ℤ needed)
            none_gained h.spent)
    ]);
    ended = h.ended;
  }
    where
      kept : (x xp n : ℤ) → n ≤ℤ xp → x +ℤ pos 0 ≡ xp -ℤ n → pos 0 ≤ℤ x
      kept x xp n h e = omega (int_laws, h, ap pos_part e, ap neg_part e)

  pub climb-Climbed :
      (fuel now : ℕ) (c skill : String) (r : SkillXpRecord) (up : Bool) (bus : DomainEventBus)
      → pos 500 ≤ℤ r.level +ℤ pos fuel
      → Climbed now c skill r up bus (climb W fuel now c skill family r up bus)
  unfolding climb cost announce
  climb-Climbed zero now c skill r up bus enough = elim (Option-cases (affordable W family r)) [
    | inl e ↦ stays now c skill r up bus e
    | inr (needed, e) ↦
        let (same, paid, low) = affordable-some r needed e in absurd (omega int_laws)
  ]
  climb-Climbed (suc fuel) now c skill r up bus enough =
      elim (Option-cases (affordable W family r)) [
        | inl e ↦ rw (climb, e) (stays now c skill r up bus e)
        | inr (needed, e) ↦
            let (same, paid, low) = affordable-some r needed e in
            rw (climb, e)
              (rises now c skill r up bus needed _ same paid (
                climb-Climbed fuel now c skill (risen needed r) true
                  (announced now c skill (r.level +ℤ pos 1) bus) (omega int_laws)))
      ]
