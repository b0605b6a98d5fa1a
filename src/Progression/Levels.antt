-- ===== src/Progression/Levels.antt =====
-- server/src/modules/progression/xp.service.ts: an award as a whole, and the bounds that the levels
-- keep.
use text.Mathlib.Text.{starts_with}
use mmorpg_design_documents.Base.{
  ℕ, zero, suc, ◌≡◌, ◌∙◌, ap, subst, inl, inr, Bool, true, false, not, ◌||◌, Bool-cases, some,
  Option-cases, List, [], ◌∷◌, String, arith,
}
use mmorpg_design_documents.Base.Int.{ℤ, pos, ◌+ℤ◌, ◌≤ℤ◌, leb_ℤ, ltb_ℤ, max_ℤ, int_laws}
use mmorpg_design_documents.Base.Double.{Double}
use mmorpg_design_documents.Base.Key.{string_eq}
use mmorpg_design_documents.Base.Dict.{
  Dict, lookup, insert, lookup-insert_self, Every, insert-Every, lookup-Every,
}
use mmorpg_design_documents.Events.{DomainEventBus}
use mmorpg_design_documents.Progression.Curves.{StatFamily}
use mmorpg_design_documents.Progression.Climb.{Climbed, climb-Climbed, affordable-some}
use mmorpg_design_documents.Progression.{
  SkillXpRecord, HiddenPotentialStats, Skills, XpService, skills_of, record_of, put_record,
  get_or_create, get_skill_record, affordable, risen, climb, fuel_for, compute_effective_gain,
  award_xp, decayed_level, decay_record, decay_each, apply_decay, overdue, worn,
}

abbrev pub held : String → String → XpService → SkillXpRecord
held c skill s = record_of (lookup skill (skills_of (lookup c s.store)))

lookup-put_record :
    (c skill : String) (r : SkillXpRecord) (store : Dict String Skills)
    → lookup skill (skills_of (lookup c (put_record c skill r store))) ≡ some r
lookup-put_record c skill r store =
    let skills = insert skill r (skills_of (lookup c store)) in
    ap (λ o. lookup skill (skills_of o)) (lookup-insert_self c skills store)
    ∙ lookup-insert_self skill r (skills_of (lookup c store))

fuel-enough : (r : SkillXpRecord) → pos 500 ≤ℤ r.level +ℤ pos (fuel_for r)
fuel-enough r = omega int_laws

module _ (W : Type 0) ⦃d : Double W⦄ where
  -- An award pays the effective gain into the skill's record, then climbs as far as the experience
  -- goes and no further: what it leaves and what the levels gained have cost are together what
  -- there was, and where it stops the level is at least 500, cannot be left, or costs more to leave
  -- than the experience that is left. Each level gained is announced once and in order, and the
  -- result says whether any was.
  pub award_xp-Climbed :
      (now : ℕ) (c skill : String) (family : StatFamily) (raw : W)
      (potential : HiddenPotentialStats W) (day : ℤ) (s : XpService)
      → let r = held c skill s in
        let gain = compute_effective_gain W raw r.level family potential in
        let after = award_xp W now c skill family raw potential day s in
        (r' : SkillXpRecord) × (get_skill_record c skill after.1 ≡ some r')
        × Climbed W family now c skill
            (record r { current_xp = r.current_xp +ℤ gain; last_activity_day = day })
            false
            s.bus
            (r', after.0.levelled_up, after.1.bus)
  unfolding award_xp get_or_create get_skill_record
  award_xp-Climbed now c skill family raw potential day s = (
    (climb W (fuel_for r) now c skill family paid false s.bus).0,
    lookup-put_record c skill _ _,
    climb-Climbed W family (fuel_for r) now c skill paid false s.bus (fuel-enough r),
  )
    where
      r : SkillXpRecord
      r = held c skill s

      paid : SkillXpRecord
      paid = record r {
        current_xp = r.current_xp +ℤ compute_effective_gain W raw r.level family potential;
        last_activity_day = day;
      }

-- A level is one of the scale, and experience is not negative.
pub record Skilled (r : SkillXpRecord) : Type 0 where
  pub low : pos 1 ≤ℤ r.level
  pub top : r.level ≤ℤ pos 500
  pub owned : pos 0 ≤ℤ r.current_xp

abbrev pub AllSkilled : Skills → Type 0
AllSkilled skills = Every Skilled skills

abbrev pub IsSkilled : XpService → Type 0
IsSkilled s = Every AllSkilled s.store

skills_of-AllSkilled :
    (c : String) (store : Dict String Skills)
    → Every AllSkilled store
    → AllSkilled (skills_of (lookup c store))
skills_of-AllSkilled c store h = elim (Option-cases (lookup c store)) [
  | inl e ↦ rw e tt
  | inr (skills, e) ↦ rw e (lookup-Every AllSkilled c skills store h e)
]

record_of-Skilled :
    (skill : String) (skills : Skills)
    → AllSkilled skills
    → Skilled (record_of (lookup skill skills))
record_of-Skilled skill skills h = elim (Option-cases (lookup skill skills)) [
  | inl e ↦ rw e (record { low = omega arith; top = omega arith; owned = omega arith })
  | inr (r, e) ↦ rw e (lookup-Every Skilled skill r skills h e)
]

put_record-AllSkilled :
    (c skill : String) (r : SkillXpRecord) (store : Dict String Skills)
    → Skilled r
    → Every AllSkilled store
    → Every AllSkilled (put_record c skill r store)
put_record-AllSkilled c skill r store p h =
    insert-Every AllSkilled c _ store
      (insert-Every Skilled skill r (skills_of (lookup c store)) p (skills_of-AllSkilled c store h))
      h

module _ (W : Type 0) ⦃d : Double W⦄ where
  climb-Skilled :
      (fuel now : ℕ) (c skill : String) (family : StatFamily) (r : SkillXpRecord) (up : Bool)
      (bus : DomainEventBus)
      → Skilled r
      → Skilled (climb W fuel now c skill family r up bus).0
  unfolding climb
  climb-Skilled zero now c skill family r up bus h = h
  climb-Skilled (suc fuel) now c skill family r up bus h =
      elim (Option-cases (affordable W family r)) [
        | inl e ↦ rw (climb, e) h
        | inr (needed, e) ↦
            let (same, paid, room) = affordable-some W family r needed e in
            rw (climb, e)
              (climb-Skilled fuel now c skill family (risen needed r) true _
                (record { low = lower h.low; top = omega int_laws; owned = omega int_laws }))
      ]
    where
      lower : pos 1 ≤ℤ r.level → pos 1 ≤ℤ r.level +ℤ pos 1
      lower l = omega int_laws

  compute_effective_gain_nonneg :
      (raw : W) (level : ℤ) (family : StatFamily) (potential : HiddenPotentialStats W)
      → pos 0 ≤ℤ compute_effective_gain W raw level family potential
  unfolding compute_effective_gain
  compute_effective_gain_nonneg raw level family potential = at_least (d.round _)
    where
      at_least : (x : ℤ) → pos 0 ≤ℤ max_ℤ (pos 0) x
      at_least x = ground arith

  pub award_xp-IsSkilled :
      (now : ℕ) (c skill : String) (family : StatFamily) (raw : W)
      (potential : HiddenPotentialStats W) (day : ℤ) (s : XpService)
      → IsSkilled s
      → IsSkilled (award_xp W now c skill family raw potential day s).1
  unfolding award_xp get_or_create
  award_xp-IsSkilled now c skill family raw potential day s h =
      put_record-AllSkilled c skill _ _
        (climb-Skilled (fuel_for r) now c skill family _ false s.bus (record {
          low = fine.low;
          top = fine.top;
          owned =
              sum_nonneg r.current_xp (compute_effective_gain W raw r.level family potential)
                fine.owned (compute_effective_gain_nonneg raw r.level family potential);
        }))
        (put_record-AllSkilled c skill r s.store fine h)
    where
      r : SkillXpRecord
      r = held c skill s

      fine : Skilled r
      fine = record_of-Skilled skill _ (skills_of-AllSkilled c s.store h)

      sum_nonneg : (a b : ℤ) → pos 0 ≤ℤ a → pos 0 ≤ℤ b → pos 0 ≤ℤ a +ℤ b
      sum_nonneg a b p q = omega int_laws

  decayed_level-some :
      (day : ℤ) (skill : String) (r : SkillXpRecord) (level : ℤ)
      → decayed_level W day skill r ≡ some level
      → pos 1 ≤ℤ level
  unfolding decayed_level
  decayed_level-some day skill r level h =
      elim (Bool-cases (not (starts_with skill "physical") || leb_ℤ (overdue day r) (pos 0))) [
        | inl spared ↦ absurd (cc (rw (decayed_level, spared) at h))
        | inr worn_out ↦
            at_least (worn W r (overdue day r)) level (rw (decayed_level, worn_out) at h)
      ]
    where
      at_least : (x n : ℤ) → some (max_ℤ (pos 1) x) ≡ some n → pos 1 ≤ℤ n
      at_least x n e = subst (λ m. pos 1 ≤ℤ m) (cc) (one_below x)
        where
          one_below : (y : ℤ) → pos 1 ≤ℤ max_ℤ (pos 1) y
          one_below y = ground arith

  decay_record-Skilled :
      (day : ℤ) (skill : String) (r : SkillXpRecord)
      → Skilled r
      → Skilled (decay_record W day skill r).1
  unfolding decay_record
  decay_record-Skilled day skill r h = elim (Option-cases (decayed_level W day skill r)) [
    | inl e ↦ rw (decay_record, e) h
    | inr (level, e) ↦ elim (Bool-cases (ltb_ℤ level r.level)) [
      | inl fallen ↦
          rw (decay_record, e, fallen)
            (record {
              low = decayed_level-some day skill r level e;
              top = below level r.level fallen h.top;
              owned = omega arith;
            })
      | inr held ↦ rw (decay_record, e, held) h
    ]
  ]
    where
      below : (a b : ℤ) → ltb_ℤ a b ≡ true → b ≤ℤ pos 500 → a ≤ℤ pos 500
      below a b e k = ground arith

  decay_each-AllSkilled :
      (day : ℤ) (skills : Skills) → AllSkilled skills → AllSkilled (decay_each W day skills).1
  unfolding decay_each
  decay_each-AllSkilled day [] h = tt
  decay_each-AllSkilled day (e ∷ skills) (here, later) =
      (decay_record-Skilled day e.0 e.1 here, decay_each-AllSkilled day skills later)

  apply_decay-IsSkilled :
      (c : String) (day : ℤ) (s : XpService) → IsSkilled s → IsSkilled (apply_decay W c day s).1
  unfolding apply_decay
  apply_decay-IsSkilled c day s h = elim (Option-cases (lookup c s.store)) [
    | inl e ↦ rw (apply_decay, e) h
    | inr (skills, e) ↦
        rw (apply_decay, e)
          (insert-Every AllSkilled c _ s.store
            (decay_each-AllSkilled day skills (lookup-Every AllSkilled c skills s.store h e)) h)
  ]

-- A call of the service.
pub data Request (W : Type 0) : Type 0 where
  award :
      (now : ℕ) (character skill : String) (family : StatFamily) (raw : W)
      (potential : HiddenPotentialStats W) (day : ℤ)
      → Request W
  decay : (character : String) (day : ℤ) → Request W

module _ {W : Type 0} ⦃d : Double W⦄ where
  pub run : List (Request W) → XpService → XpService
  run [] s = s
  run (award now c skill family raw potential day ∷ rs) s =
      run rs (award_xp W now c skill family raw potential day s).1
  run (decay c day ∷ rs) s = run rs (apply_decay W c day s).1

  -- Through any history of awards and decay every level stays between 1 and 500 and no experience
  -- is negative, whatever the doubles give, if it was so at the start.
  pub run-IsSkilled : (rs : List (Request W)) (s : XpService) → IsSkilled s → IsSkilled (run rs s)
  unfolding run
  run-IsSkilled [] s h = h
  run-IsSkilled (award now c skill family raw potential day ∷ rs) s h =
      run-IsSkilled rs _ (award_xp-IsSkilled W now c skill family raw potential day s h)
  run-IsSkilled (decay c day ∷ rs) s h = run-IsSkilled rs _ (apply_decay-IsSkilled W c day s h)
