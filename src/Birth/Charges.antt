-- ===== src/Birth/Charges.antt =====
-- server/src/modules/characters/birth/birth.service.ts, `spinWheel`: what a spin costs and what it
-- records.
use mmorpg_design_documents.Base.{
  ℕ, ◌+◌, ◌≡◌, refl, sym, ap, subst, ◌∙◌, ◌⊎◌, inl, inr, false, Bool-cases, none, some, List, [],
  ◌∷◌, String, Result, ok, err, if◌then◌else◌, nat_eq, arith,
}
use mmorpg_design_documents.Base.Int.{ℤ, ◌-ℤ◌, ◌≤ℤ◌}
use mmorpg_design_documents.Base.Double.{Double}
use mmorpg_design_documents.Base.Key.{EntityId, string_eq, entity_eq, ◌==◌, eq_lem, eq_self}
use mmorpg_design_documents.Base.Dict.{lookup, insert, lookup-insert, lookup-insert_self}
use mmorpg_design_documents.Base.Accounts.{or_zero}
use mmorpg_design_documents.Base.Lists.{find}
use mmorpg_design_documents.Wheels.{WheelType, wheel_eq, WheelContentFile, spin}
use mmorpg_design_documents.Birth.{
  BirthRitual, WheelCooldown, BirthService, BirthError, is_complete, get_balance, enforce_cooldown,
  get_cooldown, cooldowns_of, put_cooldown, set_cooldown, generate_seed, begin, recorded,
  spin_count, spin_wheel,
}
use mmorpg_design_documents.Birth.Rituals.{begin-open}
use mmorpg_design_documents.Birth.Spins.{
  Paid, Ending, unpaid, stuck, turned, begun, spin_open-Ending, spin_wheel-open,
}

-- How often the ritual has spun the wheel so far.
abbrev pub earlier : WheelType → BirthRitual → ℕ
earlier w r = elim (lookup w r.reroll_counts) [ none ↦ 0 | some n ↦ n ]

-- The balance of every account after a spin: the account of a reroll has paid the cost.
abbrev pub charge : ℕ → ℤ → ℤ → ℤ
charge previous cost balance = if nat_eq previous 0 then balance else balance -ℤ cost

balance-Paid :
    (a b : String) (w : WheelType) (previous now : ℕ) (cost : ℤ) (s s' : BirthService)
    → Paid a w previous now cost s s'
    → get_balance b s'
      ≡ (if b == a then charge previous cost (get_balance b s) else get_balance b s)
unfolding get_balance
balance-Paid a b w previous now cost s s' p = elim (Bool-cases (nat_eq previous 0)) [
  | inl e ↦
      ap (λ d. or_zero (lookup b d)) (p.free (ground arith))
      ∙ (rw e (elim (Bool-cases (b == a)) [ inl q ↦ rw q refl | inr q ↦ rw q refl ]))
  | inr e ↦
      ap (λ d. or_zero (lookup b d)) (p.charged (ground arith)).2
      ∙ ap or_zero (lookup-insert b a (get_balance a s -ℤ cost) s.balances)
      ∙ (rw e (elim (Bool-cases (b == a)) [
        | inl q ↦ rw q (ap (λ c. or_zero (lookup c s.balances) -ℤ cost) (sym ((eq_lem b a).0 q)))
        | inr q ↦ rw q refl
      ]))
]

-- The first cooldown of the wheel, once it is set.
put_cooldown-found :
    (a : String) (w : WheelType) (at : ℕ) (cs : List WheelCooldown)
    → (c : WheelCooldown) × (find (λ x. x.wheel_type == w) (put_cooldown a w at cs) ≡ some c)
      × (c.available_at ≡ at)
unfolding put_cooldown
put_cooldown-found a w at [] =
    (record { account_id = a; wheel_type = w; available_at = at }, (rw (eq_self w) refl), refl)
put_cooldown-found a w at (c ∷ cs) = elim (Bool-cases (c.wheel_type == w)) [
  | inl e ↦ (record c { available_at = at }, (rw (e, e) refl), refl)
  | inr e ↦ let rest = put_cooldown-found a w at cs in (rest.0, (rw (e, e) rest.1), rest.2)
]

set-get_cooldown :
    (a : String) (w : WheelType) (at : ℕ) (s : BirthService)
    → (c : WheelCooldown) × (get_cooldown a w (set_cooldown a w at s) ≡ some c)
      × (c.available_at ≡ at)
unfolding get_cooldown set_cooldown
set-get_cooldown a w at s =
    let set = put_cooldown-found a w at (cooldowns_of a s) in
    (
      set.0,
      (rw
          (
            get_cooldown,
            cooldowns_of,
            lookup-insert_self a (put_cooldown a w at (cooldowns_of a s)) s.cooldowns,
          )
          set.1),
      set.2,
    )

module _ {κ} {W : Type κ} ⦃doubles : Double W⦄ where
  -- What is so after a spin that succeeded.
  pub record Spent (id : EntityId) (w : WheelType) (now : ℕ) (content : WheelContentFile W)
      (r : BirthRitual) (outcome_id : String) (r' : BirthRitual) (s s' : BirthService)
      : Type κ where
    pub drawn : spin w (generate_seed id w now) content ≡ ok outcome_id
    pub who : (r'.character_id ≡ r.character_id) × (r'.account_id ≡ r.account_id)
    pub still : is_complete r'.status ≡ false
    pub outcomes :
        (v : WheelType) → lookup v r'.spins ≡ (if v == w then some outcome_id else lookup v r.spins)
    pub counts :
        (v : WheelType)
        → lookup v r'.reroll_counts
          ≡ (if v == w then some (earlier w r + 1) else lookup v r.reroll_counts)
    pub stored : lookup id s'.rituals ≡ some r'
    pub balances :
        (b : String)
        → get_balance b s' ≡ (
            if b == r.account_id
            then charge (earlier w r) content.reroll_coin_cost (get_balance b s)
            else get_balance b s)
    pub affordable :
        (earlier w r ≡ 0)
        ⊎ ((content.reroll_coin_cost ≤ℤ get_balance r.account_id s)
            × (enforce_cooldown r.account_id w now s ≡ none))
    pub pause :
        (c : WheelCooldown) × (get_cooldown r.account_id w s' ≡ some c)
        × (c.available_at ≡ now + content.reroll_cooldown_ms)

  turned-Spent :
      (id : EntityId) (w : WheelType) (now : ℕ) (content : WheelContentFile W) (r : BirthRitual)
      (outcome_id : String) (r' : BirthRitual) (s paid : BirthService)
      → Paid r.account_id w (spin_count w r) now content.reroll_coin_cost (begun id r s) paid
      → spin w (generate_seed id w now) content ≡ ok outcome_id
      → r' ≡ recorded w outcome_id (spin_count w r) (record r { status = begin r.status })
      → is_complete r.status ≡ false
      → Spent id w now content r outcome_id r' s (
          set_cooldown r.account_id w
            (now + content.reroll_cooldown_ms)
            (record paid { rituals = insert id r' paid.rituals }))
  unfolding set_cooldown get_balance get_cooldown enforce_cooldown
  turned-Spent id w now content r outcome_id r' s paid p h e o = record {
    drawn = h;
    who = (ap (λ q. q.character_id) e, ap (λ q. q.account_id) e);
    still = ap (λ q. is_complete q.status) e ∙ begin-open r o;
    outcomes = λ v. ap (λ q. lookup v q.spins) e ∙ lookup-insert v w outcome_id r.spins;
    counts = λ v.
        ap (λ q. lookup v q.reroll_counts) e
        ∙ lookup-insert v w (spin_count w r + 1) r.reroll_counts;
    stored = lookup-insert_self id r' paid.rituals;
    balances = λ b.
        balance-Paid r.account_id b w (spin_count w r) now content.reroll_coin_cost (begun id r s)
          paid p;
    affordable = elim (Bool-cases (nat_eq (spin_count w r) 0)) [
      | inl z ↦ inl (ground arith)
      | inr z ↦ let taken = p.charged (ground arith) in inr (taken.0, taken.1)
    ];
    pause =
        set-get_cooldown r.account_id w (now + content.reroll_cooldown_ms)
          (record paid { rituals = insert id r' paid.rituals });
  }

  -- The same, of a result that may be an error.
  abbrev SpentBy :
      EntityId
      → WheelType
      → ℕ
      → WheelContentFile W
      → BirthRitual
      → BirthService
      → Result BirthError (String × BirthRitual)
      → BirthService
      → Type κ
  SpentBy id w now content r s (err e) s' = Unit
  SpentBy id w now content r s (ok y) s' = Spent id w now content r y.0 y.1 s s'

  Ending-SpentBy :
      (id : EntityId) (w : WheelType) (now : ℕ) (content : WheelContentFile W) (r : BirthRitual)
      (s : BirthService) (o : Result BirthError (String × BirthRitual) × BirthService)
      → Ending id w now content r s o
      → is_complete r.status ≡ false
      → SpentBy id w now content r s o.0 o.1
  Ending-SpentBy id w now content r s _ (unpaid e h) still = tt
  Ending-SpentBy id w now content r s _ (stuck e f paid p h) still = tt
  Ending-SpentBy id w now content r s _ (turned y r'' paid p h e) still =
      turned-Spent id w now content r y r'' s paid p h e still

  -- Where the wheel can be drawn from and the spin fails, the ritual is begun and no more has changed.
  Ending-refused :
      (id : EntityId) (w : WheelType) (now : ℕ) (content : WheelContentFile W) (r : BirthRitual)
      (outcome_id : String) (e : BirthError) (s : BirthService)
      (o : Result BirthError (String × BirthRitual) × BirthService)
      → Ending id w now content r s o
      → spin w (generate_seed id w now) content ≡ ok outcome_id
      → o.0 ≡ err e
      → o.1 ≡ begun id r s
  Ending-refused id w now content r x e s _ (unpaid f h) d q = refl
  Ending-refused id w now content r x e s _ (stuck f g paid p h) d q = absurd (cc)
  Ending-refused id w now content r x e s _ (turned y r'' paid p h f) d q = absurd (cc)

  spin_wheel-Ending :
      (id : EntityId) (w : WheelType) (now : ℕ) (content : WheelContentFile W) (r : BirthRitual)
      (s : BirthService)
      → lookup id s.rituals ≡ some r
      → is_complete r.status ≡ false
      → Ending id w now content r s (spin_wheel id w now content s)
  spin_wheel-Ending id w now content r s here o =
      subst (λ z. Ending id w now content r s z) (sym (spin_wheel-open id w now content r s here o))
        (spin_open-Ending id w now content r s)

  -- Where a spin of a ritual that is not complete succeeds, the outcome is that of the seed; the stored
  -- ritual has it for the wheel, with the wheel's count of spins one higher, and the outcomes and
  -- counts of the other wheels as they were. The account has paid the cost if it had spun the wheel
  -- before and no other balance has changed, a reroll was affordable and not paused, and the wheel is
  -- paused from now on.
  pub spin_wheel-charge :
      (id : EntityId) (w : WheelType) (now : ℕ) (content : WheelContentFile W) (r r' : BirthRitual)
      (outcome_id : String) (s : BirthService)
      → lookup id s.rituals ≡ some r
      → is_complete r.status ≡ false
      → (spin_wheel id w now content s).0 ≡ ok (outcome_id, r')
      → Spent id w now content r outcome_id r' s (spin_wheel id w now content s).1
  spin_wheel-charge id w now content r r' x s here o q =
      subst (λ res. SpentBy id w now content r s res (spin_wheel id w now content s).1) q
        (Ending-SpentBy id w now content r s (spin_wheel id w now content s)
          (spin_wheel-Ending id w now content r s here o) o)

  -- Where the wheel can be drawn from and a spin fails, the ritual is begun and no more has changed.
  pub spin_wheel-failed :
      (id : EntityId) (w : WheelType) (now : ℕ) (content : WheelContentFile W) (r : BirthRitual)
      (outcome_id : String) (e : BirthError) (s : BirthService)
      → lookup id s.rituals ≡ some r
      → is_complete r.status ≡ false
      → spin w (generate_seed id w now) content ≡ ok outcome_id
      → (spin_wheel id w now content s).0 ≡ err e
      → (spin_wheel id w now content s).1 ≡ begun id r s
  spin_wheel-failed id w now content r x e s here o d q =
      Ending-refused id w now content r x e s (spin_wheel id w now content s)
        (spin_wheel-Ending id w now content r s here o) d q
