-- ===== src/Birth/Spins.antt =====
-- server/src/modules/characters/birth/birth.service.ts, `spinWheel`: the ways in which a spin can end,
-- and what has been paid in each.
use mmorpg_design_documents.Base.{
  ℕ, ◌+◌, ◌≡◌, ◌≢◌, refl, sym, ap, subst, inl, inr, true, false, Bool-cases, Option-cases, none,
  some, String, Result, ok, err, Result-cases, nat_eq, arith,
}
use mmorpg_design_documents.Base.Int.{ℤ, ◌-ℤ◌, ◌≤ℤ◌, ltb_ℤ}
use mmorpg_design_documents.Base.Double.{Double}
use mmorpg_design_documents.Base.Key.{EntityId, string_eq, entity_eq}
use mmorpg_design_documents.Base.Dict.{lookup, insert}
use mmorpg_design_documents.Wheels.{WheelType, WheelError, wheel_eq, WheelContentFile, spin}
use mmorpg_design_documents.Birth.{
  BirthRitual, BirthService, BirthError, already_completed, wheel_error, is_complete, get_balance,
  debit_balance, enforce_cooldown, set_cooldown, generate_seed, begin, recorded, spin_count, pay,
  turn, spin_open, spin_wheel,
}

-- What has been checked and taken where the payment goes through.
pub record Paid (a : String) (wheel_type : WheelType) (previous now : ℕ) (cost : ℤ)
    (s s' : BirthService) : Type 0 where
  pub rituals : s'.rituals ≡ s.rituals
  pub counter : s'.id_counter ≡ s.id_counter
  pub cooldowns : s'.cooldowns ≡ s.cooldowns
  pub free : previous ≡ 0 → s'.balances ≡ s.balances
  pub charged :
      previous ≢ 0
      → (cost ≤ℤ get_balance a s)
        × (enforce_cooldown a wheel_type now s ≡ none)
        × (s'.balances ≡ insert a (get_balance a s -ℤ cost) s.balances)

debit_balance-some :
    (a : String) (cost : ℤ) (s s' : BirthService)
    → debit_balance a cost s ≡ some s'
    → (cost ≤ℤ get_balance a s)
      × (s' ≡ record s { balances = insert a (get_balance a s -ℤ cost) s.balances })
unfolding debit_balance
debit_balance-some a cost s s' h = elim (Bool-cases (ltb_ℤ (get_balance a s) cost)) [
  | inl e ↦ absurd (cc (rw (debit_balance, e) at h))
  | inr e ↦ (ground arith, cc (rw (debit_balance, e) at h))
]

pub pay-Paid :
    (a : String) (wheel_type : WheelType) (previous now : ℕ) (cost : ℤ) (s s' : BirthService)
    → pay a wheel_type previous now cost s ≡ ok s'
    → Paid a wheel_type previous now cost s s'
unfolding pay
pay-Paid a wheel_type previous now cost s s' h = elim (Bool-cases (nat_eq previous 0)) [
  | inl e ↦
      let same : s ≡ s' = cc (rw (pay, e) at h) in
      record {
        rituals = ap (λ x. x.rituals) (sym same);
        counter = ap (λ x. x.id_counter) (sym same);
        cooldowns = ap (λ x. x.cooldowns) (sym same);
        free = λ q. ap (λ x. x.balances) (sym same);
        charged = λ ne. absurd (ground arith);
      }
  | inr e ↦ elim (Option-cases (enforce_cooldown a wheel_type now s)) [
    | inr (n, f) ↦ absurd (cc (rw (pay, e, f) at h))
    | inl f ↦ elim (Option-cases (debit_balance a cost s)) [
      | inl g ↦ absurd (cc (rw (pay, e, f, g) at h))
      | inr (t, g) ↦
          let same : t ≡ s' = cc (rw (pay, e, f, g) at h) in
          let taken =
            debit_balance-some a cost s s' (subst (λ x. debit_balance a cost s ≡ some x) same g) in
          record {
            rituals = ap (λ x. x.rituals) taken.1;
            counter = ap (λ x. x.id_counter) taken.1;
            cooldowns = ap (λ x. x.cooldowns) taken.1;
            free = λ q. absurd (ground arith);
            charged = λ ne. (taken.0, f, ap (λ x. x.balances) taken.1);
          }
    ]
  ]
]

-- The service once the ritual is begun.
abbrev pub begun : EntityId → BirthRitual → BirthService → BirthService
begun id r s = record s { rituals = insert id (record r { status = begin r.status }) s.rituals }

module _ {κ} {W : Type κ} ⦃doubles : Double W⦄ where
  -- A spin of a ritual that is not complete ends in one of three ways.
  pub data Ending (id : EntityId) (w : WheelType) (now : ℕ) (content : WheelContentFile W)
      (r : BirthRitual) (s : BirthService)
      : Result BirthError (String × BirthRitual) × BirthService → Type κ where
    unpaid :
        (e : BirthError)
        → pay r.account_id w (spin_count w r) now content.reroll_coin_cost (begun id r s) ≡ err e
        → Ending id w now content r s (err e, begun id r s)
    stuck :
        (e : BirthError) (f : WheelError) (paid : BirthService)
        → Paid r.account_id w (spin_count w r) now content.reroll_coin_cost (begun id r s) paid
        → spin w (generate_seed id w now) content ≡ err f
        → Ending id w now content r s (err e, paid)
    turned :
        (outcome_id : String) (r' : BirthRitual) (paid : BirthService)
        → Paid r.account_id w (spin_count w r) now content.reroll_coin_cost (begun id r s) paid
        → spin w (generate_seed id w now) content ≡ ok outcome_id
        → r' ≡ recorded w outcome_id (spin_count w r) (record r { status = begin r.status })
        → Ending id w now content r s (
          ok (outcome_id, r'),
          set_cooldown r.account_id w
              (now + content.reroll_cooldown_ms)
              (record paid { rituals = insert id r' paid.rituals }),
        )

  turn-Ending :
      (id : EntityId) (w : WheelType) (now : ℕ) (content : WheelContentFile W) (r : BirthRitual)
      (s paid : BirthService)
      → Paid r.account_id w (spin_count w r) now content.reroll_coin_cost (begun id r s) paid
      → Ending id w now content r s
          (turn id w now content (record r { status = begin r.status }) paid)
  unfolding turn
  turn-Ending id w now content r s paid p =
      elim (Result-cases (spin w (generate_seed id w now) content)) [
        | inl (e, f) ↦ rw (turn, f) (stuck (wheel_error e) e paid p f)
        | inr (outcome_id, f) ↦ rw (turn, f) (turned outcome_id _ paid p f refl)
      ]

  pub spin_open-Ending :
      (id : EntityId) (w : WheelType) (now : ℕ) (content : WheelContentFile W) (r : BirthRitual)
      (s : BirthService)
      → Ending id w now content r s (spin_open id w now content r s)
  unfolding spin_open
  spin_open-Ending id w now content r s =
      elim (Result-cases
        (pay r.account_id w (spin_count w r) now content.reroll_coin_cost (begun id r s))) [
          | inl (e, f) ↦ rw (spin_open, f) (unpaid e f)
          | inr (paid, f) ↦
              rw (spin_open, f)
                (turn-Ending id w now content r s paid (
                  pay-Paid r.account_id w (spin_count w r) now content.reroll_coin_cost
                    (begun id r s) paid f))
        ]

  pub spin_wheel-open :
      (id : EntityId) (w : WheelType) (now : ℕ) (content : WheelContentFile W) (r : BirthRitual)
      (s : BirthService)
      → lookup id s.rituals ≡ some r
      → is_complete r.status ≡ false
      → spin_wheel id w now content s ≡ spin_open id w now content r s
  unfolding spin_wheel
  spin_wheel-open id w now content r s e f = rw (spin_wheel, e, f) refl

  pub spin_wheel_complete :
      (id : EntityId) (w : WheelType) (now : ℕ) (content : WheelContentFile W) (r : BirthRitual)
      (s : BirthService)
      → lookup id s.rituals ≡ some r
      → is_complete r.status ≡ true
      → spin_wheel id w now content s ≡ (err already_completed, s)
  unfolding spin_wheel
  spin_wheel_complete id w now content r s e f = rw (spin_wheel, e, f) refl

  pub spin_wheel-missing :
      (id : EntityId) (w : WheelType) (now : ℕ) (content : WheelContentFile W) (s : BirthService)
      → lookup id s.rituals ≡ none
      → (spin_wheel id w now content s).1 ≡ s
  unfolding spin_wheel
  spin_wheel-missing id w now content s e = rw (spin_wheel, e) refl
