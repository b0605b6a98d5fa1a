-- ===== src/Birth.antt =====
-- server/src/modules/characters/birth/birth.service.ts, with the ritual's types of
-- .../wheels/wheel.types.ts: an account's birth ritual, the spins of its wheels, the price and the
-- pause of a further spin, and its end. The content of the wheels is an argument; `now` is the wall
-- clock, and a spin's `nowMs`.
pub mod Types
pub mod Spins
pub mod Invariant
pub mod Rituals
pub mod Runs
mod Finality
pub mod Charges
mod Holds
mod Pauses
mod Tests
unfoldable pub use Types.*
use mmorpg_design_documents.Base.{
  ℕ, ◌+◌, ◌-◌, ◌/◌, ◌&&◌, ◌||◌, Bool, true, false, not, Option, none, some, List, [], ◌∷◌, ◌++◌,
  String, Result, ok, err, if◌then◌else◌, nat_eq, ltb,
}
use mmorpg_design_documents.Base.Int.{ℤ, pos, ◌+ℤ◌, ◌-ℤ◌, ltb_ℤ}
use mmorpg_design_documents.Base.Double.{Double}
use mmorpg_design_documents.Base.Key.{EntityId, issued, string_eq, entity_eq, ◌==◌}
use mmorpg_design_documents.Base.Dict.{Dict, lookup, insert, values}
use mmorpg_design_documents.Base.Lists.{find}
use mmorpg_design_documents.Base.Accounts.{or_zero}
use mmorpg_design_documents.Events.{publish, character_born, WheelResult}
use mmorpg_design_documents.Random.{codes, hash_seed, decimal_text, id_text}
use mmorpg_design_documents.Wheels.{
  WheelType, race, aptitude, trait, origin, omen, required_wheel_types, wheel_name, wheel_eq,
  WheelContentFile, spin,
}

unfoldable pub get_balance : String → BirthService → ℤ
get_balance account_id s = or_zero (lookup account_id s.balances)

unfoldable pub credit_balance : String → ℤ → BirthService → BirthService
unfolding get_balance
credit_balance account_id amount s = record s {
  balances = insert account_id (get_balance account_id s +ℤ amount) s.balances;
}

-- `debitBalance`: none where it returns false.
unfoldable pub debit_balance : String → ℤ → BirthService → Option BirthService
unfolding get_balance
debit_balance account_id amount s =
    let current = get_balance account_id s in
    if ltb_ℤ current amount
    then none
    else some (record s { balances = insert account_id (current -ℤ amount) s.balances })

abbrev pub is_complete : BirthStatus → Bool
is_complete complete = true
is_complete in_progress = false
is_complete unborn = false

-- The test of the two loops over the rituals.
abbrev pub is_active : String → BirthRitual → Bool
is_active account_id r = (r.account_id == account_id) && not (is_complete r.status)

unfoldable pub get_ritual : EntityId → BirthService → Option BirthRitual
get_ritual character_id s = lookup character_id s.rituals

unfoldable pub get_ritual_by_account : String → BirthService → Option BirthRitual
get_ritual_by_account account_id s = find (is_active account_id) (values s.rituals)

abbrev pub new_ritual : ℕ → String → EntityId → BirthRitual
new_ritual now account_id character_id = record {
  account_id = account_id;
  character_id = character_id;
  status = unborn;
  spins = [];
  reroll_counts = [];
  created_at = now;
  completed_at = none;
}

unfoldable pub start_ritual :
    ℕ → String → BirthService → Result BirthError BirthRitual × BirthService
unfolding get_ritual_by_account
start_ritual now account_id s = elim (get_ritual_by_account account_id s) [
  | some r ↦ (err active_ritual, s)
  | none ↦
      let next : ℕ = s.id_counter + 1 in
      let r = new_ritual now account_id (issued "chr" now next) in
      (ok r, record s { rituals = insert r.character_id r s.rituals; id_counter = next })
]

abbrev pub cooldowns_of : String → BirthService → List WheelCooldown
cooldowns_of account_id s = elim (lookup account_id s.cooldowns) [ none ↦ [] | some cs ↦ cs ]

unfoldable pub get_cooldown : String → WheelType → BirthService → Option WheelCooldown
get_cooldown account_id wheel_type s =
    find (λ c. c.wheel_type == wheel_type) (cooldowns_of account_id s)

-- `enforceCooldown`: the seconds that are left, rounded up, where it throws.
unfoldable pub enforce_cooldown : String → WheelType → ℕ → BirthService → Option ℕ
unfolding get_cooldown
enforce_cooldown account_id wheel_type now s = elim (get_cooldown account_id wheel_type s) [
  | none ↦ none
  | some c ↦ if ltb now c.available_at then some ((c.available_at - now + 999) / 1000) else none
]

-- The first cooldown of the wheel is moved, or a new one is pushed.
unfoldable pub put_cooldown : String → WheelType → ℕ → List WheelCooldown → List WheelCooldown
put_cooldown account_id wheel_type at [] =
    record { account_id = account_id; wheel_type = wheel_type; available_at = at } ∷ []
put_cooldown account_id wheel_type at (c ∷ cs) =
    let rest = put_cooldown account_id wheel_type at cs in
    if c.wheel_type == wheel_type then record c { available_at = at } ∷ cs else c ∷ rest

unfoldable pub set_cooldown : String → WheelType → ℕ → BirthService → BirthService
unfolding put_cooldown
set_cooldown account_id wheel_type at s = record s {
  cooldowns =
      insert account_id (put_cooldown account_id wheel_type at (cooldowns_of account_id s))
        s.cooldowns;
}

-- `generateSeed`, of the text `${characterId}:${wheelType}:${nowMs}`.
unfoldable pub generate_seed : EntityId → WheelType → ℕ → ℕ
unfolding hash_seed id_text decimal_text
generate_seed character_id wheel_type now =
    hash_seed (
      id_text character_id ++ (b':' ∷ (codes (wheel_name wheel_type) ++ (b':' ∷ decimal_text now))))

abbrev pub begin : BirthStatus → BirthStatus
begin unborn = in_progress
begin in_progress = in_progress
begin complete = complete

-- The ritual once the spin is recorded.
abbrev pub recorded : WheelType → String → ℕ → BirthRitual → BirthRitual
recorded wheel_type outcome_id previous r = record r {
  spins = insert wheel_type outcome_id r.spins;
  reroll_counts = insert wheel_type (previous + 1) r.reroll_counts;
}

abbrev pub spin_count : WheelType → BirthRitual → ℕ
spin_count wheel_type r = elim (lookup wheel_type r.reroll_counts) [ none ↦ 0 | some n ↦ n ]

-- What a reroll needs: the pause is over, and the coins are taken. A first spin is free.
unfoldable pub pay : String → WheelType → ℕ → ℕ → ℤ → BirthService → Result BirthError BirthService
unfolding enforce_cooldown debit_balance
pay account_id wheel_type previous now cost s =
    if nat_eq previous 0 then ok s else elim (enforce_cooldown account_id wheel_type now s) [
      | some seconds ↦ err (cooldown_active wheel_type seconds)
      | none ↦ elim (debit_balance account_id cost s) [
        | none ↦ err (insufficient_balance cost)
        | some s' ↦ ok s'
      ]
    ]

module _ {κ} {W : Type κ} ⦃doubles : Double W⦄ where
  -- The rest of a spin that is paid for.
  unfoldable pub turn :
      EntityId
      → WheelType
      → ℕ
      → WheelContentFile W
      → BirthRitual
      → BirthService
      → Result BirthError (String × BirthRitual) × BirthService
  unfolding set_cooldown generate_seed
  turn character_id wheel_type now content r s =
      elim (spin wheel_type (generate_seed character_id wheel_type now) content) [
        | err e ↦ (err (wheel_error e), s)
        | ok outcome_id ↦
            let r' = recorded wheel_type outcome_id (spin_count wheel_type r) r in
            (
              ok (outcome_id, r'),
              set_cooldown r.account_id wheel_type (now + content.reroll_cooldown_ms)
                  (record s { rituals = insert character_id r' s.rituals }),
            )
      ]

  -- A spin of a ritual that is not complete: it is begun, whatever follows.
  unfoldable pub spin_open :
      EntityId
      → WheelType
      → ℕ
      → WheelContentFile W
      → BirthRitual
      → BirthService
      → Result BirthError (String × BirthRitual) × BirthService
  unfolding pay turn
  spin_open character_id wheel_type now content r s =
      let begun = record r { status = begin r.status } in
      let s' = record s { rituals = insert character_id begun s.rituals } in
      elim (pay r.account_id wheel_type (spin_count wheel_type r) now content.reroll_coin_cost s') [
        | err e ↦ (err e, s')
        | ok paid ↦ turn character_id wheel_type now content begun paid
      ]

  unfoldable pub spin_wheel :
      EntityId
      → WheelType
      → ℕ
      → WheelContentFile W
      → BirthService
      → Result BirthError (String × BirthRitual) × BirthService
  unfolding spin_open
  spin_wheel character_id wheel_type now content s = elim (lookup character_id s.rituals) [
    | none ↦ (err (no_ritual character_id), s)
    | some r ↦
        if is_complete r.status
        then (err already_completed, s)
        else spin_open character_id wheel_type now content r s
  ]

-- `ritual.spins[wheel]` where it is there and not empty.
unfoldable pub spun : WheelType → BirthRitual → Option String
spun wheel_type r = elim (lookup wheel_type r.spins) [
  | none ↦ none
  | some outcome ↦ if outcome == "" then none else some outcome
]

-- The first required wheel that was not spun.
unfoldable pub unspun : List WheelType → BirthRitual → Option WheelType
unfolding spun
unspun [] r = none
unspun (w ∷ ws) r =
    let rest = unspun ws r in elim (spun w r) [ none ↦ some w | some outcome ↦ rest ]

abbrev pub or_empty : Option String → String
or_empty none = ""
or_empty (some t) = t

-- The outcomes of a ritual whose required wheels were spun.
abbrev pub wheel_outcomes : BirthRitual → WheelResult
wheel_outcomes r = record {
  race = or_empty (lookup race r.spins);
  aptitude = or_empty (lookup aptitude r.spins);
  trait = or_empty (lookup trait r.spins);
  origin = or_empty (lookup origin r.spins);
  omen = lookup omen r.spins;
}

abbrev pub finished : ℕ → BirthRitual → BirthRitual
finished now r = record r { status = complete; completed_at = some now }

-- What follows the checks of `completeRitual`.
unfoldable pub finish : ℕ → EntityId → BirthRitual → BirthService → BirthService
finish now character_id r s = record s {
  rituals = insert character_id (finished now r) s.rituals;
  bus =
      publish now now
        (character_born (record {
          account_id = r.account_id;
          character_id = r.character_id;
          wheel_outcomes = wheel_outcomes r;
        }))
        s.bus;
}

unfoldable pub complete_open :
    ℕ → EntityId → BirthRitual → BirthService → Result BirthError BirthRitual × BirthService
unfolding finish unspun
complete_open now character_id r s = elim (unspun required_wheel_types r) [
  | some w ↦ (err (required_not_spun w), s)
  | none ↦ (ok (finished now r), finish now character_id r s)
]

unfoldable pub complete_ritual :
    ℕ → EntityId → BirthService → Result BirthError BirthRitual × BirthService
unfolding complete_open
complete_ritual now character_id s = elim (lookup character_id s.rituals) [
  | none ↦ (err (no_ritual character_id), s)
  | some r ↦
      if is_complete r.status
      then (err already_completed, s)
      else complete_open now character_id r s
]
