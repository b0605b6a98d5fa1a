-- ===== src/Contracts/Lifecycle.antt =====
-- server/src/modules/economy/contracts/contracts.service.ts: the life of a contract, and how a
-- call of the service can end.
use text.Mathlib.TextEquality.{eq_iff}
use mmorpg_design_documents.Base.{
  ◌<◌, ℕ, ◌+◌, ◌≡◌, refl, ◌≢◌, ◌⊎◌, inl, inr, true, false, none, some, List, [], ◌∷◌, String, ok,
  err, if_elim, Option_elim, arith, Bool-cases, if◌then◌else◌,
}
use mmorpg_design_documents.Base.Int.{ℤ, pos, ◌≤ℤ◌, ltb_ℤ}
use mmorpg_design_documents.Base.Key.{
  EntityId, issued, entity_beq, ◌==◌, string_eq, entity_eq, ne_of_beq, eq_lem, eq_sym,
}
use mmorpg_design_documents.Base.Dict.{Dict, lookup, insert, lookup-insert}
use mmorpg_design_documents.Base.Accounts.{or_zero}
use mmorpg_design_documents.Market.{MarketService}
use mmorpg_design_documents.Market.Rounds.{debited, debit_cases}
use mmorpg_design_documents.Contracts.{
  Contract, accepted, completed, breached, ContractsService, ContractParams, ContractError,
  escrow_not_covered, Outcome, is_open, is_accepted, open_contract, create_contract,
  accept_contract, complete_contract, breach_contract, release_escrow, non_breaching, compensate,
}

pub data Request : Type 0 where
  create : ContractParams → Request
  accept : EntityId → String → Request
  complete : EntityId → Request
  breach : EntityId → String → Request

unfoldable pub apply : ℕ → Request → ContractsService → Outcome
apply now (create p) s = create_contract now p s
apply now (accept id a) s = accept_contract id a s
apply now (complete id) s = complete_contract now id s
apply now (breach id b) s = breach_contract now id b s

unfoldable pub run : List (ℕ × Request) → ContractsService → ContractsService
run [] s = s
run (r ∷ rs) s = run rs (apply r.0 r.1 s).1

-- The steps of one contract: `open → accepted`, then `completed` or `breached`.
pub data Step (c : Contract) : Contract → Type 0 where
  accepts :
      (a : String)
      → is_open c ≡ true
      → c.offerer_id ≢ a
      → Step c (record c { acceptor_id = some a; status = accepted })
  completes : is_accepted c ≡ true → Step c (record c { status = completed })
  breaches :
      (breached_by_id : String) → is_accepted c ≡ true → Step c (record c { status = breached })

-- What a step pays into the market's balances.
unfoldable pub paid_out : {c c' : Contract} → Step c c' → MarketService → MarketService
paid_out (accepts a _ _) m = m
paid_out {c} (completes _) m = release_escrow c m
paid_out {c} (breaches b _) m = compensate (non_breaching c b) c m

-- How a call can end: refused, a new contract, or one step of a contract that is there.
pub data Ends (now : ℕ) (r : Request) (s : ContractsService) : Outcome → Type 0 where
  refused : (e : ContractError) → Ends now r s (err e, s)
  opened :
      (p : ContractParams) (m : MarketService)
      → r ≡ create p
      → pos 0 ≤ℤ p.escrow_amount
      → ((m ≡ debited p.offerer_id p.escrow_amount s.market)
          × (p.escrow_amount ≤ℤ or_zero (lookup p.offerer_id s.market.balances)))
        ⊎ ((m ≡ s.market) × (p.escrow_amount ≡ pos 0))
      → Ends now r s (open_contract now p (record s { market = m }))
  stepped :
      (id : EntityId) (c c' : Contract) (m : MarketService)
      → lookup id s.contracts ≡ some c
      → (st : Step c c') → m.balances ≡ (paid_out st s.market).balances
      → ((a : String)
          → c'.acceptor_id ≡ some a
          → (c.acceptor_id ≡ some a) ⊎ ((i : EntityId) × (r ≡ accept i a)))
      → Ends now r s (ok c', record s { contracts = insert id c' s.contracts; market = m })

module _ (now : ℕ) (s : ContractsService) where
  create_contract-Ends : (p : ContractParams) → Ends now (create p) s (create_contract now p s)
  unfolding create_contract
  create_contract-Ends p =
      if_elim (Ends now (create p) s) (ltb_ℤ p.escrow_amount (pos 0)) _ _ (λ _. refused _)
        λ nonneg.
          if_elim (Ends now (create p) s) (ltb_ℤ (pos 0) p.escrow_amount) _ _
            (λ _.
              debit_cases
                (λ r. Ends now (create p) s (
                  if r.0
                  then open_contract now p (record s { market = r.1 })
                  else (err escrow_not_covered, record s { market = r.1 })))
                p.offerer_id p.escrow_amount s.market (refused _)
                (λ enough.
                  opened p _ refl (at_least_0 p.escrow_amount nonneg) (inl (refl, enough))))
            (λ none_locked.
              opened p s.market refl (at_least_0 p.escrow_amount nonneg)
                (inr (refl, exactly_0 p.escrow_amount nonneg none_locked)))
    where
      at_least_0 : (a : ℤ) → ltb_ℤ a (pos 0) ≡ false → pos 0 ≤ℤ a
      at_least_0 a h = ground arith

      exactly_0 : (a : ℤ) → ltb_ℤ a (pos 0) ≡ false → ltb_ℤ (pos 0) a ≡ false → a ≡ pos 0
      exactly_0 a h k = ground arith

  accept_contract-Ends :
      (id : EntityId) (a : String) → Ends now (accept id a) s (accept_contract id a s)
  unfolding accept_contract paid_out
  accept_contract-Ends id a =
      Option_elim (Ends now (accept id a) s) (lookup id s.contracts) _ _ (λ _. refused _)
        λ c found.
          if_elim (Ends now (accept id a) s) (is_open c) _ _
            (λ opening.
              if_elim (Ends now (accept id a) s) (c.offerer_id == a) _ _ (λ _. refused _)
                λ differ.
                  stepped id c _ s.market found
                    (accepts a opening (ne_of_beq c.offerer_id a differ)) refl
                    (λ b e. inr (id, cc e)))
            (λ _. refused _)

  complete_contract-Ends : (id : EntityId) → Ends now (complete id) s (complete_contract now id s)
  unfolding complete_contract paid_out
  complete_contract-Ends id =
      Option_elim (Ends now (complete id) s) (lookup id s.contracts) _ _ (λ _. refused _)
        λ c found.
          if_elim (Ends now (complete id) s) (is_accepted c) _ _
            (λ held. stepped id c _ _ found (completes held) refl (λ a e. inl e)) (λ _. refused _)

  breach_contract-Ends :
      (id : EntityId) (b : String) → Ends now (breach id b) s (breach_contract now id b s)
  unfolding breach_contract paid_out
  breach_contract-Ends id b =
      Option_elim (Ends now (breach id b) s) (lookup id s.contracts) _ _ (λ _. refused _)
        λ c found.
          if_elim (Ends now (breach id b) s) (is_accepted c) _ _
            (λ held. stepped id c _ _ found (breaches b held) refl (λ a e. inl e)) (λ _. refused _)

-- Every call ends in one of the three ways.
pub apply-Ends : (now : ℕ) (r : Request) (s : ContractsService) → Ends now r s (apply now r s)
unfolding apply
apply-Ends now (create p) s = create_contract-Ends now s p
apply-Ends now (accept id a) s = accept_contract-Ends now s id a
apply-Ends now (complete id) s = complete_contract-Ends now s id
apply-Ends now (breach id b) s = breach_contract-Ends now s id b

-- An id that is still to be issued stands under no contract.
abbrev pub IsFresh : ContractsService → Type 0
IsFresh s = (t n : ℕ) → s.id_counter < n → lookup (issued "ctr" t n) s.contracts ≡ none

issued_ne : (t u n k : ℕ) → k < n → (issued "ctr" t n == issued "ctr" u k) ≡ false
unfolding entity_beq
issued_ne t u n k h = ground (arith, eq_iff "ctr" "ctr")

known_ne :
    (id : EntityId) (t n : ℕ) (d : Dict EntityId Contract) (c : Contract)
    → lookup (issued "ctr" t n) d ≡ none
    → lookup id d ≡ some c
    → (issued "ctr" t n == id) ≡ false
known_ne id t n d c h k = elim (Bool-cases (issued "ctr" t n == id)) [
  | inl same ↦ cc (h, k, (eq_lem (issued "ctr" t n) id).0 same)
  | inr other ↦ other
]

Ends-IsFresh :
    (now : ℕ) (r : Request) (s : ContractsService) (o : Outcome)
    → Ends now r s o
    → IsFresh s
    → IsFresh o.1
unfolding open_contract
Ends-IsFresh now r s o (refused e) h t n later = h t n later
Ends-IsFresh now r s o (opened p m _ _ _) h t n later =
    rw
      (
        lookup-insert (issued "ctr" t n) (issued "ctr" now (s.id_counter + 1)) _ s.contracts,
        issued_ne t now n (s.id_counter + 1) later,
      )
      (h t n (omega arith))
Ends-IsFresh now r s o (stepped id c c' m found st _ _) h t n later =
    rw
      (
        lookup-insert (issued "ctr" t n) id c' s.contracts,
        known_ne id t n s.contracts c (h t n later) found,
      )
      (h t n later)

pub apply-IsFresh :
    (now : ℕ) (r : Request) (s : ContractsService) → IsFresh s → IsFresh (apply now r s).1
apply-IsFresh now r s h = Ends-IsFresh now r s _ (apply-Ends now r s) h

Ends-Step :
    (now : ℕ) (r : Request) (s : ContractsService) (o : Outcome) (j : EntityId) (c : Contract)
    → Ends now r s o
    → IsFresh s
    → lookup j s.contracts ≡ some c
    → (c' : Contract) × (lookup j o.1.contracts ≡ some c') × ((c' ≡ c) ⊎ Step c c')
unfolding open_contract
Ends-Step now r s o j c (refused e) h k = (c, k, inl refl)
Ends-Step now r s o j c (opened p m _ _ _) h k = (
  c,
  rw
      (
        lookup-insert j (issued "ctr" now (s.id_counter + 1)) _ s.contracts,
        eq_sym j (issued "ctr" now (s.id_counter + 1)),
        known_ne j now (s.id_counter + 1) s.contracts c (h now _ (omega arith)) k,
      )
      k,
  inl refl,
)
Ends-Step now r s o j c (stepped id b c' m found st _ _) h k = elim (Bool-cases (j == id)) [
  | inl same ↦
      let one : b ≡ c = cc (k, found, (eq_lem j id).0 same) in
      (c', rw (lookup-insert j id c' s.contracts, same), inr (rw one at st))
  | inr other ↦ (c, rw (lookup-insert j id c' s.contracts, other) k, inl refl)
]

-- In every call each contract of the store stays as it is or makes one step of its life: it is
-- accepted while open, or completed or breached while accepted. No call loses or replaces one, as
-- long as no contract stands under an id that is still to be issued.
pub apply-Step :
    (now : ℕ) (r : Request) (s : ContractsService) (j : EntityId) (c : Contract)
    → IsFresh s
    → lookup j s.contracts ≡ some c
    → (c' : Contract) × (lookup j (apply now r s).1.contracts ≡ some c') × ((c' ≡ c) ⊎ Step c c')
apply-Step now r s j c h k = Ends-Step now r s _ j c (apply-Ends now r s) h k

-- Completed or breached.
abbrev pub IsClosed : Contract → Type 0
IsClosed c = (is_open c ≡ false) × (is_accepted c ≡ false)

no-Step : {c c' : Contract} → Step c c' → IsClosed c → ⊥
no-Step (accepts a opening _) h = cc (opening, h.0)
no-Step (completes held) h = cc (held, h.1)
no-Step (breaches b held) h = cc (held, h.1)

-- A contract that is completed or breached stays as it is, whatever calls follow, as long as
-- no contract stands under an id that is still to be issued.
pub run-closed :
    (rs : List (ℕ × Request)) (s : ContractsService) (j : EntityId) (c : Contract)
    → IsFresh s
    → IsClosed c
    → lookup j s.contracts ≡ some c
    → lookup j (run rs s).contracts ≡ some c
unfolding run
run-closed [] s j c h done k = k
run-closed (r ∷ rs) s j c h done k =
    let (c', after, change) = apply-Step r.0 r.1 s j c h k in
    run-closed rs _ j c (apply-IsFresh r.0 r.1 s h) done (unchanged c' after change)
  where
    unchanged :
        (c' : Contract)
        → lookup j (apply r.0 r.1 s).1.contracts ≡ some c'
        → (c' ≡ c) ⊎ Step c c'
        → lookup j (apply r.0 r.1 s).1.contracts ≡ some c
    unchanged c' after (inl same) = rw same at after
    unchanged c' after (inr st) = absurd (no-Step st done)
