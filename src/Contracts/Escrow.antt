-- ===== src/Contracts/Escrow.antt =====
-- server/src/modules/economy/contracts/contracts.service.ts: the money in escrow.
use mmorpg_design_documents.Base.{
  ℕ, ◌+◌, ◌≡◌, refl, sym, subst, ◌∙◌, ◌≢◌, ◌⊎◌, inl, inr, Bool, true, false, ◌&&◌, Bool-cases,
  Option, none, some, List, [], ◌∷◌, String, if◌then◌else◌, arith, ap, if_elim, Option_elim,
}
use mmorpg_design_documents.Base.Int.{ℤ, pos, ◌+ℤ◌, ◌-ℤ◌, ◌≤ℤ◌, ltb_ℤ, int_laws}
use mmorpg_design_documents.Base.Key.{EntityId, issued, ◌==◌, string_eq, entity_eq, eq_lem}
use mmorpg_design_documents.Base.Dict.{
  Dict, lookup, insert, Every, insert-Every, lookup-Every, sum_by, figure, sum_by-insert,
}
use mmorpg_design_documents.Base.Accounts.{total, total-credit, total-debit}
use mmorpg_design_documents.Market.{MarketService, credit_balance}
use mmorpg_design_documents.Market.Funds.{money}
use mmorpg_design_documents.Contracts.{
  Contract, open_for_offers, accepted, completed, breached, ContractsService, Outcome, is_open,
  is_accepted, open_contract, release_escrow, non_breaching, compensate, complete_contract,
}
use mmorpg_design_documents.Contracts.Lifecycle.{
  Request, create, accept, complete, breach, apply, run, Step, accepts, completes, breaches,
  paid_out, Ends, refused, opened, stepped, apply-Ends, IsFresh, apply-IsFresh,
}

-- What a contract holds back: its escrow until it is completed or breached.
abbrev pub locked : Contract → ℤ
locked c = elim c.status [
  | open_for_offers ↦ c.escrow_amount
  | accepted ↦ c.escrow_amount
  | completed ↦ pos 0
  | breached ↦ pos 0
]

-- The balances and the escrow together.
abbrev pub held : ContractsService → ℤ
held s = money s.market +ℤ sum_by locked s.contracts

-- An escrow is not negative, and an accepted contract has an acceptor with a name.
pub record Well (c : Contract) : Type 0 where
  pub escrow : pos 0 ≤ℤ c.escrow_amount
  pub acceptor : (a : String) → c.acceptor_id ≡ some a → a ≢ ""
  pub present : is_accepted c ≡ true → (a : String) × (c.acceptor_id ≡ some a)

money-credit :
    (a : String) (x : ℤ) (m : MarketService) → money (credit_balance a x m) ≡ money m +ℤ x
unfolding credit_balance
money-credit a x m = total-credit a x m.balances

money-compensate :
    (a : String) (c : Contract) (m : MarketService)
    → pos 0 ≤ℤ c.escrow_amount
    → money (compensate (some a) c m) ≡ money m +ℤ c.escrow_amount
unfolding compensate
money-compensate a c m h = elim (Bool-cases (ltb_ℤ (pos 0) c.escrow_amount)) [
  | inl some_locked ↦ rw some_locked (money-credit a c.escrow_amount m)
  | inr none_locked ↦ rw none_locked (nothing c.escrow_amount h none_locked)
]
  where
    nothing : (x : ℤ) → pos 0 ≤ℤ x → ltb_ℤ (pos 0) x ≡ false → money m ≡ money m +ℤ x
    nothing x p q = let zero_escrow : x ≡ pos 0 = ground arith in rw zero_escrow (omega int_laws)

money-release_escrow :
    (a : String) (c : Contract) (m : MarketService)
    → pos 0 ≤ℤ c.escrow_amount
    → c.acceptor_id ≡ some a
    → a ≢ ""
    → money (release_escrow c m) ≡ money m +ℤ c.escrow_amount
unfolding release_escrow compensate
money-release_escrow a c m h e named =
    rw (e, release_escrow, unnamed) (again (money-compensate a c m h))
  where
    unnamed : (a == "") ≡ false
    unnamed = ground (arith, eq_lem a "")

    again :
        money (if ltb_ℤ (pos 0) c.escrow_amount then credit_balance a c.escrow_amount m else m)
          ≡ money m +ℤ c.escrow_amount
        → money (
            if ltb_ℤ (pos 0) c.escrow_amount && true then credit_balance a c.escrow_amount m else m)
          ≡ money m +ℤ c.escrow_amount
    again q = elim (Bool-cases (ltb_ℤ (pos 0) c.escrow_amount)) [
      | inl yes_ ↦ rw yes_ (rw yes_ at q)
      | inr no_ ↦ rw no_ (rw no_ at q)
    ]

locked-open : (c : Contract) → is_open c ≡ true → locked c ≡ c.escrow_amount
locked-open c h = ground arith

locked-accepted : (c : Contract) → is_accepted c ≡ true → locked c ≡ c.escrow_amount
locked-accepted c h = ground arith

money-breach :
    (b : String) (c : Contract) (m : MarketService)
    → Well c
    → is_accepted c ≡ true
    → money (compensate (non_breaching c b) c m) ≡ money m +ℤ c.escrow_amount
unfolding non_breaching
money-breach b c m w h =
    let (a, e) = w.present h in
    elim (Bool-cases (b == c.offerer_id)) [
      | inl by_offerer ↦ rw by_offerer (
          subst (λ (o : Option String). money (compensate o c m) ≡ money m +ℤ c.escrow_amount)
            (sym e) (money-compensate a c m w.escrow))
      | inr by_acceptor ↦ rw by_acceptor (money-compensate c.offerer_id c m w.escrow)
    ]

-- A step pays out what the contract no longer holds back.
Step-money :
    {c c' : Contract} (st : Step c c') (m : MarketService)
    → Well c
    → money (paid_out st m) +ℤ locked c' ≡ money m +ℤ locked c
unfolding paid_out
Step-money {c} (accepts a opening _) m w = rw (locked-open c opening)
Step-money {c} (completes now_held) m w =
    let (a, e) = w.present now_held in
    rw (locked-accepted c now_held, money-release_escrow a c m w.escrow e (w.acceptor a e))
      (omega int_laws)
Step-money {c} (breaches b now_held) m w =
    rw (locked-accepted c now_held, money-breach b c m w now_held) (omega int_laws)

-- Nobody accepts under an empty name.
abbrev pub IsNamed : Request → Type 0
IsNamed (create p) = Unit {0}
IsNamed (accept id a) = a ≢ ""
IsNamed (complete id) = Unit {0}
IsNamed (breach id b) = Unit {0}

pub record IsWell (s : ContractsService) : Type 0 where
  pub each : Every Well s.contracts
  pub fresh : IsFresh s

Step-Well :
    {c c' : Contract}
    → Step c c'
    → ((a : String) → c'.acceptor_id ≡ some a → a ≢ "")
    → Well c
    → Well c'
Step-Well (accepts a _ _) named w = record {
  escrow = w.escrow;
  acceptor = named;
  present = λ _. (a, refl);
}
Step-Well (completes _) named w = record {
  escrow = w.escrow;
  acceptor = named;
  present = λ h. absurd (cc h);
}
Step-Well (breaches _ _) named w = record {
  escrow = w.escrow;
  acceptor = named;
  present = λ h. absurd (cc h);
}

named_after :
    (r : Request) (c c' : Contract)
    → IsNamed r
    → Well c
    → ((a : String)
        → c'.acceptor_id ≡ some a
        → (c.acceptor_id ≡ some a) ⊎ ((i : EntityId) × (r ≡ accept i a)))
    → (a : String) → c'.acceptor_id ≡ some a
    → a ≢ ""
named_after r c c' named w origin a e = from (origin a e)
  where
    from : (c.acceptor_id ≡ some a) ⊎ ((i : EntityId) × (r ≡ accept i a)) → a ≢ ""
    from (inl before) = w.acceptor a before
    from (inr (i, request)) = subst IsNamed request named

Ends-Well :
    (now : ℕ) (r : Request) (s : ContractsService) (o : Outcome)
    → Ends now r s o
    → IsNamed r
    → Every Well s.contracts
    → Every Well o.1.contracts
unfolding open_contract
Ends-Well now r s o (refused e) named h = h
Ends-Well now r s o (opened p m _ escrow _) named h =
    insert-Every Well _ _ s.contracts
      (record { escrow = escrow; acceptor = λ a e. absurd (cc e); present = λ e. absurd (cc e) }) h
Ends-Well now r s o (stepped id c c' m found st _ origin) named h =
    let w = lookup-Every Well id c s.contracts h found in
    insert-Every Well id c' s.contracts (Step-Well st (named_after r c c' named w origin) w) h

pub apply-IsWell :
    (now : ℕ) (r : Request) (s : ContractsService) → IsNamed r → IsWell s → IsWell (apply now r s).1
apply-IsWell now r s named w = record {
  each = Ends-Well now r s _ (apply-Ends now r s) named w.each;
  fresh = apply-IsFresh now r s w.fresh;
}

sum-replace :
    (id : EntityId) (c c' : Contract) (d : Dict EntityId Contract)
    → lookup id d ≡ some c
    → sum_by locked (insert id c' d) +ℤ locked c ≡ sum_by locked d +ℤ locked c'
sum-replace id c c' d h =
    subst
      (λ (o : Option Contract).
        sum_by locked (insert id c' d) +ℤ figure locked o ≡ sum_by locked d +ℤ locked c')
      h (sum_by-insert locked id c' d)

sum-new :
    (id : EntityId) (c : Contract) (d : Dict EntityId Contract)
    → lookup id d ≡ none
    → sum_by locked (insert id c d) ≡ sum_by locked d +ℤ locked c
sum-new id c d h = grind (
  int_laws,
  subst
      (λ (o : Option Contract).
        sum_by locked (insert id c d) +ℤ figure locked o ≡ sum_by locked d +ℤ locked c)
      h (sum_by-insert locked id c d),
)

shift : (a a' b b' x : ℤ) → a' ≡ a -ℤ x → b' ≡ b +ℤ x → a' +ℤ b' ≡ a +ℤ b
shift a a' b b' x h k = rw (h, k) (omega int_laws)

exchange : (a a' b b' l l' : ℤ) → a' +ℤ l' ≡ a +ℤ l → b' +ℤ l ≡ b +ℤ l' → a' +ℤ b' ≡ a +ℤ b
exchange a a' b b' l l' h k = grind int_laws

Ends-held :
    (now : ℕ) (r : Request) (s : ContractsService) (o : Outcome)
    → Ends now r s o
    → IsWell s
    → held o.1 ≡ held s
unfolding open_contract
Ends-held now r s o (refused e) w = refl
Ends-held now r s o (opened p m _ _ (inl (paid, _))) w =
    shift (money s.market) (money m) _ _ p.escrow_amount
      (ap money paid ∙ total-debit p.offerer_id p.escrow_amount s.market.balances)
      (sum-new (issued "ctr" now (s.id_counter + 1)) _ s.contracts (w.fresh now _ (omega arith)))
Ends-held now r s o (opened p m _ _ (inr (same, nothing))) w =
    shift (money s.market) (money m) _ _ (pos 0) (ap money same ∙ (omega int_laws)) (
      sum-new (issued "ctr" now (s.id_counter + 1)) _ s.contracts (w.fresh now _ (omega arith))
      ∙ ap (λ (x : ℤ). sum_by locked s.contracts +ℤ x) nothing)
Ends-held now r s o (stepped id c c' m found st paid _) w =
    exchange (money s.market) (money m) (sum_by locked s.contracts) _ (locked c) (locked c')
      (ap (λ (d : Dict String ℤ). total d +ℤ locked c') paid
        ∙ Step-money st s.market (lookup-Every Well id c s.contracts w.each found))
      (sum-replace id c c' s.contracts found)

-- No call but a completion or breach of an accepted contract pays out, and each pays exactly the
-- escrow: the balances and the escrow of the live contracts together stay the same.
pub held-apply :
    (now : ℕ) (r : Request) (s : ContractsService) → IsWell s → held (apply now r s).1 ≡ held s
held-apply now r s w = Ends-held now r s _ (apply-Ends now r s) w

abbrev pub new_contracts : MarketService → ContractsService
new_contracts m = record { contracts = []; id_counter = 0; market = m }

pub new_contracts-IsWell : (m : MarketService) → IsWell (new_contracts m)
unfolding lookup
new_contracts-IsWell m = record { each = tt; fresh = λ t n h. refl }

abbrev pub AllNamed : List (ℕ × Request) → Type 0
AllNamed [] = Unit
AllNamed (r ∷ rs) = IsNamed r.1 × AllNamed rs

run-held :
    (rs : List (ℕ × Request)) (s : ContractsService)
    → AllNamed rs
    → IsWell s
    → held (run rs s) ≡ held s
unfolding run
run-held [] s named w = refl
run-held (r ∷ rs) s named w =
    run-held rs _ named.1 (apply-IsWell r.0 r.1 s named.0 w) ∙ held-apply r.0 r.1 s w

-- Through any history of calls to a new service in which nobody accepts under an empty name, the
-- balances and the escrow of the live contracts add up to the balances at the start.
pub held-run :
    (rs : List (ℕ × Request)) (m : MarketService)
    → AllNamed rs
    → held (run rs (new_contracts m)) ≡ money m
held-run rs m named =
    run-held rs (new_contracts m) named (new_contracts-IsWell m) ∙ (omega int_laws)

release_escrow_unnamed :
    (c : Contract) (m : MarketService) → c.acceptor_id ≡ some "" → release_escrow c m ≡ m
unfolding release_escrow
release_escrow_unnamed c m h = rw (h, release_escrow) (unpaid (ltb_ℤ (pos 0) c.escrow_amount))
  where
    unpaid : (b : Bool) → (if b && false then credit_balance "" c.escrow_amount m else m) ≡ m
    unpaid true = refl
    unpaid false = refl

-- When an accepted contract whose acceptor has the empty name is completed, its escrow is lost: it
-- leaves escrow and nobody is paid.
pub complete_contract_unnamed :
    (now : ℕ) (id : EntityId) (s : ContractsService) (c : Contract)
    → lookup id s.contracts ≡ some c
    → c.status ≡ accepted
    → c.acceptor_id ≡ some ""
    → held (complete_contract now id s).1 ≡ held s -ℤ c.escrow_amount
unfolding complete_contract
complete_contract_unnamed now id s c found status unnamed =
    Option_elim (λ (o : Outcome). held o.1 ≡ held s -ℤ c.escrow_amount) (lookup id s.contracts) _ _
      (λ missing. cc (missing, found))
      λ d e.
        let same : c ≡ d = cc (e, found) in
        let now_held : is_accepted d ≡ true = ground arith in
        if_elim (λ (o : Outcome). held o.1 ≡ held s -ℤ c.escrow_amount) (is_accepted d) _ _
          (λ _. rw (release_escrow_unnamed d s.market (rw same at unnamed)) (
            loss (money s.market) (sum_by locked s.contracts) _ (locked d) c.escrow_amount
              (sum-replace id d (record d { status = completed }) s.contracts e)
              (rw same (locked-accepted d now_held))))
          (λ refusal. cc (refusal, now_held))
  where
    loss : (a b b' l e : ℤ) → b' +ℤ l ≡ b +ℤ pos 0 → l ≡ e → a +ℤ b' ≡ a +ℤ b -ℤ e
    loss a b b' l e h k = grind int_laws
