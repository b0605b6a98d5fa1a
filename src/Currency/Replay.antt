-- ===== src/Currency/Replay.antt =====
-- server/src/modules/currency/currency.service.ts: a request that is sent twice under one
-- idempotency key.
use mmorpg_design_documents.Base.{
  ℕ, ◌≡◌, refl, ◌≢◌, true, false, Bool-cases, Option, none, some, inl, inr, List, [], ◌∷◌, ◌++◌,
  String, ok, err, arith, if◌then◌else◌, if_elim, Option_elim,
}
use mmorpg_design_documents.Base.Int.{ℤ, pos, leb_ℤ, ltb_ℤ}
use mmorpg_design_documents.Base.Key.{EntityId, ◌==◌, string_eq, entity_eq, eq_self}
use mmorpg_design_documents.Base.Dict.{Dict}
use mmorpg_design_documents.Base.Lists.{any}
use mmorpg_design_documents.Events.{DomainEventBus}
use mmorpg_design_documents.Currency.{
  CurrencyService, CurrencyTransaction, TransferParams, Outcome, conclude, transfer, seed_wallet,
  deduct_fee, find_transaction, find_by_idempotency_key, known_currency, new_service, wallet_key,
  balance_at,
}
use mmorpg_design_documents.Currency.Kept.{Kept, run-Kept}
use mmorpg_design_documents.Currency.Requests.{
  Request, seed, deduct, send, apply, run, Ends, unposted, posted, apply-Ends,
}

-- A key that is not in the index belongs to no transaction of the log.
abbrev pub IsIndexed : CurrencyService → Type 0
IsIndexed s =
    (k : EntityId)
    → any (◌==◌ k) s.idempotency_index ≡ false
    → find_transaction k s.transactions ≡ none

any-append_one :
    (k key : EntityId) (ks : List EntityId)
    → any (◌==◌ k) (ks ++ key ∷ []) ≡ false
    → (any (◌==◌ k) ks ≡ false) × ((k == key) ≡ false)
any-append_one k key [] h = ground arith
any-append_one k key (x ∷ ks) h = ground (arith, any-append_one k key ks)

any-append_last : (k : EntityId) (ks : List EntityId) → any (◌==◌ k) (ks ++ k ∷ []) ≡ true
any-append_last k [] = rw (eq_self k)
any-append_last k (x ∷ ks) = ground (arith, any-append_last k ks)

find_transaction-append :
    (k : EntityId) (txs : List CurrencyTransaction) (tx : CurrencyTransaction)
    → find_transaction k txs ≡ none
    → find_transaction k (txs ++ tx ∷ []) ≡ (if k == tx.idempotency_key then some tx else none)
unfolding find_transaction
find_transaction-append k [] tx h = refl
find_transaction-append k (x ∷ txs) tx h = ground (arith, find_transaction-append k txs tx)

Ends-IsIndexed :
    (now : ℕ) (s : CurrencyService) (o : Outcome) → Ends now s o → IsIndexed s → IsIndexed o.1
unfolding conclude
Ends-IsIndexed now s o (unposted _ same) h k absent =
    rw same.transactions (h k (rw same.index at absent))
Ends-IsIndexed now s o (posted f t u r a key s' d same _ _ _) h k absent =
    let (before, other) = any-append_one k key s'.idempotency_index absent in
    let unseen : find_transaction k s'.transactions ≡ none =
      rw same.transactions (h k (rw same.index at before)) in
    rw (find_transaction-append k s'.transactions _ unseen, other)

pub apply-IsIndexed :
    (now : ℕ) (r : Request) (s : CurrencyService) → IsIndexed s → IsIndexed (apply now r s).1
apply-IsIndexed now r s h = Ends-IsIndexed now s _ (apply-Ends now r s) h

pub run-IsIndexed :
    (rs : List (ℕ × Request)) (s : CurrencyService) → IsIndexed s → IsIndexed (run rs s)
unfolding run
run-IsIndexed [] s h = h
run-IsIndexed (r ∷ rs) s h = run-IsIndexed rs _ (apply-IsIndexed r.0 r.1 s h)

pub new_service-IsIndexed : (bus : DomainEventBus) → IsIndexed (new_service bus)
unfolding find_transaction
new_service-IsIndexed bus k h = refl

-- A fresh key is not that of any transaction, whether or not the index has it.
find_transaction-fresh :
    (s : CurrencyService) (k : EntityId)
    → IsIndexed s
    → find_by_idempotency_key s k ≡ none
    → find_transaction k s.transactions ≡ none
unfolding find_by_idempotency_key
find_transaction-fresh s k h fresh = elim (Bool-cases (any (◌==◌ k) s.idempotency_index)) [
  | inl listed ↦ rw listed at fresh
  | inr absent ↦ h k absent
]

-- How a call ended, and what the same call does after the requests in between: a transaction is
-- returned again, and nothing changes; of an error nothing is said.
abbrev pub Replays : List (ℕ × Request) → (CurrencyService → Outcome) → Outcome → Type 0
Replays between again (ok tx, s') = again (run between s') ≡ (ok tx, run between s')
Replays between again (err e, s') = Unit {0}

-- What was posted is found under its key.
conclude-Replays :
    (between : List (ℕ × Request)) (again : CurrencyService → Outcome) (now : ℕ)
    (f t : Option String) (u r : String) (a : ℤ) (k : EntityId) (s : CurrencyService)
    (w : Dict String ℤ)
    → IsIndexed s
    → find_by_idempotency_key s k ≡ none
    → ((s' : CurrencyService) (tx : CurrencyTransaction)
        → s'.currencies ≡ s.currencies
        → find_by_idempotency_key s' k ≡ some tx
        → again s' ≡ (ok tx, s'))
    → Replays between again (conclude now f t u a r k (record s { wallets = w }))
unfolding conclude find_by_idempotency_key
conclude-Replays between again now f t u r a k s w h fresh use_it =
    let kept = run-Kept between (conclude now f t u a r k (record s { wallets = w })).1 in
    use_it _ _ kept.currencies (
      kept.found k _ (
        rw (
          any-append_last k s.idempotency_index,
          find_transaction-append k s.transactions _ (find_transaction-fresh s k h fresh),
          eq_self k,
        )))

-- The guards that a call has passed it passes again, and then it finds its transaction.
transfer-settled :
    (later : ℕ) (p : TransferParams) (s : CurrencyService) (tx : CurrencyTransaction)
    → leb_ℤ p.amount (pos 0) ≡ false
    → (p.from_id == p.to_id) ≡ false
    → known_currency s p.currency_id ≡ true
    → find_by_idempotency_key s p.idempotency_key ≡ some tx
    → transfer later p s ≡ (ok tx, s)
unfolding transfer
transfer-settled later p s tx positive differ known found = rw (positive, differ, known, found)

seed_wallet-settled :
    (later : ℕ) (c : String) (a : ℤ) (u r : String) (k : EntityId) (s : CurrencyService)
    (tx : CurrencyTransaction)
    → leb_ℤ a (pos 0) ≡ false
    → known_currency s u ≡ true
    → find_by_idempotency_key s k ≡ some tx
    → seed_wallet later c a u r (some k) s ≡ (ok tx, s)
unfolding seed_wallet
seed_wallet-settled later c a u r k s tx positive known found = rw (positive, known, found)

deduct_fee-settled :
    (later : ℕ) (c : String) (a : ℤ) (u r : String) (k : EntityId) (s : CurrencyService)
    (tx : CurrencyTransaction)
    → leb_ℤ a (pos 0) ≡ false
    → known_currency s u ≡ true
    → find_by_idempotency_key s k ≡ some tx
    → deduct_fee later c a u r (some k) s ≡ (ok tx, s)
unfolding deduct_fee
deduct_fee-settled later c a u r k s tx positive known found = rw (positive, known, found)

known_currency-of_eq :
    (s s' : CurrencyService) (u : String)
    → known_currency s u ≡ true
    → s'.currencies ≡ s.currencies
    → known_currency s' u ≡ true
known_currency-of_eq s s' u known same = rw same known

module _ (now later : ℕ) (between : List (ℕ × Request)) (s : CurrencyService)
    (h : IsIndexed s) where
  kept : Kept s (run between s)
  kept = run-Kept between s

  transfer-Replays : (p : TransferParams) → Replays between (transfer later p) (transfer now p s)
  unfolding transfer
  transfer-Replays p =
      if_elim P (leb_ℤ p.amount (pos 0)) _ _ (λ _. tt)
        λ positive.
          if_elim P (p.from_id == p.to_id) _ _ (λ _. tt)
            λ differ.
              if_elim P (known_currency s p.currency_id) _ _
                (λ known.
                  Option_elim P (find_by_idempotency_key s p.idempotency_key) _ _
                    (λ fresh.
                      if_elim P
                        (ltb_ℤ (balance_at (wallet_key p.from_id p.currency_id) s.wallets) p.amount)
                        _ _ (λ _. tt)
                        (λ _.
                          conclude-Replays between (transfer later p) now (some p.from_id)
                            (some p.to_id) p.currency_id p.reason p.amount p.idempotency_key s _ h
                            fresh
                            λ s' tx same found.
                              transfer-settled later p s' tx positive differ
                                (known_currency-of_eq s s' _ known same) found))
                    (λ old found.
                      transfer-settled later p (run between s) old positive differ
                        (known_currency-of_eq s (run between s) _ known kept.currencies)
                        (kept.found _ old found)))
                (λ _. tt)
    where
      P : Outcome → Type 0
      P = Replays between (transfer later p)

  seed_wallet-Replays :
      (c : String) (a : ℤ) (u r : String) (k : EntityId)
      → Replays between (seed_wallet later c a u r (some k)) (seed_wallet now c a u r (some k) s)
  unfolding seed_wallet
  seed_wallet-Replays c a u r k =
      if_elim P (leb_ℤ a (pos 0)) _ _ (λ _. tt)
        λ positive.
          if_elim P (known_currency s u) _ _
            (λ known.
              Option_elim P (find_by_idempotency_key s k) _ _
                (λ fresh.
                  conclude-Replays between again now none (some c) u r a k s _ h fresh
                    λ s' tx same found.
                      seed_wallet-settled later c a u r k s' tx positive
                        (known_currency-of_eq s s' u known same) found)
                (λ old found.
                  seed_wallet-settled later c a u r k (run between s) old positive
                    (known_currency-of_eq s (run between s) u known kept.currencies)
                    (kept.found k old found)))
            (λ _. tt)
    where
      again : CurrencyService → Outcome
      again = seed_wallet later c a u r (some k)

      P : Outcome → Type 0
      P = Replays between again

  deduct_fee-Replays :
      (c : String) (a : ℤ) (u r : String) (k : EntityId)
      → Replays between (deduct_fee later c a u r (some k)) (deduct_fee now c a u r (some k) s)
  unfolding deduct_fee
  deduct_fee-Replays c a u r k =
      if_elim P (leb_ℤ a (pos 0)) _ _ (λ _. tt)
        λ positive.
          if_elim P (known_currency s u) _ _
            (λ known.
              Option_elim P (find_by_idempotency_key s k) _ _
                (λ fresh.
                  if_elim P (ltb_ℤ (balance_at (wallet_key c u) s.wallets) a) _ _ (λ _. tt)
                    λ _.
                      conclude-Replays between again now (some c) none u r a k s _ h fresh
                        λ s' tx same found.
                          deduct_fee-settled later c a u r k s' tx positive
                            (known_currency-of_eq s s' u known same) found)
                (λ old found.
                  deduct_fee-settled later c a u r k (run between s) old positive
                    (known_currency-of_eq s (run between s) u known kept.currencies)
                    (kept.found k old found)))
            (λ _. tt)
    where
      again : CurrencyService → Outcome
      again = deduct_fee later c a u r (some k)

      P : Outcome → Type 0
      P = Replays between again

-- The request names its idempotency key.
abbrev pub IsKeyed : Request → Type 0
IsKeyed (seed c a u r k) = k ≢ none
IsKeyed (deduct c a u r k) = k ≢ none
IsKeyed (send p) = Unit {0}

-- When a request with an idempotency key has ended well, making it again at any time, after any
-- other requests, returns the same transaction and changes nothing: no wallet, no log, no event.
pub apply-Replays :
    (now later : ℕ) (r : Request) (between : List (ℕ × Request)) (s : CurrencyService)
    → IsIndexed s
    → IsKeyed r
    → Replays between (apply later r) (apply now r s)
unfolding apply
apply-Replays now later (seed c a u r none) between s h keyed = absurd (keyed refl)
apply-Replays now later (seed c a u r (some k)) between s h keyed =
    seed_wallet-Replays now later between s h c a u r k
apply-Replays now later (deduct c a u r none) between s h keyed = absurd (keyed refl)
apply-Replays now later (deduct c a u r (some k)) between s h keyed =
    deduct_fee-Replays now later between s h c a u r k
apply-Replays now later (send p) between s h keyed = transfer-Replays now later between s h p
