-- ===== src/Currency/Requests.antt =====
-- server/src/modules/currency/currency.service.ts: the three mutations as one type of request, and
-- what the proofs about them share: the two ways in which such a call can end.
use mmorpg_design_documents.Base.{
  ℕ, ◌≡◌, refl, false, Result, err, Option, none, some, List, [], ◌∷◌, String, arith, if_elim,
  Option_elim, ◌≢◌,
}
use mmorpg_design_documents.Base.Int.{ℤ, pos, ◌+ℤ◌, ◌-ℤ◌, ◌≤ℤ◌, ltb_ℤ, leb_ℤ}
use mmorpg_design_documents.Base.Key.{EntityId, ◌==◌, string_eq, ne_of_beq}
use mmorpg_design_documents.Base.Dict.{Dict, insert}
use mmorpg_design_documents.Currency.{
  CurrencyService, CurrencyTransaction, CurrencyError, TransferParams, Outcome, seed_wallet,
  deduct_fee, transfer, find_by_idempotency_key, conclude, key_or_next, wallet_key, balance_at,
  known_currency,
}

pub data Request : Type 0 where
  seed : String → ℤ → String → String → Option EntityId → Request
  deduct : String → ℤ → String → String → Option EntityId → Request
  send : TransferParams → Request

unfoldable pub apply : ℕ → Request → CurrencyService → Outcome
apply now (seed c a u r k) = seed_wallet now c a u r k
apply now (deduct c a u r k) = deduct_fee now c a u r k
apply now (send p) = transfer now p

-- A history of calls, each with its time.
unfoldable pub run : List (ℕ × Request) → CurrencyService → CurrencyService
run [] s = s
run (r ∷ rs) s = run rs (apply r.0 r.1 s).1

-- The money moves: what the wallets become when a request goes through.
abbrev pub seeded : String → ℤ → Dict String ℤ → Dict String ℤ
seeded k amount w = insert k (balance_at k w +ℤ amount) w

abbrev pub deducted : String → ℤ → Dict String ℤ → Dict String ℤ
deducted k amount w = insert k (balance_at k w -ℤ amount) w

-- A call that does not post leaves everything but the id counter as it was.
pub record Unposted (s s' : CurrencyService) : Type 0 where
  pub currencies : s'.currencies ≡ s.currencies
  pub wallets : s'.wallets ≡ s.wallets
  pub transactions : s'.transactions ≡ s.transactions
  pub index : s'.idempotency_index ≡ s.idempotency_index
  pub bus : s'.bus ≡ s.bus

pub key_or_next-Unposted :
    (now : ℕ) (k : Option EntityId) (s : CurrencyService) → Unposted s (key_or_next now k s).1
unfolding key_or_next
key_or_next-Unposted now none s = record {
  currencies = refl;
  wallets = refl;
  transactions = refl;
  index = refl;
  bus = refl;
}
key_or_next-Unposted now (some k) s = record {
  currencies = refl;
  wallets = refl;
  transactions = refl;
  index = refl;
  bus = refl;
}

-- What a posting from `f` to `t` does to the wallets; no sender means minted, no receiver burned.
abbrev pub Books :
    Option String → Option String → String → ℤ → Dict String ℤ → Dict String ℤ → Type 0
Books none none u a w w' = ⊥
Books none (some c) u a w w' = w' ≡ seeded (wallet_key c u) a w
Books (some c) none u a w w' =
    (a ≤ℤ balance_at (wallet_key c u) w) × (w' ≡ deducted (wallet_key c u) a w)
Books (some f) (some t) u a w w' =
    (a ≤ℤ balance_at (wallet_key f u) w)
    × (f ≢ t)
    × (w' ≡ seeded (wallet_key t u) a (deducted (wallet_key f u) a w))

-- How a call can end: it posts nothing, or it posts one new transaction.
pub data Ends (now : ℕ) (s : CurrencyService) : Outcome → Type 0 where
  unposted : (o : Outcome) → Unposted s o.1 → Ends now s o
  posted :
      (f t : Option String) (u r : String) (a : ℤ) (k : EntityId) (s' : CurrencyService)
      (w : Dict String ℤ)
      → Unposted s s'
      → pos 1 ≤ℤ a
      → find_by_idempotency_key s' k ≡ none
      → Books f t u a s'.wallets w
      → Ends now s (conclude now f t u a r k (record s' { wallets = w }))

Unposted-self : (s : CurrencyService) → Unposted s s
Unposted-self s = record {
  currencies = refl;
  wallets = refl;
  transactions = refl;
  index = refl;
  bus = refl;
}

positive_of_not_leb : (a : ℤ) → leb_ℤ a (pos 0) ≡ false → pos 1 ≤ℤ a
positive_of_not_leb a h = ground arith

covered_of_not_ltb : (a b : ℤ) → ltb_ℤ b a ≡ false → a ≤ℤ b
covered_of_not_ltb a b h = ground arith

module _ (now : ℕ) (s : CurrencyService) where
  seed_wallet-Ends :
      (c : String) (a : ℤ) (u r : String) (k : Option EntityId)
      → Ends now s (seed_wallet now c a u r k s)
  unfolding seed_wallet
  seed_wallet-Ends c a u r k =
      if_elim (Ends now s) (leb_ℤ a (pos 0)) _ _ (λ h. unposted _ (Unposted-self s))
        λ h.
          if_elim (Ends now s) (known_currency s u) _ _
            (λ _.
              let (key, s') = key_or_next now k s in
              Option_elim (Ends now s) (find_by_idempotency_key s' key) _ _
                (λ fresh.
                  posted none (some c) u r a key s' _ (key_or_next-Unposted now k s)
                    (positive_of_not_leb a h) fresh refl)
                (λ old _. unposted _ (key_or_next-Unposted now k s)))
            (λ _. unposted _ (Unposted-self s))

  deduct_fee-Ends :
      (c : String) (a : ℤ) (u r : String) (k : Option EntityId)
      → Ends now s (deduct_fee now c a u r k s)
  unfolding deduct_fee
  deduct_fee-Ends c a u r k =
      if_elim (Ends now s) (leb_ℤ a (pos 0)) _ _ (λ h. unposted _ (Unposted-self s))
        λ h.
          if_elim (Ends now s) (known_currency s u) _ _
            (λ _.
              let (key, s') = key_or_next now k s in
              Option_elim (Ends now s) (find_by_idempotency_key s' key) _ _
                (λ fresh.
                  if_elim (Ends now s) (ltb_ℤ (balance_at (wallet_key c u) s'.wallets) a) _ _
                    (λ _. unposted _ (key_or_next-Unposted now k s))
                    (λ enough.
                      posted (some c) none u r a key s' _ (key_or_next-Unposted now k s)
                        (positive_of_not_leb a h) fresh (covered_of_not_ltb a _ enough, refl)))
                (λ old _. unposted _ (key_or_next-Unposted now k s)))
            (λ _. unposted _ (Unposted-self s))

-- A transfer is refused or replayed, with nothing changed, or moves the amount between the two.
pub transfer_cases {ℓ} :
    (P : Outcome → Type ℓ) (now : ℕ) (p : TransferParams) (s : CurrencyService)
    → ((e : Result CurrencyError CurrencyTransaction) → P (e, s))
    → ((w : Dict String ℤ)
        → pos 1 ≤ℤ p.amount
        → find_by_idempotency_key s p.idempotency_key ≡ none
        → Books (some p.from_id) (some p.to_id) p.currency_id p.amount s.wallets w
        → P (
            conclude now
              (some p.from_id)
              (some p.to_id)
              p.currency_id
              p.amount
              p.reason
              p.idempotency_key
              (record s { wallets = w })))
    → P (transfer now p s)
unfolding transfer
transfer_cases P now p s same moved =
    if_elim P (leb_ℤ p.amount (pos 0)) _ _ (λ _. same _)
      λ positive.
        if_elim P (p.from_id == p.to_id) _ _ (λ _. same _)
          λ differ.
            if_elim P (known_currency s p.currency_id) _ _
              (λ _.
                Option_elim P (find_by_idempotency_key s p.idempotency_key) _ _
                  (λ fresh.
                    if_elim P
                      (ltb_ℤ (balance_at (wallet_key p.from_id p.currency_id) s.wallets) p.amount) _
                      _ (λ _. same _)
                      (λ enough. moved _ (positive_of_not_leb p.amount positive) fresh (
                        covered_of_not_ltb p.amount _ enough,
                        ne_of_beq p.from_id p.to_id differ,
                        refl,
                      )))
                  (λ old _. same _))
              (λ _. same _)

transfer-Ends : (now : ℕ) (s : CurrencyService) (p : TransferParams) → Ends now s (transfer now p s)
transfer-Ends now s p =
    transfer_cases (Ends now s) now p s (λ e. unposted _ (Unposted-self s))
      λ w positive fresh b.
        posted (some p.from_id) (some p.to_id) p.currency_id p.reason p.amount p.idempotency_key s w
          (Unposted-self s) positive fresh b

-- Every request ends in one of the two ways.
pub apply-Ends : (now : ℕ) (r : Request) (s : CurrencyService) → Ends now s (apply now r s)
unfolding apply
apply-Ends now (seed c a u r k) s = seed_wallet-Ends now s c a u r k
apply-Ends now (deduct c a u r k) s = deduct_fee-Ends now s c a u r k
apply-Ends now (send p) s = transfer-Ends now s p

Ends-Unposted :
    (now : ℕ) (s : CurrencyService) (o : Outcome) (e : CurrencyError)
    → Ends now s o
    → o.0 ≡ err e
    → Unposted s o.1
unfolding conclude
Ends-Unposted now s o e (unposted _ same) h = same
Ends-Unposted now s o e (posted f t u r a k s' w same _ _ _) h = cc

-- A request that throws leaves the wallets, the log, the index of keys, the currencies and the
-- event bus as they were: only the id counter may have moved.
pub apply_refused :
    (now : ℕ) (r : Request) (s : CurrencyService) (e : CurrencyError)
    → (apply now r s).0 ≡ err e
    → Unposted s (apply now r s).1
apply_refused now r s e h = Ends-Unposted now s _ e (apply-Ends now r s) h
