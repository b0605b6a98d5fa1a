-- ===== src/Currency/Funds.antt =====
-- server/src/modules/currency/currency.service.ts: no overdraft, and how much money there is.
use mmorpg_design_documents.Base.{
  ℕ, ◌≡◌, refl, ◌∙◌, Option, none, some, List, [], ◌∷◌, String, arith, ◌++◌, sym, ap,
}
use mmorpg_design_documents.Base.Int.{ℤ, pos, ◌+ℤ◌, ◌-ℤ◌, ◌≤ℤ◌, int_laws}
use mmorpg_design_documents.Base.Key.{string_eq}
use mmorpg_design_documents.Base.Dict.{Dict, Every}
use mmorpg_design_documents.Base.Accounts.{
  NonNegative, total, total-credit, total-debit, or_zero-nonneg, credit-nonneg, debit-nonneg,
}
use mmorpg_design_documents.Events.{DomainEventBus}
use mmorpg_design_documents.Currency.{
  CurrencyService, CurrencyTransaction, TransferParams, Outcome, conclude, transfer, wallet_key,
  balance_at, new_service,
}
use mmorpg_design_documents.Currency.Requests.{
  Request, apply, run, Ends, unposted, posted, Books, seeded, deducted, apply-Ends, transfer_cases,
}

-- No wallet is overdrawn.
abbrev pub IsSolvent : CurrencyService → Type 0
IsSolvent s = Every NonNegative s.wallets

balance_at-nonneg : (k : String) (d : Dict String ℤ) → Every NonNegative d → pos 0 ≤ℤ balance_at k d
unfolding balance_at
balance_at-nonneg k d h = or_zero-nonneg k d h

seeded-Every :
    (k : String) (a : ℤ) (d : Dict String ℤ)
    → pos 1 ≤ℤ a
    → Every NonNegative d
    → Every NonNegative (seeded k a d)
unfolding balance_at
seeded-Every k a d p h = credit-nonneg k a d (omega arith) h

deducted-Every :
    (k : String) (a : ℤ) (d : Dict String ℤ)
    → a ≤ℤ balance_at k d
    → Every NonNegative d
    → Every NonNegative (deducted k a d)
unfolding balance_at
deducted-Every k a d p h = debit-nonneg k a d p h

Books-Every :
    (f t : Option String) (u : String) (a : ℤ) (d d' : Dict String ℤ)
    → Books f t u a d d'
    → pos 1 ≤ℤ a
    → Every NonNegative d
    → Every NonNegative d'
Books-Every none none u a d d' b p h = absurd b
Books-Every none (some t) u a d d' b p h = rw b (seeded-Every _ a d p h)
Books-Every (some f) none u a d d' b p h = rw b.1 (deducted-Every _ a d b.0 h)
Books-Every (some f) (some t) u a d d' b p h =
    rw b.2 (seeded-Every _ a _ p (deducted-Every _ a d b.0 h))

Ends-IsSolvent :
    (now : ℕ) (s : CurrencyService) (o : Outcome) → Ends now s o → IsSolvent s → IsSolvent o.1
unfolding conclude
Ends-IsSolvent now s o (unposted _ same) h = rw same.wallets h
Ends-IsSolvent now s o (posted f t u r a k s' d same p _ b) h =
    Books-Every f t u a s'.wallets d b p (rw same.wallets h)

-- A request, however it ends, overdraws no wallet.
pub apply-IsSolvent :
    (now : ℕ) (r : Request) (s : CurrencyService) → IsSolvent s → IsSolvent (apply now r s).1
apply-IsSolvent now r s h = Ends-IsSolvent now s _ (apply-Ends now r s) h

run-IsSolvent : (rs : List (ℕ × Request)) (s : CurrencyService) → IsSolvent s → IsSolvent (run rs s)
unfolding run
run-IsSolvent [] s h = h
run-IsSolvent (r ∷ rs) s h = run-IsSolvent rs _ (apply-IsSolvent r.0 r.1 s h)

-- After any history of requests to a new service, no balance is negative.
pub run-balance_nonneg :
    (bus : DomainEventBus) (rs : List (ℕ × Request)) (w : String)
    → pos 0 ≤ℤ balance_at w (run rs (new_service bus)).wallets
run-balance_nonneg bus rs w = balance_at-nonneg w _ (run-IsSolvent rs (new_service bus) tt)

-- All the money in all the wallets.
pub supply : CurrencyService → ℤ
supply s = total s.wallets

sum-seeded : (k : String) (a : ℤ) (d : Dict String ℤ) → total (seeded k a d) ≡ total d +ℤ a
unfolding balance_at
sum-seeded k a d = total-credit k a d

sum-deducted : (k : String) (a : ℤ) (d : Dict String ℤ) → total (deducted k a d) ≡ total d -ℤ a
unfolding balance_at
sum-deducted k a d = total-debit k a d

-- What a posting adds to the supply: nothing between two characters.
abbrev pub minted : Option String → Option String → ℤ → ℤ
minted none none a = pos 0
minted none (some t) a = a
minted (some f) none a = pos 0 -ℤ a
minted (some f) (some t) a = pos 0

Books-sum :
    (f t : Option String) (u : String) (a : ℤ) (d d' : Dict String ℤ)
    → Books f t u a d d'
    → total d' ≡ total d +ℤ minted f t a
Books-sum none none u a d d' b = absurd b
Books-sum none (some t) u a d d' b = rw b (sum-seeded _ a d)
Books-sum (some f) none u a d d' b = rw (b.1, sum-deducted (wallet_key f u) a d) (omega int_laws)
Books-sum (some f) (some t) u a d d' b =
    rw
      (
        b.2,
        sum-seeded (wallet_key t u) a (deducted (wallet_key f u) a d),
        sum-deducted (wallet_key f u) a d,
      )
      (omega int_laws)

-- The supply according to the log: what was minted less what was burned.
abbrev pub issue : List CurrencyTransaction → ℤ
issue [] = pos 0
issue (tx ∷ txs) = minted tx.from_id tx.to_id tx.amount +ℤ issue txs

-- A transfer between characters, however it ends, neither makes money nor loses any.
pub supply-transfer :
    (now : ℕ) (p : TransferParams) (s : CurrencyService) → supply (transfer now p s).1 ≡ supply s
unfolding supply conclude
supply-transfer now p s =
    transfer_cases (λ o. total o.1.wallets ≡ total s.wallets) now p s (λ e. refl)
      λ w _ _ b.
        Books-sum (some p.from_id) (some p.to_id) p.currency_id p.amount s.wallets w b
        ∙ (omega int_laws)

issue-append : (xs ys : List CurrencyTransaction) → issue (xs ++ ys) ≡ issue xs +ℤ issue ys
issue-append [] ys = omega int_laws
issue-append (x ∷ xs) ys = grind (int_laws, issue-append xs ys)

abbrev pub IsBacked : CurrencyService → Type 0
IsBacked s = supply s ≡ issue s.transactions

Ends-IsBacked :
    (now : ℕ) (s : CurrencyService) (o : Outcome) → Ends now s o → IsBacked s → IsBacked o.1
unfolding conclude supply
Ends-IsBacked now s o (unposted _ same) h = rw (same.wallets, same.transactions) h
Ends-IsBacked now s o (posted f t u r a k s' d same _ _ b) h =
    Books-sum f t u a s'.wallets d b
    ∙ ap (λ (x : ℤ). x +ℤ minted f t a) before
    ∙ sym (issue-append s'.transactions _ ∙ (omega int_laws))
  where
    before : total s'.wallets ≡ issue s'.transactions
    before = rw (same.wallets, same.transactions) h

run-IsBacked : (rs : List (ℕ × Request)) (s : CurrencyService) → IsBacked s → IsBacked (run rs s)
unfolding run
run-IsBacked [] s h = h
run-IsBacked (r ∷ rs) s h = run-IsBacked rs _ (Ends-IsBacked r.0 s _ (apply-Ends r.0 r.1 s) h)

-- After any history of requests to a new service, all the wallets together hold what the log says
-- was minted by seeds less what was burned by fees.
pub supply-run :
    (bus : DomainEventBus) (rs : List (ℕ × Request))
    → supply (run rs (new_service bus)) ≡ issue (run rs (new_service bus)).transactions
unfolding supply total
supply-run bus rs = run-IsBacked rs (new_service bus) refl
