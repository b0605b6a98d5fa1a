-- ===== src/Currency/Audit.antt =====
-- server/src/modules/currency/currency.service.ts: the wallets against the transaction log.
use mmorpg_design_documents.Base.{
  ℕ, ◌≡◌, refl, ◌∙◌, sym, ap, Option, none, some, List, [], ◌∷◌, ◌++◌, String, arith, if◌then◌else◌,
}
use mmorpg_design_documents.Base.Int.{ℤ, pos, ◌+ℤ◌, ◌-ℤ◌, int_laws}
use mmorpg_design_documents.Base.Key.{◌==◌, string_eq, eq_lem}
use mmorpg_design_documents.Base.Dict.{Dict, lookup, insert, lookup-insert}
use mmorpg_design_documents.Events.{DomainEventBus}
use mmorpg_design_documents.Currency.{
  CurrencyService, CurrencyTransaction, Outcome, conclude, wallet_key, balance_at, new_service,
}
use mmorpg_design_documents.Currency.Requests.{
  Request, apply, run, Ends, unposted, posted, Books, seeded, deducted, apply-Ends,
}

-- What one side of a posting is worth to the wallet `w`.
abbrev pub share : String → Option String → String → ℤ → ℤ
share w none u a = pos 0
share w (some c) u a = if w == wallet_key c u then a else pos 0

-- The balance of the wallet `w` according to a log: credits less debits.
abbrev pub net : String → List CurrencyTransaction → ℤ
net w [] = pos 0
net w (tx ∷ txs) =
    share w tx.to_id tx.currency_id tx.amount
    -ℤ share w tx.from_id tx.currency_id tx.amount
    +ℤ net w txs

net-append :
    (w : String) (xs ys : List CurrencyTransaction) → net w (xs ++ ys) ≡ net w xs +ℤ net w ys
net-append w [] ys = omega int_laws
net-append w (x ∷ xs) ys = grind (int_laws, net-append w xs ys)

-- Every balance is what the log says.
abbrev pub IsAudited : CurrencyService → Type 0
IsAudited s = (w : String) → balance_at w s.wallets ≡ net w s.transactions

pub balance_at-insert :
    (w k : String) (b : ℤ) (d : Dict String ℤ)
    → balance_at w (insert k b d) ≡ (if w == k then b else balance_at w d)
unfolding balance_at
balance_at-insert w k b d = rw (lookup-insert w k b d) (ground arith)

pub balance_at-seeded :
    (w k : String) (a : ℤ) (d : Dict String ℤ)
    → balance_at w (seeded k a d) ≡ balance_at w d +ℤ (if w == k then a else pos 0)
balance_at-seeded w k a d =
    rw (balance_at-insert w k (balance_at k d +ℤ a) d) (grind (int_laws, eq_lem w k))

pub balance_at-deducted :
    (w k : String) (a : ℤ) (d : Dict String ℤ)
    → balance_at w (deducted k a d) ≡ balance_at w d -ℤ (if w == k then a else pos 0)
balance_at-deducted w k a d =
    rw (balance_at-insert w k (balance_at k d -ℤ a) d) (grind (int_laws, eq_lem w k))

-- A posting changes each wallet by its share of the credit less its share of the debit.
Books-balance :
    (f t : Option String) (u : String) (a : ℤ) (d d' : Dict String ℤ)
    → Books f t u a d d'
    → (w : String) → balance_at w d' ≡ balance_at w d +ℤ (share w t u a -ℤ share w f u a)
Books-balance none none u a d d' b w = absurd b
Books-balance none (some t) u a d d' b w =
    rw (b, balance_at-seeded w (wallet_key t u) a d) (omega int_laws)
Books-balance (some f) none u a d d' b w =
    rw (b.1, balance_at-deducted w (wallet_key f u) a d) (omega int_laws)
Books-balance (some f) (some t) u a d d' b w =
    rw
      (
        b.2,
        balance_at-seeded w (wallet_key t u) a (deducted (wallet_key f u) a d),
        balance_at-deducted w (wallet_key f u) a d,
      )
      (omega int_laws)

Ends-IsAudited :
    (now : ℕ) (s : CurrencyService) (o : Outcome) → Ends now s o → IsAudited s → IsAudited o.1
unfolding conclude
Ends-IsAudited now s o (unposted _ same) h w = rw (same.wallets, same.transactions) (h w)
Ends-IsAudited now s o (posted f t u r a k s' d same _ _ b) h w =
    Books-balance f t u a s'.wallets d b w
    ∙ ap (λ (x : ℤ). x +ℤ (share w t u a -ℤ share w f u a)) before
    ∙ sym (net-append w s'.transactions _ ∙ (omega int_laws))
  where
    before : balance_at w s'.wallets ≡ net w s'.transactions
    before = rw (same.wallets, same.transactions) (h w)

-- Each request, however it ends, leaves every wallet at the net of the transaction log if it was.
pub apply-IsAudited :
    (now : ℕ) (r : Request) (s : CurrencyService) → IsAudited s → IsAudited (apply now r s).1
apply-IsAudited now r s h = Ends-IsAudited now s _ (apply-Ends now r s) h

run-IsAudited : (rs : List (ℕ × Request)) (s : CurrencyService) → IsAudited s → IsAudited (run rs s)
unfolding run
run-IsAudited [] s h = h
run-IsAudited (r ∷ rs) s h = run-IsAudited rs _ (apply-IsAudited r.0 r.1 s h)

-- After any history of requests to a new service, every wallet's balance is the sum of the credits
-- to it less the debits from it that the transaction log holds.
pub run-new_service-IsAudited :
    (bus : DomainEventBus) (rs : List (ℕ × Request)) (w : String)
    → balance_at w (run rs (new_service bus)).wallets
      ≡ net w (run rs (new_service bus)).transactions
unfolding balance_at lookup
run-new_service-IsAudited bus rs = run-IsAudited rs (new_service bus) (λ w. refl)
